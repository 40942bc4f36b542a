-- ===== src/Proto/Varint/Push.antt =====
-- The shift-and-or step of the varint decoders (src/proto/varint.c) as arithmetic.
use wtquic.Base.{
  ℕ, zero, suc, ◌+◌, ◌*◌, ◌/◌, ◌%◌, ◌^◌, ◌≤◌, ◌<◌, ◌≡◌, sym, ap, ◌∙◌, arith, List, [], ◌∷◌, ◌++◌,
  All, div-div-eq-div-mul,
}
use native.Mathlib.Numerals.{towards_suc}
use wtquic.Base.Bits.{bit_or-byte}
use wtquic.Proto.Varint.{push, payload, decode_loop}

abbrev pub IsByte : ℕ → Type 0
IsByte b = b < 256

-- No bit is lost while the accumulator has eight bits to spare.
pub push_lem : (v b : ℕ) → v < 2 ^ 56 → b < 256 → push v b ≡ v * 256 + b
unfolding push
push_lem v b hv hb = ground (arith, bit_or-byte v b)

-- A bound on the accumulator after `n` more bytes.
abbrev pub bound_after : ℕ → ℕ → ℕ
bound_after zero p = p
bound_after (suc n) p = bound_after n (p * 256)

le-bound_after : (n p : ℕ) → p ≤ bound_after n p
le-bound_after zero p = omega arith
le-bound_after (suc n) p = omega (arith, le-bound_after n (p * 256))

pub decode_loop_bound :
    (n p v : ℕ) (src : List ℕ)
    → All IsByte src
    → v < p
    → bound_after n p ≤ 2 ^ 62
    → decode_loop n v src < bound_after n p
unfolding decode_loop
decode_loop_bound zero p v src hs hv hp = hv
decode_loop_bound (suc n) p v [] hs hv hp = omega (arith, le-bound_after n (p * 256))
decode_loop_bound (suc n) p v (b ∷ src) hs hv hp =
    decode_loop_bound n (p * 256) (push v b) src hs.1
      (omega (arith, push_lem v b (omega (arith, le-bound_after n (p * 256))) hs.0)) hp

quotient-suc : (n v : ℕ) → v / 2 ^ (8 * suc n) ≡ v / 2 ^ (8 * n) / 256
quotient-suc n v = ap (λ (t : ℕ). v / t) power ∙ sym (div-div-eq-div-mul v (2 ^ (8 * n)) 256)
  where
    eight : 8 * suc n ≡ 8 * n + 8
    eight = omega arith

    power : 2 ^ (8 * suc n) ≡ 2 ^ (8 * n) * 256
    power = rw eight (simp towards_suc (omega arith))

push_step :
    (n v : ℕ) → v < 2 ^ 62 → push (v / 2 ^ (8 * suc n)) (v / 2 ^ (8 * n) % 256) ≡ v / 2 ^ (8 * n)
push_step n v h = omega (
  arith,
  quotient-suc n v,
  push_lem (v / 2 ^ (8 * suc n)) (v / 2 ^ (8 * n) % 256) (omega (arith, quotient-suc n v))
      (omega arith),
)

-- The bytes of the loop of `encode`, read back one by one.
pub decode_loop-payload :
    (n v : ℕ) (rest : List ℕ)
    → v < 2 ^ 62
    → decode_loop n (v / 2 ^ (8 * n)) (payload n v ++ rest) ≡ v
unfolding decode_loop payload
decode_loop-payload zero v rest h = omega arith
decode_loop-payload (suc n) v rest h =
    ap (λ t. decode_loop n t (payload n v ++ rest)) (push_step n v h)
    ∙ decode_loop-payload n v rest h
