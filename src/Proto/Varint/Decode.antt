-- ===== src/Proto/Varint/Decode.antt =====
-- `wtq_varint_decode` on any bytes, and on what `wtq_varint_encode` wrote (src/proto/varint.c).
use wtquic.Base.{
  ℕ, zero, suc, ◌-◌, ◌*◌, ◌/◌, ◌^◌, ◌≤◌, ◌<◌, ◌≡◌, refl, arith, List, [], ◌∷◌, ◌++◌, bit_and,
  length, length-append, length-take, take, append-nil, ◌⊎◌, inl, inr, sym, ap, ◌∙◌, All,
}
use wtquic.Base.Bits.{bit_and-low6}
use wtquic.Proto.Varint.{done, fail, need_more, len_from_first, decode, decode_loop, push}
use wtquic.Proto.Varint.Push.{IsByte, bound_after, decode_loop_bound}

power_bounds : (q : ℕ) → q < 4 → (1 ≤ 2 ^ q) × (2 ^ q ≤ 8) × (bound_after (2 ^ q - 1) 64 ≤ 2 ^ 62)
power_bounds zero h = omega arith
power_bounds (suc zero) h = omega arith
power_bounds (suc (suc zero)) h = omega arith
power_bounds (suc (suc (suc zero))) h = omega arith
power_bounds (suc (suc (suc (suc q)))) h = absurd (omega arith)

-- The announced length is 1 to 8, and the payload of that length fits 62 bits.
pub len_from_first_bounds :
    (b : ℕ)
    → b < 256
    → (1 ≤ len_from_first b)
      × (len_from_first b ≤ 8)
      × (bound_after (len_from_first b - 1) 64 ≤ 2 ^ 62)
unfolding len_from_first
len_from_first_bounds b h = rw one-mul (power_bounds (b / 64) (omega arith))
  where
    one-mul : 1 * 2 ^ (b / 64) ≡ 2 ^ (b / 64)
    one-mul = omega arith

-- The loop over the bytes that are there and no others.
decode_loop-take :
    (n v : ℕ) (src more : List ℕ)
    → (decode_loop n v (take n src ++ more) ≡ decode_loop n v src) ⊎ (length src < n)
unfolding decode_loop
decode_loop-take zero v src more = inl refl
decode_loop-take (suc n) v [] more = inr (omega arith)
decode_loop-take (suc n) v (b ∷ src) more = elim (decode_loop-take n (push v b) src more) [
  | inl p ↦ inl p
  | inr l ↦ inr (omega (arith, l))
]

-- The first byte, and what is left of the number.
decode_cut :
    (n b : ℕ) (src more : List ℕ)
    → n ≡ len_from_first b
    → 1 ≤ n
    → n ≤ length (b ∷ src)
    → decode (take n (b ∷ src) ++ more) ≡ done (decode_loop (n - 1) (bit_and b 0x3f) src, n)
unfolding decode
decode_cut zero b src more e l h = absurd (omega (arith, l))
decode_cut (suc n) b src more e l h = elim (decode_loop-take n (bit_and b 0x3f) src more) [
  | inl p ↦ rw (← e) (ground (arith, p, length-append (take n src) more, length-take n src))
  | inr k ↦ absurd (omega (arith, h, k))
]

decode_done :
    (b : ℕ) (src : List ℕ) (v c : ℕ)
    → decode (b ∷ src) ≡ done (v, c)
    → (c ≡ len_from_first b) × (c ≤ length (b ∷ src))
unfolding decode
decode_done b src v c h = ground (arith, h)

decode_value :
    (b : ℕ) (src : List ℕ) (v c : ℕ)
    → decode (b ∷ src) ≡ done (v, c)
    → decode_loop (c - 1) (bit_and b 0x3f) src ≡ v
unfolding decode
decode_value b src v c h = ground (arith, h)

-- From a buffer of bytes, a decoded number has at most 62 bits and came from 1 to 8 bytes of the
-- buffer; the bytes behind them are not looked at, for the same number comes from these bytes alone
-- and with any other bytes behind them.
pub decode_sound :
    (src more : List ℕ) (v c : ℕ)
    → All IsByte src
    → decode src ≡ done (v, c)
    → (v < 2 ^ 62)
      × (1 ≤ c)
      × (c ≤ 8)
      × (c ≤ length src)
      × (decode (take c src) ≡ done (v, c))
      × (decode (take c src ++ more) ≡ done (v, c))
unfolding decode
decode_sound [] more v c hs h = absurd (cc h)
decode_sound (b ∷ src) more v c hs h =
    let (e, l) = decode_done b src v c h in
    let k = len_from_first_bounds b hs.0 in
    let value : decode_loop (c - 1) (bit_and b 0x3f) src ≡ v = decode_value b src v c h in
    (
      ground (
        arith,
        value,
        e,
        k,
        bit_and-low6 b hs.0,
        decode_loop_bound (len_from_first b - 1) 64 (bit_and b 0x3f) src hs.1,
      ),
      omega (arith, e, k.0),
      omega (arith, e, k.1),
      l,
      ap (λ bs. decode bs) (sym (append-nil (take c (b ∷ src))))
          ∙ decode_cut c b src [] e (omega (arith, e, k.0)) l
          ∙ ap (λ n. done (n, c)) value,
      decode_cut c b src more e (omega (arith, e, k.0)) l ∙ ap (λ n. done (n, c)) value,
    )

-- Too few bytes for the announced length, and only that, ask for more.
pub decode-need_more :
    (b : ℕ) (src : List ℕ)
    → (length (b ∷ src) < len_from_first b → decode (b ∷ src) ≡ fail need_more)
      × (len_from_first b ≤ length (b ∷ src)
          → (v : ℕ) × (decode (b ∷ src) ≡ done (v, len_from_first b)))
unfolding decode
decode-need_more b src = (
  λ h. ground arith,
  λ h. (decode_loop (len_from_first b - 1) (bit_and b 0x3f) src, ground arith),
)
