-- ===== src/Proto/Qpack/Ints.antt =====
-- Prefixed integers (src/proto/qpack_static.c): the decoder reads what the encoder wrote.
use wtquic.Base.{
  ℕ, zero, suc, ◌+◌, ◌-◌, ◌*◌, ◌/◌, ◌%◌, ◌^◌, ◌≤◌, ◌<◌, ◌≡◌, refl, ap, ◌∙◌, arith, bit_and, ◌⊎◌,
  inl, inr, List, [], ◌∷◌, ◌++◌, length, dec_le, pow-suc,
}
use native.Mathlib.Nat.{le-div_iff_mul-le, mul-add-mod_self_right, mod-eq_of_lt, pow-le-pow_right}
use wtquic.Base.Bits.{bit_or-shift}
use wtquic.Base.Bits.Masks.{bit_and-low7, bit_and-high, bit_and-prefix}
use wtquic.Proto.Varint.{Result, done}
use wtquic.Proto.Qpack.{max_int, tail_bytes, int_encode, int_loop, int_decode}

pub one_le_pow : (n : ℕ) → 1 ≤ 2 ^ n
one_le_pow zero = omega arith
one_le_pow (suc n) = omega (arith, pow-suc 2 n, one_le_pow n)

chunk_fits : (c shift : ℕ) → c * 2 ^ shift ≤ max_int → c ≤ max_int / 2 ^ shift
chunk_fits c shift h = (le-div_iff_mul-le (one_le_pow shift)).1 h

int_loop-last :
    (b v shift i : ℕ) (src : List ℕ)
    → b < 128
    → shift ≤ 62
    → v + b * 2 ^ shift ≤ max_int
    → int_loop (b ∷ src) v shift i ≡ done (v + b * 2 ^ shift, i + 1)
unfolding int_loop
int_loop-last b v shift i src h s m =
    let low : bit_and b 0x7f ≡ b = omega (arith, bit_and-low7 b) in
    let high : bit_and b 0x80 ≡ 0 = omega (arith, bit_and-high b (omega arith)) in
    let f = chunk_fits b shift (omega arith) in
    let whole : (v + b * 2 ^ shift % 2 ^ 64) % 2 ^ 64 ≡ v + b * 2 ^ shift = omega arith in
    rw (low, high, whole) (ground arith)

int_loop-more :
    (b v shift i : ℕ) (src : List ℕ)
    → 128 ≤ b
    → b < 256
    → shift ≤ 62
    → v + (b - 128) * 2 ^ shift ≤ max_int
    → int_loop (b ∷ src) v shift i ≡ int_loop src (v + (b - 128) * 2 ^ shift) (shift + 7) (i + 1)
unfolding int_loop
int_loop-more b v shift i src l h s m =
    let low : bit_and b 0x7f ≡ b - 128 = omega (arith, bit_and-low7 b) in
    let high : bit_and b 0x80 ≡ 128 = omega (arith, bit_and-high b h) in
    let f = chunk_fits (b - 128) shift (omega arith) in
    let whole : (v + (b - 128) * 2 ^ shift % 2 ^ 64) % 2 ^ 64 ≡ v + (b - 128) * 2 ^ shift =
      omega arith in
    rw (low, high, whole) (ground arith)

-- A number that is left to write keeps the next shift below 63 bits.
shift_bound : (shift : ℕ) → 128 * 2 ^ shift ≤ max_int → shift + 7 ≤ 62
shift_bound shift h = elim (dec_le 56 shift) [
  | yes l ↦ absurd (omega (arith, pow-le-pow_right {n = 2} (omega arith) l))
  | no l ↦ omega arith
]

pow_add : (n k : ℕ) → 2 ^ (n + k) ≡ 2 ^ k * 2 ^ n
pow_add n zero =
    let e : n + 0 ≡ n = omega arith in
    let one : 2 ^ 0 ≡ 1 = refl in
    omega (arith, ap (λ (t : ℕ). 2 ^ t) e, ap (λ (t : ℕ). t * 2 ^ n) one)
pow_add n (suc k) =
    let e : n + suc k ≡ suc (n + k) = omega arith in
    omega (
      arith,
      ap (λ (t : ℕ). 2 ^ t) e,
      pow-suc 2 (n + k),
      pow_add n k,
      ap (λ (t : ℕ). t * 2 ^ n) (pow-suc 2 k),
    )

double7 : (shift : ℕ) → 2 ^ (shift + 7) ≡ 128 * 2 ^ shift
double7 shift = pow_add shift 7

tail_bytes-short : (fuel w : ℕ) → w < 128 → tail_bytes fuel w ≡ w ∷ []
unfolding tail_bytes
tail_bytes-short zero w h = ap (λ (x : ℕ). x ∷ []) (omega arith)
tail_bytes-short (suc fuel) w h = ground arith

tail_bytes-long :
    (fuel w : ℕ) → 128 ≤ w → tail_bytes (suc fuel) w ≡ (128 + w % 128) ∷ tail_bytes fuel (w / 128)
unfolding tail_bytes
tail_bytes-long fuel w h = ground (arith, bit_or-shift 7 1 (w % 128) (omega arith), bit_and-low7 w)

-- A number is its low seven bits and the rest, at any place.
split7 : (w m : ℕ) → w * m ≡ w % 128 * m + w / 128 * (128 * m)
split7 w m = omega (arith, ap (λ (x : ℕ). x * m) (low_and_high w))
  where
    low_and_high : (w : ℕ) → w ≡ w % 128 + 128 * (w / 128)
    low_and_high w = omega arith

pow7 : (fuel w : ℕ) → w < 2 ^ (7 * suc (suc fuel)) → w / 128 < 2 ^ (7 * suc fuel)
pow7 fuel w h = omega (arith, h, ap (λ (t : ℕ). 2 ^ t) (more fuel), double7 (7 * suc fuel))
  where
    more : (fuel : ℕ) → 7 * suc (suc fuel) ≡ 7 * suc fuel + 7
    more fuel = omega arith

chunk : (c : ℕ) → 128 + c - 128 ≡ c
chunk c = omega arith

one_quotient : (w : ℕ) → 128 ≤ w → (m : ℕ) → m ≤ w / 128 * m
one_quotient w h m = omega (arith, mul_le (w / 128) m (omega arith))
  where
    mul_le : (q m : ℕ) → 1 ≤ q → m ≤ q * m
    mul_le zero m h = absurd (omega arith)
    mul_le (suc q) m h = omega arith

answer : ℕ → ℕ → Result (ℕ × ℕ)
answer a c = done (a, c)

same : {a b c d : ℕ} → a ≡ b → c ≡ d → answer a c ≡ answer b d
same {a} {b} {c} {d} e f = ap (λ (t : ℕ). answer t c) e ∙ ap (answer b) f

int_loop-tail_bytes :
    (fuel w v shift i : ℕ) (rest : List ℕ)
    → w < 2 ^ (7 * suc fuel)
    → shift ≤ 62
    → v + w * 2 ^ shift ≤ max_int
    → int_loop (tail_bytes fuel w ++ rest) v shift i
      ≡ done (v + w * 2 ^ shift, i + length (tail_bytes fuel w))
unfolding answer
int_loop-tail_bytes zero w v shift i rest h s m =
    rw (tail_bytes-short zero w (omega arith)) (int_loop-last w v shift i rest (omega arith) s m)
int_loop-tail_bytes (suc fuel) w v shift i rest h s m = elim (dec_le 128 w) [
  | no l ↦
      rw (tail_bytes-short (suc fuel) w (omega arith))
        (int_loop-last w v shift i rest (omega arith) s m)
  | yes l ↦
      let c = w % 128 in
      let q = w / 128 in
      let all = split7 w (2 ^ shift) in
      let d = double7 shift in
      let next : q * 2 ^ (shift + 7) ≡ q * (128 * 2 ^ shift) = ap (λ (t : ℕ). q * t) d in
      let head : (128 + c - 128) * 2 ^ shift ≡ c * 2 ^ shift =
        ap (λ (t : ℕ). t * 2 ^ shift) (chunk c) in
      rw (tail_bytes-long fuel w l) (
        int_loop-more (128 + c) v shift i (tail_bytes fuel q ++ rest) (omega arith) (omega arith) s
          (omega (arith, all, head, m))
        ∙ int_loop-tail_bytes fuel q (v + (128 + c - 128) * 2 ^ shift) (shift + 7) (i + 1) rest
            (pow7 fuel w h)
            (shift_bound shift (omega (arith, all, m, one_quotient w l (128 * 2 ^ shift))))
            (omega (arith, all, head, next, m))
        ∙ same (omega (arith, all, head, next)) (omega arith))
]

prefix_mod : (p flags x : ℕ) → x < 2 ^ p → (flags * 2 ^ p + x) % 2 ^ p ≡ x
prefix_mod p flags x h = mul-add-mod_self_right flags (2 ^ p) x ∙ mod-eq_of_lt h

-- What the writer leaves: one byte, or a full prefix and more bytes.
pub int_encode-done :
    (value flags p cap : ℕ) (bs : List ℕ)
    → flags * 2 ^ p + 2 ^ p ≤ 256
    → int_encode value (flags * 2 ^ p) p cap ≡ done bs
    → (3 ≤ p)
      × (p ≤ 8)
      × (value ≤ max_int)
      × (((value < 2 ^ p - 1) × (bs ≡ (flags * 2 ^ p + value) ∷ []))
          ⊎ ((2 ^ p - 1 ≤ value)
              × (bs ≡ (flags * 2 ^ p + (2 ^ p - 1)) ∷ tail_bytes 9 (value - (2 ^ p - 1)))))
unfolding int_encode
int_encode-done value flags p room bs f e =
    ground (arith, one_le_pow p, bit_or-shift p flags value, bit_or-shift p flags (2 ^ p - 1))

-- The writer of a prefixed integer and its reader agree: with flags above the prefix, in one byte
-- with it, what is written for a value decodes, with any bytes behind it, to that value and to
-- the number of bytes written.
pub int_decode-int_encode :
    (value flags p cap : ℕ) (bs rest : List ℕ)
    → flags * 2 ^ p + 2 ^ p ≤ 256
    → int_encode value (flags * 2 ^ p) p cap ≡ done bs
    → int_decode (bs ++ rest) p ≡ done (value, length bs)
unfolding int_decode answer
int_decode-int_encode value flags p room bs rest f e =
    let (l, u, m, forms) = int_encode-done value flags p room bs f e in
    elim forms [
      | inl (h, q) ↦
          let low =
            bit_and-prefix p (flags * 2 ^ p + value) l u (omega arith)
            ∙ prefix_mod p flags value (omega arith) in
          rw (q, low) (ground arith)
      | inr (h, q) ↦
          let full = 2 ^ p - 1 in
          let low =
            bit_and-prefix p (flags * 2 ^ p + full) l u (omega (arith, one_le_pow p))
            ∙ prefix_mod p flags full (omega (arith, one_le_pow p)) in
          let tail : int_loop (tail_bytes 9 (value - full) ++ rest) full 0 1
              ≡ answer value (suc (length (tail_bytes 9 (value - full)))) =
            int_loop-tail_bytes 9 (value - full) full 0 1 rest (omega arith) (omega arith)
              (omega arith)
            ∙ same (omega arith) (omega arith) in
          rw (q, low) (ground (arith, tail))
    ]
