-- ===== src/Base/Bits.antt =====
-- `|` and `&` of the C sources as arithmetic: at every width for a shifted accumulator, and by
-- tables for masks of one byte.
pub mod Masks
use Prim.Native.Nat.{ℕ, zero, suc, ◌+◌, ◌*◌, ◌/◌, ◌%◌, ◌^◌, ◌≤◌, ◌<◌, max}
use Prim.Native.Nat.{bit_and, bit_or, min, digits, bit_or-bitwise, bit_and-bitwise}
use mathlib.Core.Path.{◌≡◌, refl, ap, ◌∙◌}
use mathlib.Core.Bool.{Bool, true, ◌&&◌}
use native.Mathlib.Omega.{arith}
use native.Mathlib.Nat.{pow-suc}
use wtquic.Base.Tests.{◌==◌}

-- The native `|` is a recursion over binary digits with fuel; any two sufficient fuels agree.
abbrev or_digits : ℕ → ℕ → ℕ → ℕ
or_digits = digits (λ y. y) max

or_digits_fuel : (n m a b : ℕ) → a ≤ n → a ≤ m → or_digits n a b ≡ or_digits m a b
or_digits_fuel zero zero a b p q = refl
or_digits_fuel zero (suc m) zero b p q = refl
or_digits_fuel zero (suc m) (suc a) b p q = absurd (omega arith)
or_digits_fuel (suc n) zero zero b p q = refl
or_digits_fuel (suc n) zero (suc a) b p q = absurd (omega arith)
or_digits_fuel (suc n) (suc m) zero b p q = refl
or_digits_fuel (suc n) (suc m) (suc a) b p q =
    omega (arith, or_digits_fuel n m (suc a / 2) (b / 2) (omega arith) (omega arith))

pub zero-bit_or : (b : ℕ) → bit_or 0 b ≡ b
zero-bit_or b = bit_or-bitwise 0 b

-- The lowest binary digit of `|`.
bit_or-halves : (a b : ℕ) → bit_or a b ≡ 2 * bit_or (a / 2) (b / 2) + max (a % 2) (b % 2)
bit_or-halves zero b = omega (arith, zero-bit_or b, zero-bit_or (b / 2))
bit_or-halves (suc a) b = omega (
  arith,
  bit_or-bitwise (suc a) b,
  bit_or-bitwise (suc a / 2) (b / 2),
  or_digits_fuel a (suc a / 2) (suc a / 2) (b / 2) (omega arith) (omega arith),
)

bit_or-zero_fuel : (n a : ℕ) → a ≤ n → bit_or a 0 ≡ a
bit_or-zero_fuel n zero h = refl
bit_or-zero_fuel zero (suc a) h = absurd (omega arith)
bit_or-zero_fuel (suc n) (suc a) h =
    omega (arith, bit_or-halves (suc a) 0, bit_or-zero_fuel n (suc a / 2) (omega arith))

double-shift : (v k : ℕ) → v * 2 ^ suc k ≡ 2 * (v * 2 ^ k)
double-shift v k = omega (arith, ap (λ (t : ℕ). v * t) (pow-suc 2 k))

-- `(v << k) | b` adds `b` when `b` fits in `k` bits.
pub bit_or-shift : (k v b : ℕ) → b < 2 ^ k → bit_or (v * 2 ^ k) b ≡ v * 2 ^ k + b
bit_or-shift zero v b h = ground (arith, bit_or-zero_fuel v v)
bit_or-shift (suc k) v b h = ground (
  arith,
  bit_or-halves (v * 2 ^ suc k) b,
  double-shift v k,
  pow-suc 2 k,
  bit_or-shift k v (b / 2),
)

pub bit_or-byte : (v b : ℕ) → b < 256 → bit_or (v * 256) b ≡ v * 256 + b
bit_or-byte v b h = bit_or-shift 8 v b h

-- Every value below a bound, by evaluation.
unfoldable pub agree_below : (ℕ → ℕ) → (ℕ → ℕ) → ℕ → Bool
agree_below f g zero = true
agree_below f g (suc n) = (f n == g n) && agree_below f g n

pub agree_below→eq : (f g : ℕ → ℕ) (n : ℕ) → agree_below f g n ≡ true → (i : ℕ) → i < n → f i ≡ g i
unfolding agree_below
agree_below→eq f g zero e i h = absurd (omega arith)
agree_below→eq f g (suc n) e i h = ground (arith, agree_below→eq f g n (ground arith) i)

-- `b & 0x3f`
pub bit_and-low6 : (b : ℕ) → b < 256 → bit_and b 0x3f ≡ b % 64
unfolding agree_below
bit_and-low6 = agree_below→eq (λ b. bit_and b 0x3f) (λ b. b % 64) 256 refl

-- `x | (tag << 6)` for a value `x` of six bits
pub bit_or-tag : (tag x : ℕ) → tag < 4 → x < 64 → bit_or x (tag * 64) ≡ tag * 64 + x
unfolding agree_below
bit_or-tag zero x t h = agree_below→eq (λ x. bit_or x 0) (λ x. x) 64 refl x h ∙ omega arith
bit_or-tag (suc zero) x t h = agree_below→eq (λ x. bit_or x 64) (λ x. 64 + x) 64 refl x h
bit_or-tag (suc (suc zero)) x t h = agree_below→eq (λ x. bit_or x 128) (λ x. 128 + x) 64 refl x h
bit_or-tag (suc (suc (suc zero))) x t h =
    agree_below→eq (λ x. bit_or x 192) (λ x. 192 + x) 64 refl x h
bit_or-tag (suc (suc (suc (suc tag)))) x t h = absurd (omega arith)

-- `x & mask` is at most the mask.
and_digits_le : (n a b : ℕ) → digits (λ b. zero) min n a b ≤ b
and_digits_le zero zero b = omega arith
and_digits_le zero (suc a) b = omega arith
and_digits_le (suc n) zero b = omega arith
and_digits_le (suc n) (suc a) b = ground (arith, and_digits_le n (suc a / 2) (b / 2))

pub bit_and_le : (a b : ℕ) → bit_and a b ≤ b
bit_and_le a b = omega (arith, bit_and-bitwise a b, and_digits_le a a b)
