-- ===== src/Base/Bits/Masks.antt =====
-- `&` with a mask of low bits.
use Prim.Native.Nat.{ℕ, zero, suc, ◌+◌, ◌-◌, ◌*◌, ◌/◌, ◌%◌, ◌^◌, ◌≤◌, ◌<◌, min}
use Prim.Native.Nat.{bit_and, digits, bit_and-bitwise}
use mathlib.Core.Path.{◌≡◌, refl}
use native.Mathlib.Omega.{arith}
use wtquic.Base.Bits.{agree_below→eq, agree_below}

-- The recursion of `&` over the digits of its first argument, with `n` digits to go.
abbrev walk : ℕ → ℕ → ℕ → ℕ
walk = digits (λ _. zero) min

walk-zero : (n a : ℕ) → walk n a 0 ≡ 0
walk-zero zero a = refl
walk-zero (suc n) zero = refl
walk-zero (suc n) (suc a) = omega (arith, walk-zero n (suc a / 2))

-- A mask that ends in a one keeps the last digit.
walk-odd : (m n a : ℕ) → a ≤ n → walk n a (2 * m + 1) ≡ 2 * walk (n - 1) (a / 2) m + a % 2
walk-odd m zero zero h = refl
walk-odd m zero (suc a) h = absurd (omega arith)
walk-odd m (suc n) zero h = omega (arith, walk-none (suc n - 1) m)
  where
    walk-none : (n m : ℕ) → walk n (0 / 2) m ≡ 0
    walk-none zero m = refl
    walk-none (suc n) m = refl
walk-odd m (suc n) (suc a) h =
    let fewer : suc n - 1 ≡ n = omega arith in
    let half : (2 * m + 1) / 2 ≡ m = omega arith in rw (fewer, half) (omega arith)

-- The mask with seven ones, a digit at a time.
walk-seven : (n a : ℕ) → a ≤ n → walk n a 127 ≡ a % 128
walk-seven n a h = omega (
  arith,
  walk-odd 63 n a h,
  walk-odd 31 (n - 1) (a / 2) (omega arith),
  walk-odd 15 (n - 1 - 1) (a / 2 / 2) (omega arith),
  walk-odd 7 (n - 1 - 1 - 1) (a / 2 / 2 / 2) (omega arith),
  walk-odd 3 (n - 1 - 1 - 1 - 1) (a / 2 / 2 / 2 / 2) (omega arith),
  walk-odd 1 (n - 1 - 1 - 1 - 1 - 1) (a / 2 / 2 / 2 / 2 / 2) (omega arith),
  walk-odd 0 (n - 1 - 1 - 1 - 1 - 1 - 1) (a / 2 / 2 / 2 / 2 / 2 / 2) (omega arith),
  walk-zero (n - 1 - 1 - 1 - 1 - 1 - 1 - 1) (a / 2 / 2 / 2 / 2 / 2 / 2 / 2),
)

-- `a & 0x7f`, for a number of any width
pub bit_and-low7 : (a : ℕ) → bit_and a 0x7f ≡ a % 128
bit_and-low7 a = omega (arith, bit_and-bitwise a 127, walk-seven a a (omega arith))

-- The prefix of a first byte, with 3 to 8 bits.
pub bit_and-prefix : (p b : ℕ) → 3 ≤ p → p ≤ 8 → b < 256 → bit_and b (2 ^ p - 1) ≡ b % 2 ^ p
unfolding agree_below
bit_and-prefix (suc (suc (suc zero))) b l u h =
    agree_below→eq (λ b. bit_and b 7) (λ b. b % 8) 256 refl b h
bit_and-prefix (suc (suc (suc (suc zero)))) b l u h =
    agree_below→eq (λ b. bit_and b 15) (λ b. b % 16) 256 refl b h
bit_and-prefix (suc (suc (suc (suc (suc zero))))) b l u h =
    agree_below→eq (λ b. bit_and b 31) (λ b. b % 32) 256 refl b h
bit_and-prefix (suc (suc (suc (suc (suc (suc zero)))))) b l u h =
    agree_below→eq (λ b. bit_and b 63) (λ b. b % 64) 256 refl b h
bit_and-prefix (suc (suc (suc (suc (suc (suc (suc zero))))))) b l u h =
    agree_below→eq (λ b. bit_and b 127) (λ b. b % 128) 256 refl b h
bit_and-prefix (suc (suc (suc (suc (suc (suc (suc (suc zero)))))))) b l u h =
    agree_below→eq (λ b. bit_and b 255) (λ b. b % 256) 256 refl b h
bit_and-prefix zero b l u h = absurd (omega arith)
bit_and-prefix (suc zero) b l u h = absurd (omega arith)
bit_and-prefix (suc (suc zero)) b l u h = absurd (omega arith)
bit_and-prefix (suc (suc (suc (suc (suc (suc (suc (suc (suc p))))))))) b l u h =
    absurd (omega arith)

-- The continuation bit of a byte.
pub bit_and-high : (b : ℕ) → b < 256 → bit_and b 0x80 ≡ b / 128 * 128
unfolding agree_below
bit_and-high = agree_below→eq (λ b. bit_and b 128) (λ b. b / 128 * 128) 256 refl
