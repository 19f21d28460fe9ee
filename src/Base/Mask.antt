-- ===== src/Base/Mask.antt =====
-- `n & ((1 << e) - 1)` is `n % 2^e`: the bit operation at variables, from its digits.
use Prim.Native.Nat.{
  ℕ, zero, suc, ◌+◌, ◌-◌, ◌*◌, ◌/◌, ◌%◌, ◌^◌, ◌≤◌, ◌<◌, min, bit_and, digits, bit_and-bitwise,
}
use mathlib.Core.Path.{◌≡◌, refl, ap}
use native.Mathlib.Nat.{pow-suc, one-le-pow}
use native.Mathlib.Omega.{arith}

abbrev by_digits : ℕ → ℕ → ℕ → ℕ
by_digits n a b = digits (λ b. zero) min n a b

-- Any count of digits that covers `a` gives the same value.
by_digits-enough : (n m a b : ℕ) → a ≤ n → a ≤ m → by_digits n a b ≡ by_digits m a b
by_digits-enough zero zero a b p q = refl
by_digits-enough zero (suc m) zero b p q = refl
by_digits-enough zero (suc m) (suc a) b p q = absurd (omega arith)
by_digits-enough (suc n) zero zero b p q = refl
by_digits-enough (suc n) zero (suc a) b p q = absurd (omega arith)
by_digits-enough (suc n) (suc m) zero b p q = refl
by_digits-enough (suc n) (suc m) (suc a) b p q =
    omega (arith, by_digits-enough n m (suc a / 2) (b / 2) (omega arith) (omega arith))

zero-bit_and : (b : ℕ) → bit_and 0 b ≡ 0
zero-bit_and b = bit_and-bitwise 0 b

lowest_digit : (a b : ℕ) → bit_and a b ≡ bit_and (a / 2) (b / 2) * 2 + min (a % 2) (b % 2)
lowest_digit zero b = omega (arith, zero-bit_and b, zero-bit_and (b / 2))
lowest_digit (suc a) b = omega (
  arith,
  bit_and-bitwise (suc a) b,
  bit_and-bitwise (suc a / 2) (b / 2),
  by_digits-enough a (suc a / 2) (suc a / 2) (b / 2) (omega arith) (omega arith),
)

bit_and-zero_below : (n a : ℕ) → a ≤ n → bit_and a 0 ≡ 0
bit_and-zero_below n zero h = zero-bit_and 0
bit_and-zero_below zero (suc a) h = absurd (omega arith)
bit_and-zero_below (suc n) (suc a) h =
    omega (arith, lowest_digit (suc a) 0, bit_and-zero_below n (suc a / 2) (omega arith))

-- The mask of `e` ones keeps a number below `2 ^ e`, whatever stands above it.
mask_split : (e q r : ℕ) → r < 2 ^ e → bit_and (q * 2 ^ e + r) (2 ^ e - 1) ≡ r
mask_split zero q r h = omega (arith, bit_and-zero_below (q * 1 + r) (q * 1 + r) (omega arith))
mask_split (suc e) q r h = ground (
  arith,
  lowest_digit (q * 2 ^ suc e + r) (2 ^ suc e - 1),
  pow-suc 2 e,
  ap (λ (t : ℕ). q * t) (pow-suc 2 e),
  mask_split e q (r / 2) (omega (arith, pow-suc 2 e)),
)

pub pow_pos : (e : ℕ) → 0 < 2 ^ e
pow_pos e = one-le-pow e 2 (omega arith)

pub bit_and_mask : (e n : ℕ) → bit_and n (2 ^ e - 1) ≡ n % 2 ^ e
bit_and_mask e n = ground (arith, pow_pos e, mask_split e (n / 2 ^ e) (n % 2 ^ e))
