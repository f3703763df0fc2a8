-- ===== src/Common/Bits.antt =====
-- `|` of two numbers with no binary digit in common is their sum.
use Prim.Native.Nat.{
  ℕ, zero, suc, ◌+◌, ◌*◌, ◌/◌, ◌%◌, ◌^◌, ◌≤◌, ◌<◌, max, bit_or, digits, bit_or-bitwise,
}
use mathlib.Core.Path.{◌≡◌, refl, ap}
use native.Mathlib.Nat.{pow-suc}
use native.Mathlib.Omega.{arith}

abbrev or_digits : ℕ → ℕ → ℕ → ℕ
or_digits n a b = digits (λ b. b) max n a b

-- A count of digits that covers the first number is enough, whatever it is.
or_digits_enough : (b a m n : ℕ) → a ≤ m → a ≤ n → or_digits m a b ≡ or_digits n a b
or_digits_enough b zero zero zero h k = refl
or_digits_enough b zero zero (suc n) h k = refl
or_digits_enough b zero (suc m) zero h k = refl
or_digits_enough b zero (suc m) (suc n) h k = refl
or_digits_enough b (suc a) zero n h k = absurd (omega arith)
or_digits_enough b (suc a) (suc m) zero h k = absurd (omega arith)
or_digits_enough b (suc a) (suc m) (suc n) h k =
    omega (arith, or_digits_enough (b / 2) (suc a / 2) m n (omega arith) (omega arith))

-- the law of the lowest digit
bit_or_digit : (a b : ℕ) → bit_or a b ≡ bit_or (a / 2) (b / 2) * 2 + max (a % 2) (b % 2)
bit_or_digit zero b = omega (arith, bit_or-bitwise 0 b, bit_or-bitwise 0 (b / 2))
bit_or_digit (suc a) b = omega (
  arith,
  bit_or-bitwise (suc a) b,
  bit_or-bitwise (suc a / 2) (b / 2),
  or_digits_enough (b / 2) (suc a / 2) a (suc a / 2) (omega arith) (omega arith),
)

bit_or-zero_below : (n a : ℕ) → a ≤ n → bit_or a 0 ≡ a
bit_or-zero_below n zero h = omega (arith, bit_or-bitwise 0 0)
bit_or-zero_below zero (suc a) h = absurd (omega arith)
bit_or-zero_below (suc n) (suc a) h =
    omega (arith, bit_or_digit (suc a) 0, bit_or-zero_below n (suc a / 2) (omega arith))

shifted : (q k : ℕ) → q * 2 ^ suc k ≡ 2 * (q * 2 ^ k)
shifted q k = omega (arith, ap (λ (t : ℕ). q * t) (pow-suc 2 k))

pub bit_or_high : (k q r : ℕ) → r < 2 ^ k → bit_or (q * 2 ^ k) r ≡ q * 2 ^ k + r
bit_or_high zero q r h = ground (arith, bit_or-zero_below q q (omega arith))
bit_or_high (suc k) q r h = ground (
  arith,
  bit_or_digit (q * 2 ^ suc k) r,
  shifted q k,
  bit_or_high k q (r / 2) (omega (arith, pow-suc 2 k)),
)

pub bit_or_low : (k q r : ℕ) → r < 2 ^ k → bit_or r (q * 2 ^ k) ≡ r + q * 2 ^ k
bit_or_low zero q r h = ground (arith, bit_or-bitwise 0 q)
bit_or_low (suc k) q r h = ground (
  arith,
  bit_or_digit r (q * 2 ^ suc k),
  shifted q k,
  bit_or_low k q (r / 2) (omega (arith, pow-suc 2 k)),
)
