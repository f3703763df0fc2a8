-- ===== src/Common/Xor.antt =====
-- `^` of two numbers, undone by itself.
use Prim.Native.Nat.{
  ℕ, zero, suc, ◌+◌, ◌*◌, ◌/◌, ◌%◌, ◌≤◌, ◌<◌, bit_xor, differ, digits, bit_xor-bitwise,
}
use mathlib.Core.Path.{◌≡◌, refl, ap, ◌∙◌}
use native.Mathlib.Omega.{arith}

abbrev xor_digits : ℕ → ℕ → ℕ → ℕ
xor_digits n a b = digits (λ b. b) differ n a b

xor_digits_enough : (b a m n : ℕ) → a ≤ m → a ≤ n → xor_digits m a b ≡ xor_digits n a b
xor_digits_enough b zero zero zero h k = refl
xor_digits_enough b zero zero (suc n) h k = refl
xor_digits_enough b zero (suc m) zero h k = refl
xor_digits_enough b zero (suc m) (suc n) h k = refl
xor_digits_enough b (suc a) zero n h k = absurd (omega arith)
xor_digits_enough b (suc a) (suc m) zero h k = absurd (omega arith)
xor_digits_enough b (suc a) (suc m) (suc n) h k =
    omega (arith, xor_digits_enough (b / 2) (suc a / 2) m n (omega arith) (omega arith))

bit_xor_digit : (a b : ℕ) → bit_xor a b ≡ bit_xor (a / 2) (b / 2) * 2 + differ (a % 2) (b % 2)
bit_xor_digit zero b = omega (arith, bit_xor-bitwise 0 b, bit_xor-bitwise 0 (b / 2))
bit_xor_digit (suc a) b = omega (
  arith,
  bit_xor-bitwise (suc a) b,
  bit_xor-bitwise (suc a / 2) (b / 2),
  xor_digits_enough (b / 2) (suc a / 2) a (suc a / 2) (omega arith) (omega arith),
)

differ_two : (a b : ℕ) → a < 2 → b < 2 → (differ a b < 2) × (differ (differ a b) b ≡ a)
differ_two zero zero h k = (omega arith, refl)
differ_two zero (suc zero) h k = (omega arith, refl)
differ_two (suc zero) zero h k = (omega arith, refl)
differ_two (suc zero) (suc zero) h k = (omega arith, refl)
differ_two a (suc (suc b)) h k = absurd (omega arith)
differ_two (suc (suc a)) b h k = absurd (omega arith)

halves : (q d : ℕ) → d < 2 → ((q * 2 + d) / 2 ≡ q) × ((q * 2 + d) % 2 ≡ d)
halves q d h = (omega arith, omega arith)

xor_twice_below : (n a b : ℕ) → a ≤ n → b ≤ n → bit_xor (bit_xor a b) b ≡ a
xor_twice_below zero zero zero h k = refl
xor_twice_below zero (suc a) b h k = absurd (omega arith)
xor_twice_below zero zero (suc b) h k = absurd (omega arith)
xor_twice_below (suc n) a b h k =
    let (small, back) = differ_two (a % 2) (b % 2) (omega arith) (omega arith) in
    let c = bit_xor (a / 2) (b / 2) in
    let (q, d) = halves c (differ (a % 2) (b % 2)) small in
    ap (λ z. bit_xor z b) (bit_xor_digit a b)
    ∙ bit_xor_digit (c * 2 + differ (a % 2) (b % 2)) b
    ∙ ap (λ z. bit_xor z (b / 2) * 2 + differ ((c * 2 + differ (a % 2) (b % 2)) % 2) (b % 2)) q
    ∙ ap (λ z. z * 2 + differ ((c * 2 + differ (a % 2) (b % 2)) % 2) (b % 2))
        (xor_twice_below n (a / 2) (b / 2) (omega arith) (omega arith))
    ∙ ap (λ z. a / 2 * 2 + differ z (b % 2)) d
    ∙ ap (λ z. a / 2 * 2 + z) back
    ∙ omega arith

pub xor_twice : (a b : ℕ) → bit_xor (bit_xor a b) b ≡ a
xor_twice a b = xor_twice_below (a + b) a b (omega arith) (omega arith)
