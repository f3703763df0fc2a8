-- ===== src/Scalar/Byte/Laws.antt =====
-- How the checked, the wrapping and the saturating operations of src/byte.rs relate to one another
-- and to integer arithmetic.
use mux_runtime.Common.{
  ℕ, zero, suc, ◌+◌, ◌-◌, ◌*◌, ◌/◌, ◌%◌, ◌≤◌, ◌<◌, ◌≡◌, refl, arith, inl, inr, min, ◌==◌, ok, err,
  leb, if◌then◌else◌, ap, ◌∙◌, Bool-cases,
}
use mux_runtime.Common.Int.{ℤ, pos, negsuc, ◌+ℤ◌, ◌-ℤ◌, rem_euclid, clamp_ℤ, ◌≤ℤ◌}
use mux_runtime.Scalar.Byte.{
  add_overflow, sub_underflow, mul_overflow, div_by_zero, mod_by_zero, out_of_range, checked,
  checked_add, checked_sub, checked_mul, checked_div, checked_rem, wrapping_add, wrapping_sub,
  wrapping_mul, saturating_add, saturating_sub, saturating_mul, rotl8, rotr8, rotate_left,
  rotate_right, as_u8,
}

-- For two bytes the three additions give the sum where it is a byte; else the checked one refuses,
-- the wrapping one gives the sum modulo 256 and the saturating one gives 255.
pub add_family :
    (a b : ℕ)
    → a ≤ 255
    → b ≤ 255
    → (checked_add (pos a) (pos b)
        ≡ (if leb (a + b) 255 then ok (pos (a + b)) else err add_overflow))
      × (wrapping_add (pos a) (pos b) ≡ pos ((a + b) % 256))
      × (saturating_add (pos a) (pos b) ≡ pos (min (a + b) 255))
unfolding checked_add wrapping_add saturating_add
add_family a b ha hb = (ground arith, ground arith, ground arith)

-- For two bytes the three subtractions give the difference where it is not negative; else the checked
-- one refuses, the wrapping one adds 256 and the saturating one gives 0.
pub sub_family :
    (a b : ℕ)
    → a ≤ 255
    → b ≤ 255
    → (checked_sub (pos a) (pos b) ≡ (if leb b a then ok (pos (a - b)) else err sub_underflow))
      × (wrapping_sub (pos a) (pos b) ≡ pos (if leb b a then a - b else a + 256 - b))
      × (saturating_sub (pos a) (pos b) ≡ pos (a - b))
unfolding checked_sub wrapping_sub saturating_sub
sub_family a b ha hb = (ground arith, ground arith, ground arith)

product_bound : (a b : ℕ) → a ≤ 255 → b ≤ 255 → a * b ≤ 255 * 255
product_bound a b ha hb = grind arith

mul_checked :
    (a b : ℕ)
    → a ≤ 255
    → b ≤ 255
    → checked_mul (pos a) (pos b) ≡ (if leb (a * b) 255 then ok (pos (a * b)) else err mul_overflow)
unfolding checked_mul
mul_checked a b ha hb = ground (arith, product_bound a b ha hb)

mul_wrapping : (a b : ℕ) → a ≤ 255 → b ≤ 255 → wrapping_mul (pos a) (pos b) ≡ pos (a * b % 256)
unfolding wrapping_mul
mul_wrapping a b ha hb =
    let ea : a % 256 ≡ a = omega arith in
    let eb : b % 256 ≡ b = omega arith in rw (ea, eb) (ground arith)

clamp_byte : (a : ℕ) → a ≤ 255 → clamp_ℤ (pos a) (pos 0) (pos 255) ≡ pos a
clamp_byte a h = ground arith

mul_saturating :
    (a b : ℕ) → a ≤ 255 → b ≤ 255 → saturating_mul (pos a) (pos b) ≡ pos (min (a * b) 255)
unfolding saturating_mul
mul_saturating a b ha hb =
    rw (clamp_byte a ha, clamp_byte b hb) (ground (arith, product_bound a b ha hb))

-- For two bytes the three multiplications give the product where it is a byte; else the checked one
-- refuses, the wrapping one gives the product modulo 256 and the saturating one gives 255.
pub mul_family :
    (a b : ℕ)
    → a ≤ 255
    → b ≤ 255
    → (checked_mul (pos a) (pos b)
        ≡ (if leb (a * b) 255 then ok (pos (a * b)) else err mul_overflow))
      × (wrapping_mul (pos a) (pos b) ≡ pos (a * b % 256))
      × (saturating_mul (pos a) (pos b) ≡ pos (min (a * b) 255))
mul_family a b ha hb = (mul_checked a b ha hb, mul_wrapping a b ha hb, mul_saturating a b ha hb)

-- Division and remainder of bytes refuse a zero divisor, and else divide with remainder.
div_rem_family :
    (a b : ℕ)
    → a ≤ 255
    → b ≤ 255
    → (checked_div (pos a) (pos b) ≡ (if b == 0 then err div_by_zero else ok (pos (a / b))))
      × (checked_rem (pos a) (pos b) ≡ (if b == 0 then err mod_by_zero else ok (pos (a % b))))
      × (a / b * b + a % b ≡ a)
unfolding checked_div checked_rem
div_rem_family a b ha hb = (ground arith, ground arith, grind arith)

-- Wrapping addition and subtraction of any two integers give the true result modulo 256.
pub wrapping_exact :
    (l r : ℤ)
    → (wrapping_add l r ≡ pos (rem_euclid (l +ℤ r) 256))
      × (wrapping_sub l r ≡ pos (rem_euclid (l -ℤ r) 256))
unfolding wrapping_add wrapping_sub ◌+ℤ◌ ◌-ℤ◌
wrapping_exact l r = (ground arith, ground arith)

-- A byte is a value from 0 to 255.
abbrev pub IsByte : ℤ → Type 0
IsByte v = (pos 0 ≤ℤ v) × (v ≤ℤ pos 255)

checked_refuses : (v : ℤ) → ¬ IsByte v → checked v ≡ err (out_of_range v)
unfolding checked
checked_refuses (pos n) h = elim (Bool-cases (leb n 255)) [
  | inl t ↦ absurd (h (omega arith, ground arith))
  | inr f ↦ rw f
]
checked_refuses (negsuc n) h = refl

-- Each checked operation refuses a left operand that is no byte, and names it.
pub checked_domain :
    (l r : ℤ)
    → ¬ IsByte l
    → (checked_add l r ≡ err (out_of_range l))
      × (checked_sub l r ≡ err (out_of_range l))
      × (checked_mul l r ≡ err (out_of_range l))
      × (checked_div l r ≡ err (out_of_range l))
      × (checked_rem l r ≡ err (out_of_range l))
unfolding checked_add checked_sub checked_mul checked_div checked_rem
checked_domain l r h = let e = checked_refuses l h in (rw e, rw e, rw e, rw e, rw e)

rotate_table : (x k : ℕ) → x < 256 → k < 8 → (rotl8 x k < 256) × (rotr8 (rotl8 x k) k ≡ x)
unfolding rotl8 rotr8
rotate_table x zero h lt = omega arith
rotate_table x (suc zero) h lt = omega arith
rotate_table x (suc (suc zero)) h lt = omega arith
rotate_table x (suc (suc (suc zero))) h lt = omega arith
rotate_table x (suc (suc (suc (suc zero)))) h lt = omega arith
rotate_table x (suc (suc (suc (suc (suc zero))))) h lt = omega arith
rotate_table x (suc (suc (suc (suc (suc (suc zero)))))) h lt = omega arith
rotate_table x (suc (suc (suc (suc (suc (suc (suc zero))))))) h lt = omega arith
rotate_table x (suc (suc (suc (suc (suc (suc (suc (suc k)))))))) h lt = absurd (omega arith)

rem_euclid-lt : (v : ℤ) (m : ℕ) → 0 < m → rem_euclid v m < m
rem_euclid-lt (pos n) m h = omega arith
rem_euclid-lt (negsuc n) m h = omega arith

-- Rotating to the right by any amount undoes rotating to the left by it.
pub rotate_inverse : (v s : ℤ) → rotate_right (rotate_left v s) s ≡ pos (as_u8 v)
unfolding rotate_left rotate_right
rotate_inverse v s =
    let x = as_u8 v in
    let k = rem_euclid s 8 in
    let (small, back) =
      rotate_table x k (rem_euclid-lt v 256 (omega arith)) (rem_euclid-lt s 8 (omega arith)) in
    let whole : rotl8 x k % 256 ≡ rotl8 x k = omega arith in
    ap pos (ap (λ z. rotr8 z k) whole ∙ back)
