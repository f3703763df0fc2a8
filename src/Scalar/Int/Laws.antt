-- ===== src/Scalar/Int/Laws.antt =====
-- When the operations of src/int.rs are exact, and when they panic.
use mux_runtime.Common.{
  ℕ, zero, suc, ◌+◌, ◌*◌, ◌/◌, ◌%◌, ◌≤◌, ◌<◌, ◌≡◌, ◌≢◌, ◌↔◌, refl, arith, Bool, true, false, ok,
  err, ◌&&◌, ◌⊎◌, inl, inr,
}
use mux_runtime.Common.Int.{
  ℤ, pos, negsuc, ◌+ℤ◌, ◌-ℤ◌, ◌*ℤ◌, IsI64, i64_min, abs_ℕ, wrap_i64_of_fit, eqb_ℤ, fits_i64,
}
use mux_runtime.Scalar.Int.{
  quot, rem, int_add, int_sub, int_mul, int_div, int_rem, rem_result, div_i64, rem_i64, returns,
  panics, division_by_zero, modulo_by_zero,
}

div_mod : (a b : ℕ) → b * (a / b) + a % b ≡ a
div_mod a b = grind arith

-- Quotient and remainder give the dividend again.
quot-rem : (a b : ℤ) → b ≢ pos 0 → quot a b *ℤ b +ℤ rem a b ≡ a
unfolding quot rem ◌*ℤ◌ ◌+ℤ◌
quot-rem (pos a) (pos b) h = ground (arith, div_mod a b)
quot-rem (pos a) (negsuc b) h = ground (arith, div_mod a (suc b))
quot-rem (negsuc a) (pos b) h = ground (arith, div_mod (suc a) b)
quot-rem (negsuc a) (negsuc b) h = ground (arith, div_mod (suc a) (suc b))

rem-lt : (a b : ℤ) → b ≢ pos 0 → abs_ℕ (rem a b) < abs_ℕ b
unfolding rem
rem-lt (pos a) (pos b) h = ground arith
rem-lt (pos a) (negsuc b) h = ground arith
rem-lt (negsuc a) (pos b) h = ground arith
rem-lt (negsuc a) (negsuc b) h = ground arith

-- the one quotient of `i64` values that does not fit
abbrev pub overflows : ℤ → ℤ → Bool
overflows a b = eqb_ℤ a i64_min && eqb_ℤ b (negsuc 0)

quot_small : (a b : ℕ) → a / suc (suc b) * 2 ≤ a
quot_small a b = grind arith

div-le : (a b : ℕ) → a / suc b ≤ a
div-le a b = grind arith

-- The quotient of two `i64` values is one, but for the least one divided by -1.
quot-IsI64 : (a b : ℤ) → IsI64 a → b ≢ pos 0 → overflows a b ≡ false → IsI64 (quot a b)
unfolding quot
quot-IsI64 (pos a) (pos zero) ia h o = absurd (h refl)
quot-IsI64 (pos a) (pos (suc b)) ia h o = omega (arith, div-le a b)
quot-IsI64 (pos a) (negsuc b) ia h o = ground (arith, div-le a b)
quot-IsI64 (negsuc a) (pos zero) ia h o = absurd (h refl)
quot-IsI64 (negsuc a) (pos (suc b)) ia h o = ground (arith, div-le (suc a) b)
quot-IsI64 (negsuc a) (negsuc zero) ia h o = ground arith
quot-IsI64 (negsuc a) (negsuc (suc b)) ia h o = omega (arith, quot_small (suc a) b)

fits_of-IsI64 : (a : ℤ) → IsI64 a → fits_i64 a ≡ true
fits_of-IsI64 a h = ground arith

-- For `i64` operands with a divisor other than zero, and not the least one by -1, division and
-- remainder return; the quotient is an `i64`, the two give the dividend again, and the remainder is
-- smaller than the divisor.
pub int_div_exact :
    (a b : ℤ)
    → IsI64 a
    → b ≢ pos 0
    → overflows a b ≡ false
    → (int_div a b ≡ returns (ok (quot a b)))
      × (int_rem a b ≡ returns (rem a b))
      × IsI64 (quot a b)
      × (quot a b *ℤ b +ℤ rem a b ≡ a)
      × (abs_ℕ (rem a b) < abs_ℕ b)
unfolding int_div int_rem div_i64 rem_i64
int_div_exact a b ia h o =
    let nz : eqb_ℤ b (pos 0) ≡ false = ground arith in
    let fits = quot-IsI64 a b ia h o in
    let d : fits_i64 (quot a b) ≡ true = fits_of-IsI64 (quot a b) fits in
    (rw (nz, d), rw (nz, d), fits, quot-rem a b h, rem-lt a b h)

-- a zero divisor, the quotient that does not fit, and the others
divisor_cases :
    (a b : ℤ)
    → (b ≡ pos 0) ⊎ ((a ≡ i64_min) × (b ≡ negsuc 0)) ⊎ ((b ≢ pos 0) × (overflows a b ≡ false))
divisor_cases a b = ground arith

-- For `i64` operands, division and remainder give their error exactly at a zero divisor, and panic
-- exactly where the divisor is not zero and the quotient is no `i64`; for division that is exactly the
-- least value divided by -1.
pub int_div-panics_iff :
    (a b : ℤ)
    → IsI64 a
    → ((int_div a b ≡ returns (err division_by_zero)) ↔ (b ≡ pos 0))
      × ((rem_result a b ≡ returns (err modulo_by_zero)) ↔ (b ≡ pos 0))
      × ((int_div a b ≡ panics) ↔ ((b ≢ pos 0) × ¬ IsI64 (quot a b)))
      × ((rem_result a b ≡ panics) ↔ ((b ≢ pos 0) × ¬ IsI64 (quot a b)))
      × ((int_div a b ≡ panics) ↔ ((a ≡ i64_min) × (b ≡ negsuc 0)))
unfolding int_div rem_result div_i64 rem_i64
int_div-panics_iff a b ia = elim (divisor_cases a b) [
  | inl z ↦ rw (z) (
    (ground arith, ground arith),
    (ground arith, ground arith),
    (ground arith, ground arith),
    (ground arith, ground arith),
    (ground arith, ground arith),
  )
  | inr (inl (m, n)) ↦
      rw (m, n)
        (
          (ground arith, ground arith),
          (ground arith, ground arith),
          (ground arith, ground arith),
          (ground arith, ground arith),
          (ground arith, ground arith),
        )
  | inr (inr (nz, o)) ↦
      let d = quot-IsI64 a b ia nz o in
      let f : fits_i64 (quot a b) ≡ true = fits_of-IsI64 (quot a b) d in
      let n : eqb_ℤ b (pos 0) ≡ false = ground arith in
      rw (n, f)
        (
          (ground arith, ground arith),
          (ground arith, ground arith),
          (ground arith, ground arith),
          (ground arith, ground arith),
          (ground arith, ground arith),
        )
]

-- Where the true result is an `i64`, addition, subtraction and multiplication give it.
pub int_ops_exact :
    (a b : ℤ)
    → IsI64 (a +ℤ b)
    → IsI64 (a -ℤ b)
    → IsI64 (a *ℤ b)
    → (int_add a b ≡ a +ℤ b) × (int_sub a b ≡ a -ℤ b) × (int_mul a b ≡ a *ℤ b)
unfolding int_add int_sub int_mul
int_ops_exact a b p m t =
    (wrap_i64_of_fit (a +ℤ b) p, wrap_i64_of_fit (a -ℤ b) m, wrap_i64_of_fit (a *ℤ b) t)
