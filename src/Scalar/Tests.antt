-- ===== src/Scalar/Tests.antt =====
-- Tests of the integer scalars at concrete values.
use mux_runtime.Common.{
  ℕ, ◌+◌, ◌*◌, ◌%◌, ◌^◌, ◌≤◌, ◌<◌, ◌≡◌, ◌≢◌, ◌↔◌, refl, arith, ok, err, leb, if◌then◌else◌,
}
use mux_runtime.Common.Int.{
  pos, negsuc, ◌+ℤ◌, ◌-ℤ◌, ◌*ℤ◌, rem_euclid, IsI64, i64_min, i64_max, abs_ℕ, of_u64, to_u64,
}
use mux_runtime.Scalar.Byte.{
  checked_add, checked_sub, checked_mul, checked_div, checked_rem, wrapping_add, wrapping_sub,
  wrapping_mul, saturating_add, saturating_sub, saturating_mul, rotate_left, rotate_right,
  add_overflow, sub_underflow, mul_overflow, out_of_range, as_u8,
}
use mux_runtime.Scalar.Byte.Laws.{
  add_family, sub_family, mul_family, wrapping_exact, checked_domain, IsByte, rotate_inverse,
}
use mux_runtime.Scalar.Int.{
  quot, rem, int_add, int_sub, int_mul, int_div, int_rem, rem_result, div_i64, rem_i64, returns,
  panics, division_by_zero, modulo_by_zero,
}
use mux_runtime.Scalar.Int.Laws.{int_div-panics_iff, int_div_exact, int_ops_exact}
use mux_runtime.Scalar.Math.{isqrt, gcd, gcd_unsigned, int_pow, isqrt_loop, pow_loop}
use mux_runtime.Scalar.Math.Isqrt.{isqrt_floor}
use mux_runtime.Scalar.Math.Gcd.{gcd_greatest, IsGcd}
use mux_runtime.Scalar.Math.Pow.{int_pow_wraps}

add_family_test :
    (checked_add (pos 200) (pos 100) ≡ (if leb 300 255 then ok (pos 300) else err add_overflow))
    × (wrapping_add (pos 200) (pos 100) ≡ pos 44)
    × (saturating_add (pos 200) (pos 100) ≡ pos 255)
add_family_test = add_family 200 100 (omega arith) (omega arith)

sub_family_test :
    (checked_sub (pos 3) (pos 5) ≡ (if leb 5 3 then ok (pos 0) else err sub_underflow))
    × (wrapping_sub (pos 3) (pos 5) ≡ pos 254)
    × (saturating_sub (pos 3) (pos 5) ≡ pos 0)
sub_family_test = sub_family 3 5 (omega arith) (omega arith)

mul_family_test :
    (checked_mul (pos 20) (pos 20) ≡ (if leb 400 255 then ok (pos 400) else err mul_overflow))
    × (wrapping_mul (pos 20) (pos 20) ≡ pos 144)
    × (saturating_mul (pos 20) (pos 20) ≡ pos 255)
mul_family_test = mul_family 20 20 (omega arith) (omega arith)

wrapping_exact_test :
    (wrapping_add (negsuc 0) (pos 300) ≡ pos (rem_euclid (negsuc 0 +ℤ pos 300) 256))
    × (wrapping_sub (negsuc 0) (pos 300) ≡ pos (rem_euclid (negsuc 0 -ℤ pos 300) 256))
wrapping_exact_test = wrapping_exact (negsuc 0) (pos 300)

no-IsByte : ¬ IsByte (pos 256)
no-IsByte = λ h. absurd (omega arith)

checked_domain_test :
    (checked_add (pos 256) (pos 1) ≡ err (out_of_range (pos 256)))
    × (checked_sub (pos 256) (pos 1) ≡ err (out_of_range (pos 256)))
    × (checked_mul (pos 256) (pos 1) ≡ err (out_of_range (pos 256)))
    × (checked_div (pos 256) (pos 1) ≡ err (out_of_range (pos 256)))
    × (checked_rem (pos 256) (pos 1) ≡ err (out_of_range (pos 256)))
checked_domain_test = checked_domain (pos 256) (pos 1) no-IsByte

rotate_inverse_test :
    rotate_right (rotate_left (pos 0x81) (negsuc 2)) (negsuc 2) ≡ pos (as_u8 (pos 0x81))
rotate_inverse_test = rotate_inverse (pos 0x81) (negsuc 2)

int_div-panics_iff_example :
    ((int_div i64_min (negsuc 0) ≡ returns (err division_by_zero)) ↔ (negsuc 0 ≡ pos 0))
    × ((rem_result i64_min (negsuc 0) ≡ returns (err modulo_by_zero)) ↔ (negsuc 0 ≡ pos 0))
    × ((int_div i64_min (negsuc 0) ≡ panics)
        ↔ ((negsuc 0 ≢ pos 0) × ¬ IsI64 (quot i64_min (negsuc 0))))
    × ((rem_result i64_min (negsuc 0) ≡ panics)
        ↔ ((negsuc 0 ≢ pos 0) × ¬ IsI64 (quot i64_min (negsuc 0))))
    × ((int_div i64_min (negsuc 0) ≡ panics) ↔ ((i64_min ≡ i64_min) × (negsuc 0 ≡ negsuc 0)))
int_div-panics_iff_example = int_div-panics_iff i64_min (negsuc 0) (omega arith, omega arith)

least_panics : int_div i64_min (negsuc 0) ≡ panics
unfolding int_div div_i64
least_panics = refl

int_div_exact_example :
    (int_div (negsuc 6) (pos 2) ≡ returns (ok (quot (negsuc 6) (pos 2))))
    × (int_rem (negsuc 6) (pos 2) ≡ returns (rem (negsuc 6) (pos 2)))
    × IsI64 (quot (negsuc 6) (pos 2))
    × (quot (negsuc 6) (pos 2) *ℤ pos 2 +ℤ rem (negsuc 6) (pos 2) ≡ negsuc 6)
    × (abs_ℕ (rem (negsuc 6) (pos 2)) < 2)
int_div_exact_example =
    int_div_exact (negsuc 6) (pos 2) (omega arith, omega arith) (λ h. ground arith) refl

-- -7 / 2 is -3, and -7 % 2 is -1.
cut_towards_zero :
    (int_div (negsuc 6) (pos 2) ≡ returns (ok (negsuc 2)))
    × (int_rem (negsuc 6) (pos 2) ≡ returns (negsuc 0))
unfolding int_div int_rem div_i64 rem_i64
cut_towards_zero = (refl, refl)

int_ops_exact_test :
    (int_add (pos 2) (negsuc 4) ≡ pos 2 +ℤ negsuc 4)
    × (int_sub (pos 2) (negsuc 4) ≡ pos 2 -ℤ negsuc 4)
    × (int_mul (pos 2) (negsuc 4) ≡ pos 2 *ℤ negsuc 4)
unfolding ◌+ℤ◌ ◌-ℤ◌ ◌*ℤ◌
int_ops_exact_test =
    int_ops_exact (pos 2) (negsuc 4) (omega arith, omega arith) (omega arith, omega arith)
      (omega arith, omega arith)

isqrt_floor_example : (r : ℕ) × (isqrt (pos 99) ≡ pos r) × (r * r ≤ 99) × (99 < (r + 1) * (r + 1))
isqrt_floor_example = isqrt_floor 99 (omega arith)

gcd_greatest_example :
    (g : ℕ) × IsGcd (abs_ℕ (negsuc 11)) (abs_ℕ (pos 18)) g
    × (gcd (negsuc 11) (pos 18) ≡ (if leb (2 ^ 63) g then i64_max else pos g))
gcd_greatest_example = gcd_greatest (negsuc 11) (pos 18)

int_pow_wraps_example : int_pow (negsuc 2) (pos 5) ≡ of_u64 (to_u64 (negsuc 2) ^ 5 % 2 ^ 64)
int_pow_wraps_example = int_pow_wraps (negsuc 2) 5 (omega arith)

-- Runs of the code.
runs :
    (isqrt (pos 99) ≡ pos 9)
    × (gcd (negsuc 11) (pos 18) ≡ pos 6)
    × (int_pow (negsuc 2) (pos 5) ≡ negsuc 242)
    × (int_pow (negsuc 0) (negsuc 2) ≡ negsuc 0)
unfolding isqrt isqrt_loop gcd gcd_unsigned int_pow pow_loop
runs = (refl, refl, refl, refl)
