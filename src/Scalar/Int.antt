-- ===== src/Scalar/Int.antt =====
-- src/int.rs: the `Int` wrapper and its C interface. Overflowing `+`, `-` and `*` wrap around, as in
-- a release build; division and remainder panic where the quotient does not fit, in every build.
pub mod Laws
use mux_runtime.Common.{
  ℕ, zero, suc, ◌+◌, ◌*◌, ◌/◌, ◌%◌, Bool, ◌&&◌, not, ◌==◌, if◌then◌else◌, Result, ok, err, leb,
}
use mux_runtime.Common.Int.{
  ℤ, pos, negsuc, ◌+ℤ◌, ◌-ℤ◌, ◌*ℤ◌, wrap_i64, eqb_ℤ, ltb_ℤ, leb_ℤ, fits_i64, abs_ℕ,
}

pub data IntError : Type 0 where
  division_by_zero : IntError
  modulo_by_zero : IntError
  not_a_byte : ℤ → IntError

-- a call that returns, or that panics
pub data Outcome (A : Type 0) : Type 0 where
  returns : A → Outcome A
  panics : Outcome A

abbrev pub negative : ℕ → ℤ
negative zero = pos 0
negative (suc n) = negsuc n

-- `a / b` and `a % b` on `i64` for `b != 0`: the quotient is cut towards zero, and the remainder has
-- the sign of the dividend.
unfoldable pub quot : ℤ → ℤ → ℤ
quot (pos a) (pos b) = pos (a / b)
quot (pos a) (negsuc b) = negative (a / suc b)
quot (negsuc a) (pos b) = negative (suc a / b)
quot (negsuc a) (negsuc b) = pos (suc a / suc b)

unfoldable pub rem : ℤ → ℤ → ℤ
rem (pos a) b = pos (a % abs_ℕ b)
rem (negsuc a) b = negative (suc a % abs_ℕ b)

-- The operators `/` and `%` of `i64`: both panic at a zero divisor, and where the quotient is no `i64`.
abbrev pub divides : ℤ → ℤ → Bool
divides a b = not (eqb_ℤ b (pos 0)) && fits_i64 (quot a b)

unfoldable pub div_i64 : ℤ → ℤ → Outcome ℤ
unfolding quot
div_i64 a b = if divides a b then returns (quot a b) else panics

unfoldable pub rem_i64 : ℤ → ℤ → Outcome ℤ
unfolding quot rem
rem_i64 a b = if divides a b then returns (rem a b) else panics

abbrev pub ok_result : Outcome ℤ → Outcome (Result IntError ℤ)
ok_result (returns r) = returns (ok r)
ok_result panics = panics

-- `Int::add`, `Int::sub`, `Int::mul` and their C functions
unfoldable pub int_add : ℤ → ℤ → ℤ
int_add a b = wrap_i64 (a +ℤ b)

unfoldable pub int_sub : ℤ → ℤ → ℤ
int_sub a b = wrap_i64 (a -ℤ b)

unfoldable pub int_mul : ℤ → ℤ → ℤ
int_mul a b = wrap_i64 (a *ℤ b)

-- `Int::div` and `mux_int_div`
unfoldable pub int_div : ℤ → ℤ → Outcome (Result IntError ℤ)
unfolding div_i64
int_div a b = if eqb_ℤ b (pos 0) then returns (err division_by_zero) else ok_result (div_i64 a b)

-- `Int::rem`
unfoldable pub rem_result : ℤ → ℤ → Outcome (Result IntError ℤ)
unfolding rem_i64
rem_result a b = if eqb_ℤ b (pos 0) then returns (err modulo_by_zero) else ok_result (rem_i64 a b)

abbrev or_zero : Outcome (Result IntError ℤ) → Outcome ℤ
or_zero (returns (ok r)) = returns r
or_zero (returns (err e)) = returns (pos 0)
or_zero panics = panics

-- `mux_int_rem`, which returns 0 for an error
unfoldable pub int_rem : ℤ → ℤ → Outcome ℤ
unfolding rem_result
int_rem a b = or_zero (rem_result a b)

unfoldable pub int_eq : ℤ → ℤ → Bool
int_eq a b = eqb_ℤ a b

unfoldable pub int_lt : ℤ → ℤ → Bool
int_lt a b = ltb_ℤ a b

unfoldable pub int_to_byte : ℤ → Result IntError ℤ
int_to_byte i = if leb_ℤ (pos 0) i && leb_ℤ i (pos 255) then ok i else err (not_a_byte i)
