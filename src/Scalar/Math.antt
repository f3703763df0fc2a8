-- ===== src/Scalar/Math.antt =====
-- The integer functions of src/math.rs. A loop is a function of its own over its variables; a loop
-- that does not walk a range takes fuel, and Math.Gcd, Math.Isqrt and Math.Pow show that the fuel given here is enough.
pub mod Gcd
pub mod Isqrt
pub mod Pow
use mux_runtime.Common.{
  ℕ, zero, suc, ◌+◌, ◌-◌, ◌*◌, ◌/◌, ◌%◌, ◌^◌, Bool, ◌&&◌, ◌||◌, ◌==◌, if◌then◌else◌, Result, ok,
  err, leb, ltb, min, Option, none, some,
}
use mux_runtime.Common.Int.{
  ℤ, pos, negsuc, abs_ℕ, of_u64, to_u64, eqb_ℤ, leb_ℤ, ltb_ℤ, i64_max, wrap_i64, ◌*ℤ◌,
}

-- `gcd_unsigned`: the loop `while b != 0`
unfoldable pub gcd_unsigned : ℕ → ℕ → ℕ → Option ℕ
gcd_unsigned zero a b = none
gcd_unsigned (suc fuel) a b =
    let rest = gcd_unsigned fuel b (a % b) in if b == 0 then some a else rest

abbrev pub or_zero : Option ℕ → ℕ
or_zero none = 0
or_zero (some n) = n

abbrev pub u64_gcd : ℕ → ℕ → ℕ
u64_gcd a b = or_zero (gcd_unsigned (suc b) a b)

-- `mux_math_gcd`
unfoldable pub gcd : ℤ → ℤ → ℤ
gcd a b = let ua = u64_gcd (abs_ℕ a) (abs_ℕ b) in if leb (2 ^ 63) ua then i64_max else pos ua

-- `mux_math_lcm`; the product of two `u64` values fits a `u128`
unfoldable pub lcm : ℤ → ℤ → ℤ
lcm a b =
    let g = u64_gcd (abs_ℕ a) (abs_ℕ b) in
    let product = abs_ℕ a / g * abs_ℕ b in
    if eqb_ℤ a (pos 0) || eqb_ℤ b (pos 0)
    then pos 0
    else if leb (2 ^ 63) product
    then i64_max
    else pos product

-- the loop of `mux_math_isqrt`; `low` and `high` stay between 0 and 2^32
unfoldable pub isqrt_loop : ℕ → ℕ → ℕ → ℕ → ℕ → Option ℕ
isqrt_loop zero value low high answer = none
isqrt_loop (suc fuel) value low high answer =
    let middle = low + (high - low) / 2 in
    let up = isqrt_loop fuel value (middle + 1) high middle in
    let down = isqrt_loop fuel value low (middle - 1) answer in
    if leb low high then if leb middle (value / middle) then up else down else some answer

-- `mux_math_isqrt`
unfoldable pub isqrt : ℤ → ℤ
isqrt (negsuc n) = pos 0
isqrt (pos value) =
    if value == 0 then pos 0 else pos (or_zero (isqrt_loop 33 value 1 (min value 3_037_000_499) 0))

-- the loop of `mux_int_pow`, on the bits of the two `i64` factors
unfoldable pub pow_loop : ℕ → ℕ → ℕ → ℕ → Option ℕ
pow_loop zero result b e = none
pow_loop (suc fuel) result b e =
    let odd = pow_loop fuel (result * b % 2 ^ 64) (b * b % 2 ^ 64) (e / 2) in
    let even = pow_loop fuel result (b * b % 2 ^ 64) (e / 2) in
    if e == 0 then some result else if e % 2 == 1 then odd else even

-- `mux_int_pow`
unfoldable pub int_pow : ℤ → ℤ → ℤ
int_pow base (negsuc n) =
    if eqb_ℤ base (pos 1)
    then pos 1
    else if eqb_ℤ base (negsuc 0)
    then (if suc n % 2 == 0 then pos 1 else negsuc 0)
    else pos 0
int_pow base (pos exp) = of_u64 (or_zero (pow_loop 64 1 (to_u64 base) exp))
