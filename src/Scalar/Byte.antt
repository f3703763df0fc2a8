-- ===== src/Scalar/Byte.antt =====
-- src/byte.rs: the byte scalar, which the compiler keeps in an `i64` slot. A Mux result value is a
-- `Result`, and an error message is a constructor that names it.
pub mod Laws
use mux_runtime.Common.{
  ℕ, suc, ◌+◌, ◌-◌, ◌*◌, ◌/◌, ◌%◌, ◌^◌, Bool, ◌&&◌, ltb, leb, ◌==◌, if◌then◌else◌, Result, ok, err,
  ◌>>=◌,
}
use mux_runtime.Common.Int.{
  ℤ, pos, negsuc, ◌+ℤ◌, ◌-ℤ◌, ◌*ℤ◌, rem_euclid, clamp_ℤ, min_ℤ, max_ℤ, leb_ℤ, fits_i64, i64_max,
  i64_min,
}
use Prim.Native.Nat.{bit_and, bit_or, bit_xor}

pub data ByteError : Type 0 where
  out_of_range : ℤ → ByteError
  add_overflow : ByteError
  sub_underflow : ByteError
  mul_overflow : ByteError
  div_by_zero : ByteError
  mod_by_zero : ByteError
  bad_shift : ByteError

abbrev pub Checked : Type 0 → Type 0
Checked A = Result ByteError A

-- `u8::try_from(value)`
unfoldable pub checked : ℤ → Checked ℕ
checked (pos n) = if leb n 255 then ok n else err (out_of_range (pos n))
checked (negsuc n) = err (out_of_range (negsuc n))

unfoldable pub checked_pair : ℤ → ℤ → Checked (ℕ × ℕ)
unfolding checked
checked_pair left right = do a ← checked left; b ← checked right; ok (a, b)

-- `i64::checked_sub` and `i64::checked_mul`, then `filter`, then `map_or_else`
abbrev pub filtered : ℤ → Bool → ByteError → Checked ℤ
filtered v test e = if fits_i64 v && test then ok v else err e

unfoldable pub checked_add : ℤ → ℤ → Checked ℤ
unfolding checked_pair
checked_add left right = do
  (a, b) ← checked_pair left right
  if leb (a + b) 255 then ok (pos (a + b)) else err add_overflow

unfoldable pub checked_sub : ℤ → ℤ → Checked ℤ
unfolding checked_pair ◌-ℤ◌
checked_sub left right = do
  (a, b) ← checked_pair left right
  filtered (pos a -ℤ pos b) (leb_ℤ (pos 0) (pos a -ℤ pos b)) sub_underflow

unfoldable pub checked_mul : ℤ → ℤ → Checked ℤ
unfolding checked_pair ◌*ℤ◌
checked_mul left right = do
  (a, b) ← checked_pair left right
  filtered (pos a *ℤ pos b) (leb_ℤ (pos a *ℤ pos b) (pos 255)) mul_overflow

unfoldable pub checked_div : ℤ → ℤ → Checked ℤ
unfolding checked_pair
checked_div left right = do
  (a, b) ← checked_pair left right
  if b == 0 then err div_by_zero else ok (pos (a / b))

unfoldable pub checked_rem : ℤ → ℤ → Checked ℤ
unfolding checked_pair
checked_rem left right = do
  (a, b) ← checked_pair left right
  if b == 0 then err mod_by_zero else ok (pos (a % b))

unfoldable pub wrapping_add : ℤ → ℤ → ℤ
unfolding ◌+ℤ◌
wrapping_add left right =
    pos (rem_euclid (pos (rem_euclid left 256) +ℤ pos (rem_euclid right 256)) 256)

unfoldable pub wrapping_sub : ℤ → ℤ → ℤ
unfolding ◌-ℤ◌
wrapping_sub left right =
    pos (rem_euclid (pos (rem_euclid left 256) -ℤ pos (rem_euclid right 256)) 256)

unfoldable pub wrapping_mul : ℤ → ℤ → ℤ
unfolding ◌*ℤ◌
wrapping_mul left right =
    pos (rem_euclid (pos (rem_euclid left 256) *ℤ pos (rem_euclid right 256)) 256)

-- `saturating_add` and the like on `i64`
abbrev pub saturate : ℤ → ℤ
saturate v = clamp_ℤ v i64_min i64_max

unfoldable pub saturating_add : ℤ → ℤ → ℤ
unfolding ◌+ℤ◌
saturating_add left right =
    min_ℤ (saturate (clamp_ℤ left (pos 0) (pos 255) +ℤ clamp_ℤ right (pos 0) (pos 255))) (pos 255)

unfoldable pub saturating_sub : ℤ → ℤ → ℤ
unfolding ◌-ℤ◌
saturating_sub left right =
    max_ℤ (saturate (clamp_ℤ left (pos 0) (pos 255) -ℤ clamp_ℤ right (pos 0) (pos 255))) (pos 0)

unfoldable pub saturating_mul : ℤ → ℤ → ℤ
unfolding ◌*ℤ◌
saturating_mul left right =
    min_ℤ (saturate (clamp_ℤ left (pos 0) (pos 255) *ℤ clamp_ℤ right (pos 0) (pos 255))) (pos 255)

-- `value as u8`
abbrev pub as_u8 : ℤ → ℕ
as_u8 v = rem_euclid v 256

-- `!value` on `i64`
abbrev pub complement : ℤ → ℤ
complement (pos n) = negsuc n
complement (negsuc n) = pos n

unfoldable pub byte_and : ℤ → ℤ → ℤ
byte_and left right = pos (bit_and (as_u8 left) (as_u8 right))

unfoldable pub byte_or : ℤ → ℤ → ℤ
byte_or left right = pos (bit_or (as_u8 left) (as_u8 right))

unfoldable pub byte_xor : ℤ → ℤ → ℤ
byte_xor left right = pos (bit_xor (as_u8 left) (as_u8 right))

unfoldable pub byte_not : ℤ → ℤ
byte_not v = pos (as_u8 (complement v))

-- `u8::rotate_left` and `u8::rotate_right` by less than eight places
unfoldable pub rotl8 : ℕ → ℕ → ℕ
rotl8 x k = x * 2 ^ k % 256 + x / 2 ^ (8 - k)

unfoldable pub rotr8 : ℕ → ℕ → ℕ
rotr8 x k = x / 2 ^ k + x * 2 ^ (8 - k) % 256

unfoldable pub rotate_left : ℤ → ℤ → ℤ
rotate_left v shift = pos (rotl8 (as_u8 v) (rem_euclid shift 8))

unfoldable pub rotate_right : ℤ → ℤ → ℤ
rotate_right v shift = pos (rotr8 (as_u8 v) (rem_euclid shift 8))

-- A shift by 0 to 7 places.
unfoldable pub shift_left : ℤ → ℤ → Checked ℤ
shift_left v (pos k) = if leb k 7 then ok (pos (as_u8 v * 2 ^ k % 256)) else err bad_shift
shift_left v (negsuc k) = err bad_shift

unfoldable pub shift_right : ℤ → ℤ → Checked ℤ
shift_right v (pos k) = if leb k 7 then ok (pos (as_u8 v / 2 ^ k)) else err bad_shift
shift_right v (negsuc k) = err bad_shift
