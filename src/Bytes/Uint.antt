-- ===== src/Bytes/Uint.antt =====
-- Fixed-width numbers in src/bytes.rs: `read_uint`, `write_uint` and the eight-byte floats, at an
-- offset of a buffer.
pub mod Laws
use mux_runtime.Common.{
  ℕ, zero, suc, ◌+◌, if◌then◌else◌, ◌-◌, ◌*◌, ◌/◌, ◌%◌, ◌^◌, Bool, true, false, ◌&&◌, ltb, leb,
  Option, none, some, List, [], ◌∷◌, ◌++◌, length, take, drop, Result, ok, err, ◌>>=◌,
}
use mux_runtime.Common.Int.{ℤ, pos, negsuc}
use mux_runtime.Bytes.Value.{
  Value, int, float, bytes, other, BytesError, negative_offset, offset_too_large, not_enough_bytes,
  not_enough_for_float, width_not_positive, width_out_of_range, negative_value, value_too_wide,
  does_not_fit_int, expected_bytes, expected_float, bytes_ref, checked_add_usize,
}
use Prim.Native.Nat.{bit_or}

-- `i64::try_from(value)` of a `u64`
unfoldable pub try_i64 : ℕ → Result BytesError ℤ
try_i64 v = if leb v 9223372036854775807 then ok (pos v) else err does_not_fit_int

-- the width, checked; `read_uint`, `write_uint` and the cursors begin with it
unfoldable pub checked_width : ℤ → Result BytesError ℕ
checked_width (negsuc n) = err width_not_positive
checked_width (pos n) = if leb 1 n && leb n 8 then ok n else err width_out_of_range

-- The start of the range and its end
unfoldable pub checked_range : List ℕ → ℤ → ℕ → Result BytesError (ℕ × ℕ)
unfolding checked_add_usize
checked_range bs (negsuc n) width = err negative_offset
checked_range bs (pos start) width = elim (checked_add_usize start width) [
  | none ↦ err offset_too_large
  | some end ↦ if ltb (length bs) end then err not_enough_bytes else ok (start, end)
]

-- the shift, in bytes, of the byte at a position
unfoldable pub byte_shift : Bool → ℕ → ℕ → ℕ
byte_shift true width position = position
byte_shift false width position = width - position - 1

-- the loop of `read_uint` over the bytes of the range, from a position and a value so far
unfoldable pub read_loop : Bool → ℕ → List ℕ → ℕ → ℕ → ℕ
unfolding byte_shift
read_loop little width [] position value = value
read_loop little width (b ∷ bs) position value =
    read_loop little width bs (suc position)
      (bit_or value (b * 2 ^ (byte_shift little width position * 8)))

-- the loop of `write_uint` over the slots of the range
unfoldable pub write_loop : Bool → ℕ → ℕ → List ℕ → ℕ → List ℕ
unfolding byte_shift
write_loop little width value [] position = []
write_loop little width value (b ∷ bs) position =
    value / 2 ^ (byte_shift little width position * 8) % 256
    ∷ write_loop little width value bs (suc position)

unfoldable pub read_uint : List ℕ → ℤ → ℤ → Bool → Result BytesError ℤ
unfolding checked_width checked_range try_i64
read_uint bs offset width little = do
  w ← checked_width width
  (start, end) ← checked_range bs offset w
  try_i64 (read_loop little w (take (end - start) (drop start bs)) 0 0)

-- the value of `write_uint`, checked against the width
unfoldable pub checked_value : ℕ → ℕ → Result BytesError ℕ
checked_value width value =
    if ltb width 8 && leb (2 ^ (width * 8)) value then err value_too_wide else ok value

unfoldable pub write_uint : List ℕ → ℤ → ℤ → ℤ → Bool → Result BytesError (List ℕ)
unfolding checked_width checked_value checked_range
write_uint bs offset (negsuc n) width little = err negative_value
write_uint bs offset (pos n) width little = do
  w ← checked_width width
  v ← checked_value w n
  (start, end) ← checked_range bs offset w
  ok (
      take start bs
      ++ (write_loop little w v (take (end - start) (drop start bs)) 0 ++ drop end bs))

unfoldable pub bytes_read_uint : Option Value → ℤ → ℤ → Bool → Result BytesError ℤ
unfolding bytes_ref
bytes_read_uint v offset width little = elim (bytes_ref v) [
  | none ↦ err expected_bytes
  | some bs ↦ read_uint bs offset width little
]

-- `ok(Value::Unit)` or an error
abbrev pub Written : Type 0
Written = Result {0, 0} BytesError Unit

-- what an operation that may fail leaves in the buffer
unfoldable pub written : Result BytesError (List ℕ) → Option Value → Option Value × Written
written (ok bs) v = (some (bytes bs), ok tt)
written (err e) v = (v, err e)

unfoldable pub bytes_write_uint : Option Value → ℤ → ℤ → ℤ → Bool → Option Value × Written
unfolding bytes_ref written
bytes_write_uint v offset number width little = elim (bytes_ref v) [
  | none ↦ (v, err expected_bytes)
  | some bs ↦ written (write_uint bs offset number width little) v
]

-- `u64::from_ne_bytes` and `to_ne_bytes` of a target that keeps the lowest byte first
unfoldable pub from_ne_bytes : List ℕ → ℕ
from_ne_bytes [] = 0
from_ne_bytes (b ∷ bs) = b + 256 * from_ne_bytes bs

unfoldable pub to_ne_bytes : ℕ → ℕ → List ℕ
to_ne_bytes zero v = []
to_ne_bytes (suc n) v = v % 256 ∷ to_ne_bytes n (v / 256)

-- `<[u8]>::reverse`
unfoldable pub reverse_bytes : List ℕ → List ℕ
reverse_bytes [] = []
reverse_bytes (b ∷ bs) = reverse_bytes bs ++ b ∷ []

-- `if !little_endian { raw.reverse() }`
unfoldable pub in_order : Bool → List ℕ → List ℕ
unfolding reverse_bytes
in_order true raw = raw
in_order false raw = reverse_bytes raw

-- a range, with the error of the float operations
unfoldable pub float_range : Result BytesError (ℕ × ℕ) → Result BytesError (ℕ × ℕ)
float_range (ok r) = ok r
float_range (err e) = err not_enough_for_float

unfoldable pub bytes_read_float : Option Value → ℤ → Bool → Result BytesError ℕ
unfolding bytes_ref checked_range float_range in_order from_ne_bytes
bytes_read_float v offset little = elim (bytes_ref v) [
  | none ↦ err expected_bytes
  | some bs ↦ do
    (start, end) ← float_range (checked_range bs offset 8)
    ok (from_ne_bytes (in_order little (take 8 (drop start bs))))
]

unfoldable pub as_float : Option Value → Option ℕ
as_float none = none
as_float (some (float b)) = some b
as_float (some (int n)) = none
as_float (some (bytes bs)) = none
as_float (some other) = none

unfoldable pub bytes_write_float : Option Value → ℤ → Option Value → Bool → Option Value × Written
unfolding bytes_ref checked_range float_range in_order to_ne_bytes as_float written
bytes_write_float v offset number little = elim (as_float number) [
  | none ↦ (v, err expected_float)
  | some bits ↦ elim (bytes_ref v) [
    | none ↦ (v, err expected_bytes)
    | some bs ↦
        written
          (do
            (start, end) ← float_range (checked_range bs offset 8)
            ok (take start bs ++ (in_order little (to_ne_bytes 8 bits) ++ drop end bs)))
          v
  ]
]
