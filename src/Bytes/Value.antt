-- ===== src/Bytes/Value.antt =====
-- The values that src/bytes.rs tells apart, the checks of its arguments and its error messages, each
-- a constructor. A float is kept as its 64 bits.
use mux_runtime.Common.{ℕ, ◌+◌, if◌then◌else◌, leb, Option, none, some, List, Result, ok, err}
use mux_runtime.Common.Int.{ℤ, pos, negsuc, ◌+ℤ◌, ltb_ℤ}

-- the variants of `Value` that the file reads, and `other` for the rest
pub data Value : Type 0 where
  int : ℤ → Value
  float : ℕ → Value
  bytes : List ℕ → Value
  other : Value

pub data BytesError : Type 0 where
  null_byte : BytesError
  not_a_byte : BytesError
  not_octets : BytesError
  byte_range : BytesError
  expected_bytes : BytesError
  expected_float : BytesError
  negative_offset : BytesError
  offset_too_large : BytesError
  offset_outside : BytesError
  not_enough_bytes : BytesError
  not_enough_for_float : BytesError
  width_not_positive : BytesError
  width_out_of_range : BytesError
  negative_value : BytesError
  value_too_wide : BytesError
  does_not_fit_int : BytesError
  varint_too_large : BytesError
  truncated_varint : BytesError
  no_space : BytesError
  bad_radix : BytesError
  width_too_small : BytesError
  width_too_large : BytesError
  output_too_large : BytesError
  cursor_null : BytesError
  not_a_cursor : BytesError
  invalid_cursor : BytesError
  no_cursor_object : BytesError
  position_too_large : BytesError
  not_enough_remaining : BytesError
  negative_length : BytesError

-- `usize::MAX` of a 64-bit target
abbrev pub usize_max : ℕ
usize_max = 18446744073709551615

-- `usize::checked_add`
unfoldable pub checked_add_usize : ℕ → ℕ → Option ℕ
checked_add_usize a b = if leb (a + b) usize_max then some (a + b) else none

-- `(0..=255).contains(number)` and the cast, for a pointer to a value
unfoldable pub byte_value : Option Value → Result BytesError ℕ
byte_value none = err null_byte
byte_value (some (int (pos n))) = if leb n 255 then ok n else err not_a_byte
byte_value (some (int (negsuc n))) = err not_a_byte
byte_value (some (float b)) = err not_a_byte
byte_value (some (bytes bs)) = err not_a_byte
byte_value (some other) = err not_a_byte

-- `Value::as_bytes`
unfoldable pub as_bytes : Value → Option (List ℕ)
as_bytes (bytes bs) = some bs
as_bytes (int n) = none
as_bytes (float b) = none
as_bytes other = none

unfoldable pub bytes_ref : Option Value → Option (List ℕ)
unfolding as_bytes
bytes_ref none = none
bytes_ref (some v) = as_bytes v

-- `if let Some(bytes) = bytes_mut(value) { *bytes = f(bytes) }`
unfoldable pub bytes_mut : (List ℕ → List ℕ) → Option Value → Option Value
bytes_mut f none = none
bytes_mut f (some (bytes bs)) = some (bytes (f bs))
bytes_mut f (some (int n)) = some (int n)
bytes_mut f (some (float b)) = some (float b)
bytes_mut f (some other) = some other

-- `if index < 0 { len + index } else { index }`
unfoldable pub wrap_index : ℕ → ℤ → ℤ
wrap_index len index = if ltb_ℤ index (pos 0) then pos len +ℤ index else index
