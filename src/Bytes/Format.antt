-- ===== src/Bytes/Format.antt =====
-- `format_bytes` of src/bytes.rs: every byte in one radix, padded with zeros to one width. A
-- character is its code.
use mux_runtime.Common.{
  ℕ, zero, suc, ◌+◌, ◌-◌, if◌then◌else◌, ◌*◌, ◌/◌, ◌%◌, ltb, ◌==◌, Option, none, some, List, [],
  ◌∷◌, ◌++◌, length, replicate, Result, ok, err, ◌>>=◌,
}
use mux_runtime.Common.Int.{ℤ, pos, negsuc}
use mux_runtime.Bytes.Value.{
  Value, BytesError, bad_radix, width_too_small, width_too_large, output_too_large, expected_bytes,
  bytes_ref, usize_max,
}

-- the lower-case digit
unfoldable pub digit_char : ℕ → ℕ
digit_char d = if ltb d 10 then 48 + d else 87 + d

-- the digits of a byte, the highest first; eight rounds are enough for one byte
unfoldable pub byte_digits : ℕ → ℕ → ℕ → List ℕ
unfolding digit_char
byte_digits zero radix n = []
byte_digits (suc fuel) radix n =
    let rest = byte_digits fuel radix (n / radix) in
    if n / radix == 0 then digit_char n ∷ [] else rest ++ digit_char (n % radix) ∷ []

-- `{byte:0width$}`
unfoldable pub padded : ℕ → List ℕ → List ℕ
padded width text = replicate (width - length text) 48 ++ text

-- the least width of a radix
unfoldable pub minimum_width : ℤ → Result BytesError (ℕ × ℕ)
minimum_width (pos n) =
    if n == 2
    then ok (2, 8)
    else if n == 8
    then ok (8, 3)
    else if n == 10
    then ok (10, 3)
    else if n == 16
    then ok (16, 2)
    else err bad_radix
minimum_width (negsuc n) = err bad_radix

-- the width in use, where 0 asks for the least
unfoldable pub format_width : ℕ → ℤ → Result BytesError ℕ
format_width least (negsuc n) = err width_too_small
format_width least (pos n) =
    let width = if n == 0 then least else n in
    if ltb width least
    then err width_too_small
    else if ltb 64 width
    then err width_too_large
    else ok width

unfoldable pub format_loop : ℕ → ℕ → List ℕ → List ℕ
unfolding byte_digits padded
format_loop radix width [] = []
format_loop radix width (b ∷ bs) =
    padded width (byte_digits 8 radix b) ++ format_loop radix width bs

unfoldable pub format_bytes : List ℕ → ℤ → ℤ → Result BytesError (List ℕ)
unfolding minimum_width format_width format_loop
format_bytes bs radix width = do
  (r, least) ← minimum_width radix
  w ← format_width least width
  if ltb usize_max (length bs * w) then err output_too_large else ok (format_loop r w bs)

unfoldable pub bytes_format : Option Value → ℤ → ℤ → Result BytesError (List ℕ)
unfolding bytes_ref format_bytes
bytes_format v radix width = elim (bytes_ref v) [
  | none ↦ err expected_bytes
  | some bs ↦ format_bytes bs radix width
]
