-- ===== src/Bytes/Varint.antt =====
-- Variable-length numbers in src/bytes.rs: seven bits a byte, the lowest first, the eighth bit set on
-- every byte but the last.
pub mod Laws
use mux_runtime.Common.{
  ℕ, zero, suc, ◌+◌, ◌-◌, if◌then◌else◌, ◌*◌, ◌/◌, ◌%◌, ◌^◌, Bool, true, false, ◌&&◌, ◌||◌, ltb,
  leb, ◌==◌, Option, none, some, List, [], ◌∷◌, ◌++◌, length, take, drop, Result, ok, err,
}
use mux_runtime.Common.Int.{ℤ, pos, negsuc}
use mux_runtime.Bytes.Value.{
  Value, bytes, BytesError, negative_offset, offset_too_large, offset_outside, negative_value,
  varint_too_large, truncated_varint, no_space, expected_bytes, bytes_ref, checked_add_usize,
}
use mux_runtime.Bytes.Uint.{try_i64}
use Prim.Native.Nat.{bit_or}

-- The loop of `read_varint` over the bytes that are left. `byte & 0x7f` is the remainder by 128, and
-- `byte & 0x80 == 0` says that the byte is below 128.
unfoldable pub varint_loop : List ℕ → ℕ → ℕ → Result BytesError ℤ
unfolding try_i64
varint_loop [] result shift = err truncated_varint
varint_loop (b ∷ bs) result shift =
    let payload = b % 128 in
    let result' = bit_or result (payload * 2 ^ shift) in
    let rest = varint_loop bs result' (shift + 7) in
    if leb 64 shift
    then err varint_too_large
    else if (shift == 63) && (ltb 1 payload || leb 128 b)
    then err varint_too_large
    else if ltb b 128
    then try_i64 result'
    else rest

unfoldable pub read_varint : List ℕ → ℤ → Result BytesError ℤ
unfolding varint_loop
read_varint bs (negsuc n) = err negative_offset
read_varint bs (pos offset) =
    if leb (length bs) offset then err offset_outside else varint_loop (drop offset bs) 0 0

unfoldable pub bytes_read_varint : Option Value → ℤ → Result BytesError ℤ
unfolding bytes_ref read_varint
bytes_read_varint v offset = elim (bytes_ref v) [
  | none ↦ err expected_bytes
  | some bs ↦ read_varint bs offset
]

-- The loop of `write_varint` that fills `encoded`; `byte |= 0x80` adds 128 to a byte below it. It
-- takes fuel, of which ten rounds are enough for 64 bits.
unfoldable pub encode_loop : ℕ → ℕ → List ℕ
encode_loop zero number = []
encode_loop (suc fuel) number =
    let rest = encode_loop fuel (number / 128) in
    if number / 128 == 0 then number % 128 ∷ [] else (number % 128 + 128) ∷ rest

unfoldable pub encoded : ℕ → List ℕ
unfolding encode_loop
encoded number = encode_loop 10 number

-- `write_varint` on a buffer: what the buffer becomes, and the number of bytes written
unfoldable pub write_varint : List ℕ → ℤ → ℕ → Result BytesError (List ℕ × ℕ)
unfolding checked_add_usize encoded
write_varint bs (negsuc n) number = err negative_offset
write_varint bs (pos start) number = elim (checked_add_usize start (length (encoded number))) [
  | none ↦ err offset_too_large
  | some end ↦
      if ltb (length bs) end
      then err no_space
      else ok (take start bs ++ (encoded number ++ drop end bs), length (encoded number))
]

-- a buffer and a count, or an error that leaves the buffer
unfoldable pub counted :
    Result BytesError (List ℕ × ℕ) → Option Value → Option Value × Result BytesError ℤ
counted (ok (bs, n)) v = (some (bytes bs), ok (pos n))
counted (err e) v = (v, err e)

unfoldable pub bytes_write_varint : Option Value → ℤ → ℤ → Option Value × Result BytesError ℤ
unfolding bytes_ref write_varint counted
bytes_write_varint v offset (negsuc n) = (v, err negative_value)
bytes_write_varint v offset (pos number) = elim (bytes_ref v) [
  | none ↦ (v, err expected_bytes)
  | some bs ↦ counted (write_varint bs offset number) v
]
