-- ===== src/Bytes/Tests.antt =====
-- Tests of the byte buffers, the numbers in them and the cursors of src/bytes.rs.
use mux_runtime.Common.{ℕ, ◌≡◌, refl, arith, ◌<◌, true, false, some, List, [], ◌∷◌, length, ok, err}
use mux_runtime.Common.Int.{pos, negsuc, i64_max, ◌+ℤ◌}
use mux_runtime.Bytes.Value.{int, bytes, bytes_mut, wrap_index, checked_add_usize, byte_range}
use mux_runtime.Bytes.Buffer
use mux_runtime.Bytes.Uint.{
  read_uint, write_uint, checked_width, checked_value, checked_range, write_loop, byte_shift,
}
use mux_runtime.Bytes.Uint.Laws.{read_uint-write_uint}
use mux_runtime.Bytes.Varint.{write_varint, read_varint, encoded, encode_loop}
use mux_runtime.Bytes.Varint.Laws.{read_varint-write_varint}
use mux_runtime.Bytes.Format.{
  format_bytes, minimum_width, format_width, format_loop, padded, byte_digits, digit_char,
}
use mux_runtime.Bytes.Cursor.{
  CursorEntry, cursor_read_uint, cursor_write_uint, cursor_end, overwritten, grown,
}
use mux_runtime.Bytes.Cursor.Laws.{
  Within, cursor_read_uint-Within, cursor_read_uint-cursor_write_uint,
}

abbrev zeros : List ℕ
zeros = 0 ∷ 0 ∷ 0 ∷ 0 ∷ []

abbrev zeros_after : List ℕ
zeros_after = 0 ∷ 1 ∷ 2 ∷ 0 ∷ []

wrote_uint : write_uint zeros (pos 1) (pos 258) (pos 2) false ≡ ok zeros_after
unfolding write_uint checked_width checked_value checked_range checked_add_usize write_loop
    byte_shift
wrote_uint = refl

read_uint-write_uint_example :
    (read_uint zeros_after (pos 1) (pos 2) false ≡ ok (pos 258))
    × (length zeros_after ≡ length zeros)
read_uint-write_uint_example =
    read_uint-write_uint zeros zeros_after (pos 1) (pos 258) (pos 2) false
      (omega arith, omega arith) wrote_uint

abbrev varint_after : List ℕ
varint_after = 0 ∷ 172 ∷ 2 ∷ 0 ∷ []

wrote_varint : write_varint zeros (pos 1) 300 ≡ ok (varint_after, 2)
unfolding write_varint encoded encode_loop checked_add_usize
wrote_varint = refl

read_varint-write_varint_example :
    (read_varint varint_after (pos 1) ≡ ok (pos 300)) × (length varint_after ≡ length zeros)
read_varint-write_varint_example =
    read_varint-write_varint zeros varint_after (pos 1) 300 2 (omega arith, omega arith)
      wrote_varint

abbrev fresh : CursorEntry
fresh = record { bytes = 7 ∷ []; position = 1; names = 1 }

abbrev grown_entry : CursorEntry
grown_entry = record { bytes = 7 ∷ 2 ∷ 1 ∷ []; position = 3; names = 1 }

wrote_cursor : cursor_write_uint fresh (pos 258) (pos 2) true ≡ ok grown_entry
unfolding cursor_write_uint checked_width checked_value cursor_end overwritten grown
    checked_add_usize write_loop byte_shift
wrote_cursor = refl

cursor_read_uint-cursor_write_uint_example :
    Within grown_entry
    × (cursor_read_uint (record grown_entry { position = 1 }) (pos 2) true
        ≡ ok (grown_entry, pos 258))
cursor_read_uint-cursor_write_uint_example =
    cursor_read_uint-cursor_write_uint fresh grown_entry (pos 258) (pos 2) true
      (omega arith, omega arith) wrote_cursor

cursor_read_uint-Within_example :
    (1 < 3) × Within grown_entry × (grown_entry.bytes ≡ 7 ∷ 2 ∷ 1 ∷ []) × (grown_entry.names ≡ 1)
cursor_read_uint-Within_example =
    cursor_read_uint-Within (record grown_entry { position = 1 }) grown_entry (pos 2) (pos 258) true
      cursor_read_uint-cursor_write_uint_example.1

-- slices, wrapped indices, overlapping copies and padding
slice_test : Buffer.slice_bytes (1 ∷ 2 ∷ 3 ∷ 4 ∷ []) (negsuc 2) i64_max ≡ 2 ∷ 3 ∷ 4 ∷ []
unfolding Buffer.slice_bytes Buffer.normalize Buffer.clamp_index wrap_index ◌+ℤ◌
slice_test = refl

copy_test :
    Buffer.copy_within (some (bytes (1 ∷ 2 ∷ 3 ∷ 4 ∷ []))) (pos 1) (pos 0) (pos 9)
    ≡ some (bytes (1 ∷ 1 ∷ 2 ∷ 3 ∷ []))
unfolding Buffer.copy_within bytes_mut Buffer.clamp_index Buffer.copy_count wrap_index
copy_test = refl

from_list_test : Buffer.from_list (some (int (pos 1) ∷ int (pos 256) ∷ [])) ≡ err byte_range
unfolding Buffer.from_list Buffer.from_values
from_list_test = refl

format_test : format_bytes (10 ∷ []) (pos 16) (pos 3) ≡ ok (48 ∷ 48 ∷ 97 ∷ [])
unfolding format_bytes minimum_width format_width format_loop padded byte_digits digit_char
format_test = refl
