-- ===== src/Bytes/Cursor.antt =====
-- The cursors of src/bytes.rs: a table of private buffers with a read position and a count of the
-- handles that name them, and the operations on a handle.
pub mod Laws
use mux_runtime.Common.{
  ℕ, zero, suc, ◌+◌, ◌-◌, if◌then◌else◌, ◌*◌, ◌^◌, Bool, true, false, ltb, leb, ◌==◌, Option, none,
  some, List, [], ◌∷◌, ◌++◌, length, take, drop, replicate, Result, ok, err, ◌>>=◌,
}
use mux_runtime.Common.Int.{ℤ, pos, negsuc, pos_part}
use mux_runtime.Bytes.Value.{
  Value, bytes, BytesError, negative_value, negative_length, position_too_large,
  not_enough_remaining, expected_bytes, expected_float, cursor_null, not_a_cursor, invalid_cursor,
  no_cursor_object, bytes_ref, checked_add_usize,
}
use mux_runtime.Bytes.Uint.{
  try_i64, checked_width, checked_value, read_loop, write_loop, Written, in_order, from_ne_bytes,
  to_ne_bytes, as_float,
}

pub record CursorEntry : Type 0 where
  pub bytes : List ℕ
  pub position : ℕ
  pub names : ℕ

-- `CURSORS` and `NEXT_CURSOR`. An identifier is positive; the object that holds it starts at zero.
pub record Cursors : Type 0 where
  pub entries : List (ℕ × CursorEntry)
  pub next : ℕ

-- what a pointer to a cursor leads to: nothing, an object of another type, an object without data, or
-- an identifier
pub data Handle : Type 0 where
  null : Handle
  foreign : Handle
  no_data : Handle
  holding : ℕ → Handle

unfoldable pub find_entry : ℕ → List (ℕ × CursorEntry) → Option CursorEntry
find_entry id [] = none
find_entry id ((j, e) ∷ es) = if j == id then some e else find_entry id es

unfoldable pub erase_entry : ℕ → List (ℕ × CursorEntry) → List (ℕ × CursorEntry)
erase_entry id [] = []
erase_entry id ((j, e) ∷ es) =
    let rest = erase_entry id es in if j == id then rest else (j, e) ∷ rest

-- `HashMap::insert`, and a write through `get_mut`
unfoldable pub put_entry : ℕ → CursorEntry → List (ℕ × CursorEntry) → List (ℕ × CursorEntry)
unfolding erase_entry
put_entry id e es = (id, e) ∷ erase_entry id es

unfoldable pub next_cursor : Cursors → ℕ × Cursors
next_cursor c =
    (c.next, record c { next = if c.next == 9223372036854775807 then 1 else c.next + 1 })

unfoldable pub cursor_id : Handle → Result BytesError ℕ
cursor_id null = err cursor_null
cursor_id foreign = err not_a_cursor
cursor_id no_data = err invalid_cursor
cursor_id (holding zero) = err invalid_cursor
cursor_id (holding (suc n)) = ok (suc n)

-- `release_cursor` at the entry that it finds
unfoldable pub release_found : Option CursorEntry → ℕ → Cursors → Cursors
unfolding put_entry erase_entry
release_found none id c = c
release_found (some e) id c =
    if e.names - 1 == 0
    then record c { entries = erase_entry id c.entries }
    else record c { entries = put_entry id (record e { names = e.names - 1 }) c.entries }

unfoldable pub release_cursor : ℕ → Cursors → Cursors
unfolding find_entry release_found
release_cursor id c = release_found (find_entry id c.entries) id c

-- `drop_cursor`: `none` is a null pointer to the data
unfoldable pub drop_cursor : Option ℕ → Cursors → Cursors
unfolding release_cursor
drop_cursor none c = c
drop_cursor (some id) c = release_cursor id c

-- `copy_cursor` at the entry that it finds: the identifier of the copy
unfoldable pub copy_found : Option CursorEntry → ℕ → Cursors → ℕ × Cursors
unfolding put_entry
copy_found none id c = (0, c)
copy_found (some e) id c =
    (id, record c { entries = put_entry id (record e { names = e.names + 1 }) c.entries })

unfoldable pub copy_cursor : ℕ → Cursors → ℕ × Cursors
unfolding find_entry copy_found
copy_cursor id c = copy_found (find_entry id c.entries) id c

-- the start of the next bytes and their end
unfoldable pub cursor_range : CursorEntry → ℕ → Result BytesError (ℕ × ℕ)
unfolding checked_add_usize
cursor_range e width = elim (checked_add_usize e.position width) [
  | none ↦ err position_too_large
  | some end ↦ if ltb (length e.bytes) end then err not_enough_remaining else ok (e.position, end)
]

-- `entry.bytes[range]`
unfoldable pub range_bytes : CursorEntry → ℕ → List ℕ
range_bytes e end = take (end - e.position) (drop e.position e.bytes)

-- An operation on an entry returns the entry as it leaves it, on an error too.
unfoldable pub cursor_read_uint : CursorEntry → ℤ → Bool → Result BytesError (CursorEntry × ℤ)
unfolding checked_width cursor_range range_bytes try_i64
cursor_read_uint e width little = do
  w ← checked_width width
  (start, end) ← cursor_range e w
  v ← try_i64 (read_loop little w (range_bytes e end) 0 0)
  ok (record e { position = end }, v)

-- `if end > entry.bytes.len() { entry.bytes.resize(end, 0) }`
unfoldable pub grown : ℕ → List ℕ → List ℕ
grown end bs = bs ++ replicate (end - length bs) 0

-- `usize::checked_add` of the position, with the cursor's error
unfoldable pub cursor_end : CursorEntry → ℕ → Result BytesError ℕ
unfolding checked_add_usize
cursor_end e width = elim (checked_add_usize e.position width) [
  | none ↦ err position_too_large
  | some end ↦ ok end
]

-- the buffer with the bytes from the position to the end replaced
unfoldable pub overwritten : CursorEntry → ℕ → (List ℕ → List ℕ) → CursorEntry
unfolding grown
overwritten e end f =
    let bs = grown end e.bytes in
    record e {
      bytes =
          take e.position bs ++ (f (take (end - e.position) (drop e.position bs)) ++ drop end bs);
      position = end;
    }

unfoldable pub cursor_write_uint : CursorEntry → ℤ → ℤ → Bool → Result BytesError CursorEntry
unfolding checked_width checked_value cursor_end overwritten
cursor_write_uint e (negsuc n) width little = err negative_value
cursor_write_uint e (pos n) width little = do
  w ← checked_width width
  v ← checked_value w n
  end ← cursor_end e w
  ok (overwritten e end (λ slots. write_loop little w v slots 0))

-- `mux_bytes_cursor_new`; `allocated` says whether the object could be allocated
unfoldable pub cursor_new : Bool → Option Value → Cursors → Cursors × Result BytesError ℕ
unfolding bytes_ref next_cursor put_entry release_cursor
cursor_new allocated v c = elim (bytes_ref v) [
  | none ↦ (c, err expected_bytes)
  | some bs ↦
      let (id, c1) = next_cursor c in
      let c2 = record c1 {
        entries = put_entry id (record { bytes = bs; position = 0; names = 1 }) c1.entries;
      } in
      if allocated then (c2, ok id) else (release_cursor id c2, err no_cursor_object)
]

-- the entry that a handle names
unfoldable pub entry_of : Handle → Cursors → Result BytesError (ℕ × CursorEntry)
unfolding cursor_id find_entry
entry_of h c = do
  id ← cursor_id h
  elim (find_entry id c.entries) [ none ↦ err invalid_cursor | some e ↦ ok (id, e) ]

unfoldable pub cursor_position : Handle → Cursors → Result BytesError ℤ
unfolding entry_of
cursor_position h c = do (id, e) ← entry_of h c; ok (pos e.position)

unfoldable pub cursor_remaining : Handle → Cursors → Result BytesError ℤ
unfolding entry_of
cursor_remaining h c = do (id, e) ← entry_of h c; ok (pos (length e.bytes - e.position))

unfoldable pub cursor_into_bytes : Handle → Cursors → Result BytesError (List ℕ)
unfolding entry_of
cursor_into_bytes h c = do (id, e) ← entry_of h c; ok e.bytes

-- An operation on the entry, stored back; an error leaves the table.
unfoldable pub updated :
    {A : Type 0} → Result BytesError (ℕ × CursorEntry × A) → Cursors → Cursors × Result BytesError A
unfolding put_entry
updated (err x) c = (c, err x)
updated (ok (id, e, a)) c = (record c { entries = put_entry id e c.entries }, ok a)

unfoldable pub cursor_read_bytes : Handle → ℤ → Cursors → Cursors × Result BytesError (List ℕ)
unfolding entry_of cursor_range range_bytes updated
cursor_read_bytes h (negsuc n) c = (c, err negative_length)
cursor_read_bytes h (pos n) c =
    updated
      (do
        (id, e) ← entry_of h c
        (start, end) ← cursor_range e n
        ok (id, record e { position = end }, range_bytes e end))
      c

unfoldable pub read_uint_at : Handle → ℤ → Bool → Cursors → Cursors × Result BytesError ℤ
unfolding entry_of cursor_read_uint updated
read_uint_at h width little c =
    updated (do (id, e) ← entry_of h c; (e', v) ← cursor_read_uint e width little; ok (id, e', v)) c

unfoldable pub write_uint_at : Handle → ℤ → ℤ → Bool → Cursors → Cursors × Written
unfolding entry_of cursor_write_uint updated
write_uint_at h number width little c =
    updated
      (do (id, e) ← entry_of h c; e' ← cursor_write_uint e number width little; ok (id, e', tt)) c

unfoldable pub read_float_at : Handle → Bool → Cursors → Cursors × Result BytesError ℕ
unfolding entry_of cursor_range range_bytes updated in_order from_ne_bytes
read_float_at h little c =
    updated
      (do
        (id, e) ← entry_of h c
        (start, end) ← cursor_range e 8
        ok (id, record e { position = end }, from_ne_bytes (in_order little (range_bytes e end))))
      c

unfoldable pub write_float_at : Handle → Option Value → Bool → Cursors → Cursors × Written
unfolding as_float entry_of cursor_end overwritten updated in_order to_ne_bytes
write_float_at h number little c = elim (as_float number) [
  | none ↦ (c, err expected_float)
  | some bits ↦
      updated
        (do
          (id, e) ← entry_of h c
          end ← cursor_end e 8
          ok (id, overwritten e end (λ slots. in_order little (to_ne_bytes 8 bits)), tt))
        c
]
