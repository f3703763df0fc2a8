-- ===== src/Bytes/Cursor/Laws.antt =====
-- The cursors of src/bytes.rs: the position never passes the end of the buffer, and what was written
-- is what is read.
use mux_runtime.Common.{
  ℕ, ◌+◌, ◌-◌, ◌*◌, ◌^◌, ◌≤◌, replicate, subst, length-take, length-drop, length-splice, ◌<◌, ◌≡◌,
  refl, sym, ap, ◌∙◌, arith, Bool, List, ◌++◌, length, length-append, length-replicate, take, drop,
  Result, ok, ◌>>=◌, >>=-eq-ok,
}
use mux_runtime.Common.Int.{ℤ, pos, negsuc, IsI64}
use mux_runtime.Bytes.Value.{BytesError, checked_add_usize, usize_max}
use mux_runtime.Bytes.Uint.{checked_width, checked_value, try_i64, read_loop, write_loop}
use mux_runtime.Bytes.Uint.Laws.{
  checked_width-ok, checked_value-ok, try_i64-eq, length-write_loop, loops_inverse, value_fits,
  spliced,
}
use mux_runtime.Bytes.Cursor.{
  CursorEntry, cursor_range, range_bytes, cursor_read_uint, cursor_write_uint, cursor_end,
  overwritten, grown,
}

-- the invariant of an entry
abbrev pub Within : CursorEntry → Type 0
Within e = e.position ≤ length e.bytes

cursor_range-ok :
    (e : CursorEntry) (w s end : ℕ)
    → cursor_range e w ≡ ok (s, end)
    → (s ≡ e.position) × (end ≡ e.position + w) × (end ≤ length e.bytes)
unfolding cursor_range checked_add_usize
cursor_range-ok e w s end h = ground arith

abbrev read_result : CursorEntry → ℤ → Result BytesError (CursorEntry × ℤ)
read_result e v = ok (e, v)

entry_inj : (e e' : CursorEntry) (n v : ℤ) → read_result e n ≡ ok (e', v) → e ≡ e'
entry_inj e e' n v h = cc

abbrev write_result : CursorEntry → Result BytesError CursorEntry
write_result e = ok e

overwritten_inj :
    (e e' : CursorEntry) (little : Bool) (w v n end : ℕ)
    → v ≡ n
    → end ≡ e.position + w
    → write_result (overwritten e end (λ slots. write_loop little w v slots 0)) ≡ ok e'
    → overwritten e (e.position + w) (λ slots. write_loop little w n slots 0) ≡ e'
overwritten_inj e e' little w v n end p q h =
    ap (λ z. overwritten e z (λ slots. write_loop little w n slots 0)) (sym q)
    ∙ ap (λ z. overwritten e end (λ slots. write_loop little w z slots 0)) (sym p)
    ∙ inj _ _ h
  where
    inj : (a b : CursorEntry) → write_result a ≡ ok b → a ≡ b
    inj a b h = cc

-- A read of an unsigned number moves the position on by one to eight bytes, to a place still inside
-- the buffer, and leaves the buffer and the count of handles.
pub cursor_read_uint-Within :
    (e e' : CursorEntry) (width v : ℤ) (little : Bool)
    → cursor_read_uint e width little ≡ ok (e', v)
    → (e.position < e'.position) × Within e' × (e'.bytes ≡ e.bytes) × (e'.names ≡ e.names)
unfolding cursor_read_uint
cursor_read_uint-Within e e' width v little h =
    let (w, ew, h1) = >>=-eq-ok (checked_width width) _ h in
    let ((s, end), er, h2) = >>=-eq-ok (cursor_range e w) _ h1 in
    let (n, ev, h3) = >>=-eq-ok (try_i64 (read_loop little w (range_bytes e end) 0 0)) _ h2 in
    let (es, ee, le) = cursor_range-ok e w s end er in
    let (_, one, eight) = checked_width-ok width w ew in
    subst (λ z. (e.position < z.position) × Within z × (z.bytes ≡ e.bytes) × (z.names ≡ e.names))
      (entry_inj (record e { position = end }) e' n v h3) (omega arith, omega arith, refl, refl)

cursor_end-ok :
    (e : CursorEntry) (w end : ℕ)
    → cursor_end e w ≡ ok end
    → (end ≡ e.position + w) × (e.position + w ≤ usize_max)
unfolding cursor_end checked_add_usize
cursor_end-ok e w end h = ground arith

cursor_range-eq :
    (e : CursorEntry) (w : ℕ)
    → e.position + w ≤ length e.bytes
    → e.position + w ≤ usize_max
    → cursor_range e w ≡ ok (e.position, e.position + w)
unfolding cursor_range checked_add_usize
cursor_range-eq e w h k = ground arith

le-length-grown : (end : ℕ) (bs : List ℕ) → end ≤ length (grown end bs)
unfolding grown
le-length-grown end bs = omega (
  arith,
  length-append bs (replicate (end - length bs) 0),
  length-replicate {A = ℕ} (end - length bs) 0,
)

-- The entry that a write leaves, seen from where it began
read_back :
    (e : CursorEntry) (width : ℤ) (little : Bool) (w n : ℕ)
    → checked_width width ≡ ok w
    → IsI64 (pos n)
    → (w < 8 → n < 2 ^ (w * 8))
    → e.position + w ≤ usize_max
    → let e' = overwritten e (e.position + w) (λ slots. write_loop little w n slots 0) in
      Within e'
      × (cursor_read_uint (record e' { position = e.position }) width little ≡ ok (e', pos n))
unfolding overwritten cursor_read_uint range_bytes
read_back e width little w n ew fits bound le =
    let p = e.position in
    let e' = overwritten e (p + w) (λ slots. write_loop little w n slots 0) in
    let g = grown (p + w) e.bytes in
    let (_, one, eight) = checked_width-ok width w ew in
    let room = le-length-grown (p + w) e.bytes in
    let same : p + w - p ≡ w = omega arith in
    let cut : length (take w (drop p g)) ≡ w =
      omega (arith, length-take w (drop p g), length-drop p g) in
    let slots : take (p + w - p) (drop p g) ≡ take w (drop p g) =
      ap (λ (k : ℕ). take k (drop p g)) same in
    let bs : e'.bytes
        ≡ take p g ++ (write_loop little w n (take w (drop p g)) 0 ++ drop (p + w) g) =
      ap (λ z. take p g ++ (write_loop little w n z 0 ++ drop (p + w) g)) slots in
    let len : length e'.bytes ≡ length g =
      ap length bs
      ∙ length-splice p w g (write_loop little w n (take w (drop p g)) 0)
          (length-write_loop w n little (take w (drop p g)) 0 ∙ cut) room in
    let value : read_loop little w (take (p + w - p) (drop p e'.bytes)) 0 0 ≡ n =
      ap (λ (k : ℕ). read_loop little w (take k (drop p e'.bytes)) 0 0) same
      ∙ ap (λ z. read_loop little w (take w (drop p z)) 0 0) bs
      ∙ ap (λ z. read_loop little w z 0 0) (spliced little g p w n room)
      ∙ loops_inverse little w n (take w (drop p g)) cut (value_fits w n eight fits bound) in
    (
      omega arith,
      ap
            (λ z. z >>= λ w'. cursor_range (record e' { position = p }) w' >>= λ r.
              try_i64 (read_loop little w' (take (r.1 - p) (drop p e'.bytes)) 0 0) >>= λ v.
              ok (record e' { position = r.1 }, v))
            ew
          ∙ ap
              (λ z. z >>= λ r.
                try_i64 (read_loop little w (take (r.1 - p) (drop p e'.bytes)) 0 0) >>= λ v.
                ok (record e' { position = r.1 }, v))
              (cursor_range-eq (record e' { position = p }) w (omega arith) le)
          ∙ ap (λ z. z >>= λ v. ok (record e' { position = p + w }, v))
              (ap try_i64 value ∙ try_i64-eq n fits),
    )

-- A write of an `i64` at the position, which grows the buffer where it must, leaves the position inside
-- the buffer; moved back to where the write began, the cursor reads the same number and stands where
-- the write left it.
pub cursor_read_uint-cursor_write_uint :
    (e e' : CursorEntry) (number width : ℤ) (little : Bool)
    → IsI64 number
    → cursor_write_uint e number width little ≡ ok e'
    → Within e'
      × (cursor_read_uint (record e' { position = e.position }) width little ≡ ok (e', number))
unfolding cursor_write_uint
cursor_read_uint-cursor_write_uint e e' (negsuc n) width little fits h = absurd (cc)
cursor_read_uint-cursor_write_uint e e' (pos n) width little fits h =
    let (w, ew, h1) = >>=-eq-ok (checked_width width) _ h in
    let (v, ev, h2) = >>=-eq-ok (checked_value w n) _ h1 in
    let (end, ee, h3) = >>=-eq-ok (cursor_end e w) _ h2 in
    let (ev', bound) = checked_value-ok w n v ev in
    let (ee', le) = cursor_end-ok e w end ee in
    let shown = overwritten_inj e e' little w v n end ev' ee' h3 in
    subst
      (λ z.
        Within z
        × (cursor_read_uint (record z { position = e.position }) width little ≡ ok (z, pos n)))
      shown (read_back e width little w n ew fits bound le)
