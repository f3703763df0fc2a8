-- ===== src/Net/WebSocket/Session/Wire.antt =====
-- The frame that the reader of a WebSocket session in src/net.rs takes off the wire.
use mux_runtime.Common.{
  ℕ, ◌%◌, ◌/◌, ◌≤◌, ◌≡◌, refl, sym, ap, ◌∙◌, subst, arith, Bool, true, false, leb, if◌then◌else◌,
  Option, none, some, List, [], ◌∷◌, ◌++◌, append_assoc, length, length-append, take, drop, ok,
  ◌>>=◌, >>=-eq-ok,
}
use mux_runtime.Common.Int.{ℤ, pos}
use mux_runtime.Net.WebSocket.{
  read_failed, Frame, Framed, Key, max_frame_bytes, mask_from, validate_opcode, validate_contents,
  validate_frame, read_length, checked_frame, encode_body, encode_frame,
}
use mux_runtime.Net.WebSocket.RoundTrip.{
  ok_inj, length_field-back, length-mask_from, mask_from-twice, validate_opcode-ok, first_byte,
  checked_size-ok, contents_size, frame_checked,
}
use mux_runtime.Net.WebSocket.Session.{read_masked, read_frame}
use Prim.Native.Nat.{bit_or}

take-append_self : (xs ys : List ℕ) → take (length xs) (xs ++ ys) ≡ xs
take-append_self [] ys = refl
take-append_self (x ∷ xs) ys = ap (λ z. x ∷ z) (take-append_self xs ys)

drop-append_self : (xs ys : List ℕ) → drop (length xs) (xs ++ ys) ≡ ys
drop-append_self [] ys = refl
drop-append_self (x ∷ xs) ys = drop-append_self xs ys

read_masked-back :
    (key : Key) (bs more : List ℕ)
    → read_masked
        (length bs)
        (key.byte0 ∷ key.byte1 ∷ key.byte2 ∷ key.byte3 ∷ mask_from key 0 bs ++ more)
      ≡ ok (bs, more)
unfolding read_masked
read_masked-back key bs more =
    let size = length-mask_from key 0 bs in
    let there : leb (length bs) (length (mask_from key 0 bs ++ more)) ≡ true =
      ground (arith, size, length-append (mask_from key 0 bs) more) in
    let front =
      subst (λ n. take n (mask_from key 0 bs ++ more) ≡ mask_from key 0 bs) size
        (take-append_self (mask_from key 0 bs) more) in
    let behind =
      subst (λ n. drop n (mask_from key 0 bs ++ more) ≡ more) size
        (drop-append_self (mask_from key 0 bs) more) in
    rw (there, front, behind, mask_from-twice key 0 bs) refl

body_of :
    (key : Option Key) (fin : Bool) (opcode : ℤ) (bs body more : List ℕ)
    → encode_body key (record { fin = fin; opcode = opcode; payload = bs; masked = true }) ≡ ok body
    → read_masked (length bs) (body ++ more) ≡ ok (bs, more)
unfolding encode_body
body_of none fin opcode bs body more h = cc
body_of (some k) fin opcode bs body more h =
    subst (λ z. read_masked (length bs) (z ++ more) ≡ ok (bs, more)) (ok_inj h)
      (read_masked-back k bs more)

abbrev the_frame : Frame → Framed Frame
the_frame entry = ok entry

abbrev with_rest : Frame → List ℕ → Framed (Frame × List ℕ)
with_rest entry more = ok (entry, more)

module _ (utf8 : List ℕ → Bool) where
  -- the end of the reader, at what the opcode's check yields
  abbrev finished : Framed ℕ → Frame → List ℕ → Framed (Frame × List ℕ)
  finished w frame more =
      ((w >>= λ o. validate_contents utf8 o frame) >>= λ v. the_frame frame) >>= λ e.
      with_rest e more

  -- the steps of the reader at a masked frame with valid parts
  read_parts :
      (first second : ℕ) (rest body more : List ℕ) (fin : Bool) (opcode n : ℕ) (payload : List ℕ)
      → (first / 16 % 8 ≡ 0) × (first % 16 ≡ opcode) × (leb 128 first ≡ fin)
      → validate_opcode (pos opcode) ≡ ok n
      → leb 128 second ≡ true
      → read_length read_failed (second % 128) rest ≡ ok (length payload, body)
      → length payload ≤ max_frame_bytes
      → read_masked (length payload) body ≡ ok (payload, more)
      → checked_frame utf8
          (record { fin = fin; opcode = pos opcode; payload = payload; masked = false })
        ≡ ok (record { fin = fin; opcode = pos opcode; payload = payload; masked = false })
      → read_frame utf8 (first ∷ second ∷ rest)
        ≡ ok (record { fin = fin; opcode = pos opcode; payload = payload; masked = false }, more)
  unfolding read_frame
  read_parts first second rest body more fin opcode n payload (r, o, f) v m l s p c =
      rw (r, o, f, v, m, l, checked_size-ok (length payload) s, p)
        (let frame : Frame = record {
          fin = fin;
          opcode = pos opcode;
          payload = payload;
          masked = false;
        } in
          subst (λ w. finished w frame more ≡ with_rest frame more) v
            (ap (λ (z : Framed Frame). z >>= λ entry. with_rest entry more) c))

  -- The reader takes a masked frame that was encoded off the wire, unmasked, and leaves what was sent
  -- behind it.
  pub read_frame-encode_frame :
      (key : Option Key) (entry : Frame) (bytes more : List ℕ)
      → entry.masked ≡ true
      → encode_frame utf8 key entry ≡ ok bytes
      → read_frame utf8 (bytes ++ more) ≡ ok (record entry { masked = false }, more)
  unfolding encode_frame validate_frame
  read_frame-encode_frame key entry bytes more masked h =
      let (opcode, valid, h1) = >>=-eq-ok (validate_frame utf8 entry) _ h in
      let (body, encoded, h2) = >>=-eq-ok (encode_body key entry) _ h1 in
      let (n, named, contents) = >>=-eq-ok (validate_opcode entry.opcode) _ valid in
      let (same, size) = contents_size utf8 n entry opcode contents in
      let (is_n, small) = validate_opcode-ok entry.opcode n named in
      let (second, tail, field, top, back) =
        length_field-back read_failed entry.masked (length entry.payload) (body ++ more) size in
      let start = ap (λ z. bit_or (if entry.fin then 128 else 0) opcode ∷ z ++ body) field in
      let masked_entry =
        subst (λ b. encode_body key (record entry { masked = b }) ≡ ok body) masked encoded in
      let is_opcode = ap pos same ∙ sym is_n in
      subst (λ z. read_frame utf8 (z ++ more) ≡ ok (record entry { masked = false }, more))
        (sym start ∙ ok_inj h2)
        (ap (λ z. read_frame utf8 (bit_or (if entry.fin then 128 else 0) opcode ∷ second ∷ z))
            (append_assoc tail body more)
          ∙ subst
              (λ z.
                read_frame utf8
                  (bit_or (if entry.fin then 128 else 0) opcode ∷ second ∷ tail ++ (body ++ more))
                ≡ ok (record entry { opcode = z; masked = false }, more))
              is_opcode
              (read_parts (bit_or (if entry.fin then 128 else 0) opcode) second
                (tail ++ (body ++ more)) (body ++ more) more entry.fin opcode n entry.payload
                (first_byte entry.fin opcode (subst (λ z. z ≤ 10) (sym same) small))
                (ap validate_opcode is_opcode ∙ named) (top ∙ masked) back size
                (body_of key entry.fin entry.opcode entry.payload body more masked_entry)
                (subst
                  (λ z.
                    checked_frame utf8 (record entry { opcode = z; masked = false })
                    ≡ ok (record entry { opcode = z; masked = false }))
                  (sym is_opcode)
                  (frame_checked utf8 (record entry { masked = false }) opcode valid))))
