-- ===== src/Net/WebSocket/RoundTrip.antt =====
-- The encoder and the decoder of frames in src/net.rs, one behind the other.
use mux_runtime.Common.{
  ℕ, suc, ◌+◌, ◌*◌, ◌/◌, ◌%◌, ◌≤◌, ◌<◌, ◌≡◌, refl, sym, ap, ◌∙◌, subst, arith, Bool, true, false,
  Bool-cases, inl, inr, ltb, leb, ◌==◌, if◌then◌else◌, Option, none, some, List, [], ◌∷◌, ◌++◌,
  length, ok, >>=-eq-ok,
}
use mux_runtime.Common.Int.{ℤ, pos, negsuc}
use mux_runtime.Common.Bits.{bit_or_high}
use mux_runtime.Common.Xor.{xor_twice}
use mux_runtime.Net.WebSocket.{
  FrameError, length_truncated, Frame, Framed, max_frame_bytes, Key, key_at, mask_from, be16, be64,
  length_field, read_length, read_payload, validate_opcode, validate_contents, validate_frame,
  checked_size, checked_frame, encode_body, encode_frame, decode_frame,
}
use Prim.Native.Nat.{bit_or}

-- the upper bit of a byte beside the rest
top_bit :
    (b : Bool) (n : ℕ) → n < 128 → bit_or (if b then 128 else 0) n ≡ (if b then 128 else 0) + n
top_bit true n h = bit_or_high 7 1 n (omega arith)
top_bit false n h = bit_or_high 7 0 n (omega arith)

top_bit_back :
    (b : Bool) (n : ℕ)
    → n < 128
    → (leb 128 ((if b then 128 else 0) + n) ≡ b) × (((if b then 128 else 0) + n) % 128 ≡ n)
top_bit_back true n h = ground arith
top_bit_back false n h = ground arith

read_length-short :
    (cut : FrameError) (n : ℕ) (body : List ℕ)
    → leb n 125 ≡ true
    → read_length cut n body ≡ ok (n, body)
unfolding read_length
read_length-short cut n body h = rw h refl

read_length-be16 :
    (cut : FrameError) (n : ℕ) (body : List ℕ)
    → leb n 125 ≡ false
    → leb n 65535 ≡ true
    → read_length cut 126 (be16 n ++ body) ≡ ok (n, body)
unfolding read_length
read_length-be16 cut n body h k =
    let whole : n / 256 % 256 * 256 + n % 256 ≡ n = ground arith in
    let wide : ltb n 126 ≡ false = ground arith in rw (whole, wide) refl

value64 :
    (n : ℕ)
    → n ≤ max_frame_bytes
    → ((((((n / 72057594037927936 % 256 * 256 + n / 281474976710656 % 256) * 256
                            + n / 1099511627776 % 256)
                          * 256
                        + n / 4294967296 % 256)
                      * 256
                    + n / 16777216 % 256)
                  * 256
                + n / 65536 % 256)
              * 256
            + n / 256 % 256)
          * 256
        + n % 256
      ≡ n
value64 n h = omega arith

read_length-be64 :
    (cut : FrameError) (n : ℕ) (body : List ℕ)
    → n ≤ max_frame_bytes
    → read_length cut 127 (be64 n ++ body) ≡ ok (n, body)
unfolding read_length
read_length-be64 cut n body h =
    let low : leb 9223372036854775808 n ≡ false = ground arith in rw (value64 n h, low) refl

-- The length comes back with what stands behind it.
abbrev pub LengthBack : FrameError → Bool → ℕ → List ℕ → List ℕ → Type 0
LengthBack cut masked n body field =
    (second : ℕ) × (tail : List ℕ) × (field ≡ second ∷ tail)
    × (leb 128 second ≡ masked)
    × (read_length cut (second % 128) (tail ++ body) ≡ ok (n, body))

coded :
    (cut : FrameError) (masked : Bool) (code n : ℕ) (tail body : List ℕ)
    → code < 128
    → read_length cut code (tail ++ body) ≡ ok (n, body)
    → LengthBack cut masked n body (bit_or (if masked then 128 else 0) code ∷ tail)
coded cut masked code n tail body h k =
    let (bit, rest) = top_bit_back masked code h in
    ((if masked then 128 else 0) + code, tail, rw (top_bit masked code h) refl, bit, rw rest k)

below_128 : (n : ℕ) → leb n 125 ≡ true → n < 128
below_128 n h = ground arith

pub length_field-back :
    (cut : FrameError) (masked : Bool) (n : ℕ) (body : List ℕ)
    → n ≤ max_frame_bytes
    → LengthBack cut masked n body (length_field masked n)
unfolding length_field
length_field-back cut masked n body h = elim (Bool-cases (leb n 125)) [
  | inl short ↦
      rw short
        (coded cut masked n n [] body (below_128 n short) (read_length-short cut n body short))
  | inr long ↦ elim (Bool-cases (leb n 65535)) [
    | inl middle ↦
        rw (long, middle)
          (coded cut masked 126 n (be16 n) body (omega arith)
            (read_length-be16 cut n body long middle))
    | inr big ↦
        rw (long, big)
          (coded cut masked 127 n (be64 n) body (omega arith) (read_length-be64 cut n body h))
  ]
]

pub length-mask_from : (key : Key) (i : ℕ) (bs : List ℕ) → length (mask_from key i bs) ≡ length bs
unfolding mask_from
length-mask_from key i [] = refl
length-mask_from key i (b ∷ bs) = ap suc (length-mask_from key (suc i) bs)

pub mask_from-twice : (key : Key) (i : ℕ) (bs : List ℕ) → mask_from key i (mask_from key i bs) ≡ bs
unfolding mask_from
mask_from-twice key i [] = refl
mask_from-twice key i (b ∷ bs) =
    rw (xor_twice b (key_at key (i % 4)), mask_from-twice key (suc i) bs) refl

read_payload-mask_from :
    (key : Key) (bs : List ℕ)
    → read_payload true
        (length bs)
        (key.byte0 ∷ key.byte1 ∷ key.byte2 ∷ key.byte3 ∷ mask_from key 0 bs)
      ≡ ok bs
unfolding read_payload
read_payload-mask_from key bs =
    let same : (length (mask_from key 0 bs) == length bs) ≡ true =
      ground (arith, length-mask_from key 0 bs) in
    rw same (ap ok (mask_from-twice key 0 bs))

read_payload-plain : (bs : List ℕ) → read_payload false (length bs) bs ≡ ok bs
unfolding read_payload
read_payload-plain bs = let same : (length bs == length bs) ≡ true = ground arith in rw same refl

-- the opcodes that are accepted
pub validate_opcode-ok : (z : ℤ) (n : ℕ) → validate_opcode z ≡ ok n → (z ≡ pos n) × (n ≤ 10)
unfolding validate_opcode
validate_opcode-ok (pos m) n h = ground arith
validate_opcode-ok (negsuc m) n h = cc

pub first_byte :
    (b : Bool) (n : ℕ)
    → n ≤ 10
    → (bit_or (if b then 128 else 0) n / 16 % 8 ≡ 0)
      × (bit_or (if b then 128 else 0) n % 16 ≡ n)
      × (leb 128 (bit_or (if b then 128 else 0) n) ≡ b)
first_byte true n h = rw (top_bit true n (omega arith)) (omega arith, omega arith, ground arith)
first_byte false n h = rw (top_bit false n (omega arith)) (omega arith, omega arith, ground arith)

abbrev pub framed : {A : Type 0} → A → Framed A
framed a = ok a

pub ok_inj : {A : Type 0} {a b : A} → framed a ≡ framed b → a ≡ b
ok_inj h = cc

body_back :
    (key : Option Key) (masked fin : Bool) (opcode : ℤ) (bs body : List ℕ)
    → encode_body key (record { fin = fin; opcode = opcode; payload = bs; masked = masked })
      ≡ ok body
    → read_payload masked (length bs) body ≡ ok bs
unfolding encode_body
body_back none true fin opcode bs body h = cc
body_back (some k) true fin opcode bs body h =
    subst (λ z. read_payload true (length bs) z ≡ ok bs) (ok_inj h) (read_payload-mask_from k bs)
body_back key false fin opcode bs body h =
    subst (λ z. read_payload false (length bs) z ≡ ok bs) (ok_inj h) (read_payload-plain bs)

pub checked_size-ok : (n : ℕ) → n ≤ max_frame_bytes → checked_size n ≡ ok n
unfolding checked_size
checked_size-ok n h = ground arith

module _ (utf8 : List ℕ → Bool) where
  pub contents_size :
      (n : ℕ) (entry : Frame) (m : ℕ)
      → validate_contents utf8 n entry ≡ ok m
      → (m ≡ n) × (length entry.payload ≤ max_frame_bytes)
  unfolding validate_contents
  contents_size n entry m h = ground arith

  -- the steps of the decoder at a frame with valid parts
  decode_parts :
      (first second : ℕ) (rest body : List ℕ) (fin masked : Bool) (opcode n : ℕ) (payload : List ℕ)
      → (first / 16 % 8 ≡ 0) × (first % 16 ≡ opcode) × (leb 128 first ≡ fin)
      → validate_opcode (pos opcode) ≡ ok n
      → leb 128 second ≡ masked
      → read_length length_truncated (second % 128) rest ≡ ok (length payload, body)
      → length payload ≤ max_frame_bytes
      → read_payload masked (length payload) body ≡ ok payload
      → decode_frame utf8 (first ∷ second ∷ rest)
        ≡ checked_frame utf8
            (record { fin = fin; opcode = pos opcode; payload = payload; masked = masked })
  unfolding decode_frame
  decode_parts first second rest body fin masked opcode n payload (r, o, f) v m l s p =
      rw (r, o, f, v, m, l, checked_size-ok (length payload) s, p) refl

  pub frame_checked :
      (entry : Frame) (n : ℕ)
      → validate_frame utf8 entry ≡ ok n
      → checked_frame utf8 entry ≡ ok entry
  unfolding checked_frame
  frame_checked entry n h = rw h refl

  -- Decoding takes a frame that was encoded back to itself: its flags, its opcode and its payload, masked
  -- or not and of any length, with whatever masking key was drawn.
  pub decode_frame-encode_frame :
      (key : Option Key) (entry : Frame) (bytes : List ℕ)
      → encode_frame utf8 key entry ≡ ok bytes
      → decode_frame utf8 bytes ≡ ok entry
  unfolding encode_frame validate_frame
  decode_frame-encode_frame key entry bytes h =
      let (opcode, valid, h1) = >>=-eq-ok (validate_frame utf8 entry) _ h in
      let (body, encoded, h2) = >>=-eq-ok (encode_body key entry) _ h1 in
      let (n, named, contents) = >>=-eq-ok (validate_opcode entry.opcode) _ valid in
      let (same, size) = contents_size n entry opcode contents in
      let (is_n, small) = validate_opcode-ok entry.opcode n named in
      let (second, tail, field, top, back) =
        length_field-back length_truncated entry.masked (length entry.payload) body size in
      let start = ap (λ z. bit_or (if entry.fin then 128 else 0) opcode ∷ z ++ body) field in
      subst (λ z. decode_frame utf8 z ≡ ok entry) (sym start ∙ ok_inj h2)
        (decode_parts (bit_or (if entry.fin then 128 else 0) opcode) second (tail ++ body) body
            entry.fin entry.masked opcode n entry.payload
            (first_byte entry.fin opcode (subst (λ z. z ≤ 10) (sym same) small))
            (ap validate_opcode (ap pos same ∙ sym is_n) ∙ named) top back size
            (body_back key entry.masked entry.fin entry.opcode entry.payload body encoded)
          ∙ ap (λ z. checked_frame utf8 (record entry { opcode = z })) (ap pos same ∙ sym is_n)
          ∙ frame_checked entry opcode valid)
