-- ===== src/Net/WebSocket.antt =====
-- The frames of a WebSocket in src/net.rs: checks, the wire format and the assembly of fragments. A byte
-- is a number below 256. UTF-8 validity is a parameter, and the masking key, which the getrandom
-- crate draws, an argument.
pub mod RoundTrip
pub mod Assembly
pub mod Session
use mux_runtime.Common.{
  ℕ, zero, suc, ◌+◌, ◌*◌, ◌/◌, ◌%◌, Bool, true, false, ◌&&◌, ◌||◌, not, ltb, leb, ◌==◌,
  if◌then◌else◌, Option, none, some, List, [], ◌∷◌, ◌++◌, length, Result, ok, err, ◌>>=◌,
}
use mux_runtime.Common.Int.{ℤ, pos, negsuc}
use Prim.Native.Nat.{bit_or, bit_xor}

pub data FrameError : Type 0 where
  opcode_not_byte : FrameError
  unsupported_opcode : FrameError
  payload_too_large : FrameError
  control_without_fin : FrameError
  control_too_long : FrameError
  text_not_utf8 : FrameError
  close_of_one_byte : FrameError
  no_mask_key : FrameError
  truncated : FrameError
  reserved_bits : FrameError
  length_truncated : FrameError
  length_not_canonical : FrameError
  length_high_bit : FrameError
  trailing_or_truncated : FrameError
  no_frames : FrameError
  starts_without_data : FrameError
  trailing_frames : FrameError
  starts_as_final : FrameError
  mixed_masking : FrameError
  new_data_frame : FrameError
  message_too_large : FrameError
  missing_final : FrameError
  read_failed : FrameError
  write_failed : FrameError
  not_masked : FrameError
  no_open_message : FrameError
  overlapping_message : FrameError

-- `WebSocketFrameEntry`, less the count of its handles
pub record Frame : Type 0 where
  pub fin : Bool
  pub opcode : ℤ
  pub payload : List ℕ
  pub masked : Bool

abbrev pub Framed : Type 0 → Type 0
Framed A = Result FrameError A

-- `MAX_WEBSOCKET_FRAME_BYTES`
abbrev pub max_frame_bytes : ℕ
max_frame_bytes = 16777216

unfoldable pub validate_opcode : ℤ → Framed ℕ
validate_opcode (negsuc n) = err opcode_not_byte
validate_opcode (pos n) =
    if ltb 255 n
    then err opcode_not_byte
    else if n == 0 || n == 1 || n == 2 || n == 8 || n == 9 || n == 10
    then ok n
    else err unsupported_opcode

-- the masking key of four bytes
pub record Key : Type 0 where
  pub byte0 : ℕ
  pub byte1 : ℕ
  pub byte2 : ℕ
  pub byte3 : ℕ

-- `key[index]`
abbrev pub key_at : Key → ℕ → ℕ
key_at key zero = key.byte0
key_at key (suc zero) = key.byte1
key_at key (suc (suc zero)) = key.byte2
key_at key (suc (suc (suc i))) = key.byte3

-- `*byte ^= key[index % key.len()]`, from an index on
unfoldable pub mask_from : Key → ℕ → List ℕ → List ℕ
mask_from key index [] = []
mask_from key index (b ∷ bs) = bit_xor b (key_at key (index % 4)) ∷ mask_from key (suc index) bs

-- `(x as u16).to_be_bytes()` and `(x as u64).to_be_bytes()`
abbrev pub be16 : ℕ → List ℕ
be16 x = x / 256 % 256 ∷ x % 256 ∷ []

abbrev pub be64 : ℕ → List ℕ
be64 x =
    x / 72057594037927936 % 256
    ∷ x / 281474976710656 % 256
    ∷ x / 1099511627776 % 256
    ∷ x / 4294967296 % 256
    ∷ x / 16777216 % 256
    ∷ x / 65536 % 256
    ∷ x / 256 % 256
    ∷ x % 256
    ∷ []

-- the second byte and the length behind it
unfoldable pub length_field : Bool → ℕ → List ℕ
length_field masked n =
    let mask_bit = if masked then 128 else 0 in
    if leb n 125
    then bit_or mask_bit n ∷ []
    else if leb n 65535
    then bit_or mask_bit 126 ∷ be16 n
    else bit_or mask_bit 127 ∷ be64 n

-- The match on the length code, with the error where the length is cut off. The remaining bytes come
-- with the length.
unfoldable pub read_length : FrameError → ℕ → List ℕ → Framed (ℕ × List ℕ)
read_length cut code rest =
    if leb code 125
    then ok (code, rest)
    else if code == 126
    then read_length16 rest
    else read_length64 rest
  where
    read_length16 : List ℕ → Framed (ℕ × List ℕ)
    read_length16 (a ∷ b ∷ rest) =
        let n = a * 256 + b in if ltb n 126 then err length_not_canonical else ok (n, rest)
    read_length16 _ = err cut

    read_length64 : List ℕ → Framed (ℕ × List ℕ)
    read_length64 (a ∷ b ∷ c ∷ d ∷ e ∷ f ∷ g ∷ h ∷ rest) =
        let n =
          ((((((a * 256 + b) * 256 + c) * 256 + d) * 256 + e) * 256 + f) * 256 + g) * 256 + h in
        if leb 9223372036854775808 n then err length_high_bit else ok (n, rest)
    read_length64 _ = err cut

-- The masking key and the payload. The sum of the offset and the lengths is within a `usize`, since the
-- length is within its bound.
unfoldable pub read_payload : Bool → ℕ → List ℕ → Framed (List ℕ)
unfolding mask_from
read_payload true n (a ∷ b ∷ c ∷ d ∷ rest) =
    if length rest == n
    then ok (mask_from (record { byte0 = a; byte1 = b; byte2 = c; byte3 = d }) 0 rest)
    else err trailing_or_truncated
read_payload true n _ = err trailing_or_truncated
read_payload false n rest = if length rest == n then ok rest else err trailing_or_truncated

unfoldable pub checked_size : ℕ → Framed ℕ
checked_size n = if ltb max_frame_bytes n then err payload_too_large else ok n

-- The key is `none` where no random bytes can be had.
unfoldable pub encode_body : Option Key → Frame → Framed (List ℕ)
unfolding mask_from
encode_body key entry =
    if entry.masked
    then elim key [
      | some k ↦ ok (k.byte0 ∷ k.byte1 ∷ k.byte2 ∷ k.byte3 ∷ mask_from k 0 entry.payload)
      | none ↦ err no_mask_key
    ]
    else ok entry.payload

module _ (utf8 : List ℕ → Bool) where
  -- the checks of `validate_websocket_frame` behind its opcode
  unfoldable pub validate_contents : ℕ → Frame → Framed ℕ
  validate_contents opcode entry =
      let n = length entry.payload in
      if ltb max_frame_bytes n
      then err payload_too_large
      else if leb 8 opcode && not entry.fin
      then err control_without_fin
      else if leb 8 opcode && ltb 125 n
      then err control_too_long
      else if opcode == 1 && entry.fin && not (utf8 entry.payload)
      then err text_not_utf8
      else if opcode == 8 && n == 1
      then err close_of_one_byte
      else ok opcode

  unfoldable pub validate_frame : Frame → Framed ℕ
  unfolding validate_opcode validate_contents
  validate_frame entry = do opcode ← validate_opcode entry.opcode; validate_contents opcode entry

  -- an entry that its checks accept
  unfoldable pub checked_frame : Frame → Framed Frame
  unfolding validate_frame
  checked_frame entry = do v ← validate_frame entry; ok entry

  unfoldable pub encode_frame : Option Key → Frame → Framed (List ℕ)
  unfolding validate_frame length_field encode_body
  encode_frame key entry = do
    opcode ← validate_frame entry
    body ← encode_body key entry
    ok (
        bit_or (if entry.fin then 128 else 0) opcode
          ∷ length_field entry.masked (length entry.payload)
        ++ body)

  -- `&` with a mask of the first or second byte is a quotient or a remainder.
  unfoldable pub decode_frame : List ℕ → Framed Frame
  unfolding validate_opcode read_length read_payload checked_size checked_frame
  decode_frame (first ∷ second ∷ rest) =
      if not (first / 16 % 8 == 0) then err reserved_bits else (do
        opcode ← validate_opcode (pos (first % 16))
        let masked = leb 128 second
        (n, rest) ← read_length length_truncated (second % 128) rest
        size ← checked_size n
        payload ← read_payload masked size rest
        checked_frame (record {
          fin = leb 128 first;
          opcode = pos (first % 16);
          payload = payload;
          masked = masked;
        }))
  decode_frame _ = err truncated
