-- ===== src/Net/WebSocket/Session.antt =====
-- The reader of a WebSocket session in src/net.rs: one frame and one message from a socket, with the
-- answers to pings and to a close. A read past the end of the input fails.
pub mod Ends
pub mod Wire
use mux_runtime.Common.{
  ℕ, zero, suc, ◌+◌, ◌-◌, ◌*◌, ◌/◌, ◌%◌, Bool, true, false, ◌&&◌, ◌||◌, not, ltb, leb, ◌==◌,
  if◌then◌else◌, Option, none, some, List, [], ◌∷◌, ◌++◌, length, take, drop, Result, ok, err,
  ◌>>=◌,
}
use mux_runtime.Common.Int.{ℤ, pos, negsuc}
use mux_runtime.Net.WebSocket.{
  FrameError, reserved_bits, message_too_large, read_failed, write_failed, not_masked,
  no_open_message, overlapping_message, Frame, Framed, Key, max_frame_bytes, mask_from,
  validate_opcode, read_length, checked_size, checked_frame, encode_frame,
}

-- what the peer has sent and is not read yet, what was written, and whether the peer still takes it
pub record Socket : Type 0 where
  pub input : List ℕ
  pub output : List ℕ
  pub writable : Bool

-- the opcode and the payload so far of a message whose last fragment has not come
abbrev pub Fragments : Type 0
Fragments = Option (ℕ × List ℕ)

-- The masking key and the payload, with the bytes behind it
unfoldable pub read_masked : ℕ → List ℕ → Framed (List ℕ × List ℕ)
unfolding mask_from
read_masked n (a ∷ b ∷ c ∷ d ∷ rest) =
    if leb n (length rest)
    then ok (
      mask_from (record { byte0 = a; byte1 = b; byte2 = c; byte3 = d }) 0 (take n rest),
      drop n rest,
    )
    else err read_failed
read_masked n _ = err read_failed

-- `frame.opcode as u8`
abbrev pub low_byte : ℤ → ℕ
low_byte (pos n) = n % 256
low_byte (negsuc n) = 255 - n % 256

-- what a frame leads to: an answer to a ping, nothing, a message that goes on, a close with its answer,
-- or a message
pub data Action : Type 0 where
  pongs : Frame → Action
  skips : Action
  goes_on : Fragments → Action
  closes : Frame → Frame → Action
  returns : Frame → Action

module _ (utf8 : List ℕ → Bool) where
  -- `read_websocket_frame`, with the input behind it
  unfoldable pub read_frame : List ℕ → Framed (Frame × List ℕ)
  unfolding validate_opcode read_length checked_size read_masked checked_frame
  read_frame (first ∷ second ∷ rest) = if not (first / 16 % 8 == 0) then err reserved_bits else (do
    opcode ← validate_opcode (pos (first % 16))
    if not (leb 128 second) then err not_masked else (do
      (n, behind) ← read_length read_failed (second % 128) rest
      size ← checked_size n
      (payload, more) ← read_masked size behind
      entry ← checked_frame utf8 (record {
        fin = leb 128 first;
        opcode = pos (first % 16);
        payload = payload;
        masked = false;
      })
      ok (entry, more)))
  read_frame _ = err read_failed

  -- a continuation of an open message
  unfoldable pub continue_message : Frame → Fragments → Framed Action
  unfolding checked_frame
  continue_message frame none = err no_open_message
  continue_message frame (some (opcode, payload)) =
      let whole = payload ++ frame.payload in
      if ltb max_frame_bytes (length whole)
      then err message_too_large
      else if frame.fin
      then (do
        complete ←
            checked_frame utf8
              (record { fin = true; opcode = pos opcode; payload = whole; masked = false })
        ok (returns complete))
      else ok (goes_on (some (opcode, whole)))

  -- the start of a message, or a whole one
  unfoldable pub data_message : Frame → Fragments → Framed Action
  data_message frame (some open_) = err overlapping_message
  data_message frame none =
      if frame.fin
      then ok (returns frame)
      else ok (goes_on (some (low_byte frame.opcode, frame.payload)))

  -- the match of `read_websocket_message`
  unfoldable pub respond : Frame → Fragments → Framed Action
  unfolding continue_message data_message
  respond frame fragments =
      let opcode = low_byte frame.opcode in
      if opcode == 9
      then ok
          (pongs (record { fin = true; opcode = pos 10; payload = frame.payload; masked = false }))
      else if opcode == 10
      then ok skips
      else if opcode == 8
      then ok (
          closes (record { fin = true; opcode = pos 8; payload = frame.payload; masked = false })
            frame)
      else if opcode == 0
      then continue_message frame fragments
      else if opcode == 1 || opcode == 2
      then data_message frame fragments
      else ok (returns frame)

  -- `write_all` and `flush` of an encoded frame
  unfoldable pub write_frame : Frame → Socket → Framed Socket
  unfolding encode_frame
  write_frame frame s = do
    bytes ← encode_frame utf8 none frame
    if s.writable then ok (record s { output = s.output ++ bytes }) else err write_failed

  -- One action, where `again` reads on. `none` is a reader that has not ended within its rounds.
  unfoldable pub perform :
      (Socket → Fragments → Option (Framed (Frame × Socket)))
      → Action
      → Socket
      → Fragments
      → Option (Framed (Frame × Socket))
  unfolding write_frame
  perform again (pongs pong) s f = elim (write_frame pong s) [
    | err e ↦ some (err e)
    | ok s' ↦ again s' f
  ]
  perform again skips s f = again s f
  perform again (goes_on f') s f = again s f'
  perform again (closes close frame) s f = elim (write_frame close s) [
    | err e ↦ some (err e)
    | ok s' ↦ some (ok (frame, s'))
  ]
  perform again (returns frame) s f = some (ok (frame, s))

  -- one round of the loop
  unfoldable pub round :
      (Socket → Fragments → Option (Framed (Frame × Socket)))
      → Socket
      → Fragments
      → Option (Framed (Frame × Socket))
  unfolding read_frame respond perform
  round again s f = elim (read_frame s.input) [
    | err e ↦ some (err e)
    | ok (frame, more) ↦ elim (respond frame f) [
      | err e ↦ some (err e)
      | ok action ↦ perform again action (record s { input = more }) f
    ]
  ]

  -- `read_websocket_message`, with as many rounds as are given
  unfoldable pub read_message : ℕ → Socket → Fragments → Option (Framed (Frame × Socket))
  unfolding round
  read_message zero s f = none
  read_message (suc k) s f = round (read_message k) s f
