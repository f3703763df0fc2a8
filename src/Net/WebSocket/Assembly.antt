-- ===== src/Net/WebSocket/Assembly.antt =====
-- The assembly of a message from its frames in src/net.rs. The frames are those that the given handles
-- name, in order.
pub mod Sound
use mux_runtime.Common.{
  ℕ, zero, suc, ◌+◌, ◌≤◌, ◌≡◌, refl, Bool, true, false, ◌&&◌, ◌||◌, not, ltb, leb, ◌==◌,
  if◌then◌else◌, Option, none, some, List, [], ◌∷◌, ◌++◌, length, Result, ok, err, ◌>>=◌,
}
use mux_runtime.Common.Int.{ℤ, pos, negsuc}
use mux_runtime.Net.WebSocket.{
  FrameError, no_frames, starts_without_data, trailing_frames, starts_as_final, mixed_masking,
  new_data_frame, message_too_large, missing_final, Frame, Framed, max_frame_bytes, validate_opcode,
  validate_frame, checked_frame,
}

-- `payload` and `total` of `reassemble_websocket_frames`
pub record Message : Type 0 where
  pub payload : List ℕ
  pub total : ℕ

-- what a fragment leads to: the message goes on, or it is complete
pub data Fragment : Type 0 where
  more : Message → Fragment
  complete : Frame → Fragment

abbrev pub eqb_bool : Bool → Bool → Bool
eqb_bool true b = b
eqb_bool false true = false
eqb_bool false false = true

module _ (utf8 : List ℕ → Bool) where
  -- the checks of `websocket_frame_entries`
  unfoldable pub validate_all : List Frame → Result {0, 0} FrameError Unit
  unfolding validate_frame
  validate_all [] = ok tt
  validate_all (entry ∷ entries) = do v ← validate_frame utf8 entry; validate_all entries

  -- `append_websocket_fragment` behind the first frame; `last` says whether no frame follows
  unfoldable pub append_data : Frame → Frame → Bool → Message → Framed Fragment
  unfolding checked_frame
  append_data first entry last m =
      let total = m.total + length entry.payload in
      let payload = m.payload ++ entry.payload in
      if ltb max_frame_bytes total
      then err message_too_large
      else if not entry.fin
      then ok (more (record { payload = payload; total = total }))
      else if not last
      then err trailing_frames
      else (do
        output ←
            checked_frame utf8 (record {
              fin = true;
              opcode = first.opcode;
              payload = payload;
              masked = first.masked;
            })
        ok (complete output))

  unfoldable pub append_fragment : Frame → Frame → ℕ → ℕ → Message → Framed Fragment
  unfolding validate_opcode append_data
  append_fragment first entry index count m = do
    opcode ← validate_opcode entry.opcode
    if index == 0
        then (if entry.fin then err starts_as_final else ok (more m))
        else (if not (eqb_bool entry.masked first.masked)
            then err mixed_masking
            else if leb 8 opcode
            then ok (more m)
            else if not (opcode == 0)
            then err new_data_frame
            else append_data first entry (index + 1 == count) m)

  -- the loop over the frames, from an index on
  unfoldable pub fragment_loop : Frame → List Frame → ℕ → ℕ → Message → Framed Frame
  unfolding append_fragment
  fragment_loop first [] index count m = err missing_final
  fragment_loop first (entry ∷ entries) index count m =
      elim (append_fragment first entry index count m) [
        | err e ↦ err e
        | ok (complete output) ↦ ok output
        | ok (more m') ↦ fragment_loop first entries (suc index) count m'
      ]

  -- `reassemble_websocket_frames` behind the checks of each frame
  unfoldable pub assemble : Frame → List Frame → Framed Frame
  unfolding validate_opcode fragment_loop
  assemble first rest = do
    opcode ← validate_opcode first.opcode
    if not (opcode == 1 || opcode == 2)
        then err starts_without_data
        else if first.fin
        then (elim rest [
          | [] ↦ ok (record {
            fin = true;
            opcode = first.opcode;
            payload = first.payload;
            masked = first.masked;
          })
          | entry ∷ entries ↦ err trailing_frames
        ])
        else fragment_loop first (first ∷ rest) 0 (length (first ∷ rest))
            (record { payload = first.payload; total = length first.payload })

  unfoldable pub reassemble : List Frame → Framed Frame
  unfolding validate_all assemble
  reassemble [] = err no_frames
  reassemble (first ∷ rest) = do u ← validate_all (first ∷ rest); assemble first rest
