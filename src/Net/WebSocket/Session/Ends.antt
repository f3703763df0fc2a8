-- ===== src/Net/WebSocket/Session/Ends.antt =====
-- The rounds of the reader of a WebSocket session in src/net.rs, against the bytes of its input.
use mux_runtime.Common.{
  ℕ, zero, suc, ◌%◌, ◌/◌, ◌≤◌, ◌<◌, ◌≡◌, refl, ap, arith, Bool, true, false, not, leb, ◌==◌,
  if◌then◌else◌, Option, none, some, List, [], ◌∷◌, length, length-drop, ok, err, >>=-eq-ok,
}
use mux_runtime.Common.Int.{pos}
use mux_runtime.Net.WebSocket.{
  FrameError, reserved_bits, not_masked, read_failed, Frame, Framed, validate_opcode, read_length,
  checked_size, checked_frame, encode_frame,
}
use mux_runtime.Net.WebSocket.Session.{
  Socket, Fragments, Action, pongs, skips, goes_on, closes, returns, read_masked, read_frame,
  respond, write_frame, perform, round, read_message,
}

read_length-shorter :
    (cut : FrameError) (code : ℕ) (rest : List ℕ) (n : ℕ) (behind : List ℕ)
    → read_length cut code rest ≡ ok (n, behind)
    → length behind ≤ length rest
unfolding read_length
read_length-shorter cut code [] n behind x = ground arith
read_length-shorter cut code (a ∷ []) n behind x = ground arith
read_length-shorter cut code (a ∷ b ∷ []) n behind x = ground arith
read_length-shorter cut code (a ∷ b ∷ c ∷ []) n behind x = ground arith
read_length-shorter cut code (a ∷ b ∷ c ∷ d ∷ []) n behind x = ground arith
read_length-shorter cut code (a ∷ b ∷ c ∷ d ∷ e ∷ []) n behind x = ground arith
read_length-shorter cut code (a ∷ b ∷ c ∷ d ∷ e ∷ f ∷ []) n behind x = ground arith
read_length-shorter cut code (a ∷ b ∷ c ∷ d ∷ e ∷ f ∷ g ∷ []) n behind x = ground arith
read_length-shorter cut code (a ∷ b ∷ c ∷ d ∷ e ∷ f ∷ g ∷ h ∷ rest) n behind x = ground arith

read_masked-shorter :
    (n : ℕ) (rest payload more : List ℕ)
    → read_masked n rest ≡ ok (payload, more)
    → length more ≤ length rest
unfolding read_masked
read_masked-shorter n [] payload more x = cc
read_masked-shorter n (a ∷ []) payload more x = cc
read_masked-shorter n (a ∷ b ∷ []) payload more x = cc
read_masked-shorter n (a ∷ b ∷ c ∷ []) payload more x = cc
read_masked-shorter n (a ∷ b ∷ c ∷ d ∷ rest) payload more x = ground (arith, length-drop n rest)

abbrev framed_pair : Frame → List ℕ → Framed (Frame × List ℕ)
framed_pair x s = ok (x, s)

module _ {A : Type 0} where
  -- what lies behind a check
  passed :
      (b : Bool) (e : FrameError) (rest : Framed A) (v : A)
      → (if b then err e else rest) ≡ ok v
      → rest ≡ ok v
  passed true e rest v h = cc
  passed false e rest v h = h

module _ (utf8 : List ℕ → Bool) where
  -- A frame takes at least the two bytes of its header.
  read_frame-shorter :
      (input : List ℕ) (frame : Frame) (more : List ℕ)
      → read_frame utf8 input ≡ ok (frame, more)
      → length more < length input
  unfolding read_frame
  read_frame-shorter [] frame more h = cc
  read_frame-shorter (first ∷ []) frame more h = cc
  read_frame-shorter (first ∷ second ∷ rest) frame more h =
      let h1 = passed (not (first / 16 % 8 == 0)) reserved_bits _ _ h in
      let (opcode, _, h2) = >>=-eq-ok (validate_opcode (pos (first % 16))) _ h1 in
      let h3 = passed (not (leb 128 second)) not_masked _ _ h2 in
      let ((n, behind), lengthed, h4) =
        >>=-eq-ok (read_length read_failed (second % 128) rest) _ h3 in
      let (size, _, h5) = >>=-eq-ok (checked_size n) _ h4 in
      let ((payload, more'), masked, h6) = >>=-eq-ok (read_masked size behind) _ h5 in
      let (entry, _, h7) =
        >>=-eq-ok
          (checked_frame utf8 (record {
            fin = leb 128 first;
            opcode = pos (first % 16);
            payload = payload;
            masked = false;
          }))
          (λ e. framed_pair e more') h6 in
      let left : more' ≡ more = second_inj {x = entry} {y = frame} h7 in
      omega (
        arith,
        read_length-shorter read_failed (second % 128) rest n behind lengthed,
        read_masked-shorter size behind payload more' masked,
        ap length left,
      )
    where
      second_inj : {x y : Frame} {s t : List ℕ} → framed_pair x s ≡ framed_pair y t → s ≡ t
      second_inj h = cc

  -- a continuation that ends on any input up to a length
  abbrev Ends : (Socket → Fragments → Option (Framed (Frame × Socket))) → ℕ → Type 0
  Ends again n =
      (s : Socket) (f : Fragments)
      → length s.input < n
      → (r : Framed (Frame × Socket)) × (again s f ≡ some r)

  write_frame-input :
      (frame : Frame) (s t : Socket) → write_frame utf8 frame s ≡ ok t → t.input ≡ s.input
  unfolding write_frame
  write_frame-input frame s t h =
      let (bytes, _, k) = >>=-eq-ok (encode_frame utf8 none frame) _ h in ground arith

  perform-Ends :
      (again : Socket → Fragments → Option (Framed (Frame × Socket))) (n : ℕ) (action : Action)
      (s : Socket) (f : Fragments)
      → Ends again n
      → length s.input < n
      → (r : Framed (Frame × Socket)) × (perform utf8 again action s f ≡ some r)
  unfolding perform
  perform-Ends again n (pongs pong) s f g h = written (write_frame utf8 pong s) refl
    where
      written :
          (w : Framed Socket)
          → write_frame utf8 pong s ≡ w
          → (r : Framed (Frame × Socket)) × ((elim w as (λ _. Option (Framed (Frame × Socket))) [
            | err e ↦ some (err e)
            | ok s' ↦ again s' f
          ])
              ≡ some r)
      written (err e) k = (err e, refl)
      written (ok t) k = g t f (omega (arith, h, ap length (write_frame-input pong s t k)))
  perform-Ends again n skips s f g h = g s f h
  perform-Ends again n (goes_on f') s f g h = g s f' h
  perform-Ends again n (closes close frame) s f g h = written (write_frame utf8 close s)
    where
      written :
          (w : Framed Socket)
          → (r : Framed (Frame × Socket)) × ((elim w as (λ _. Option (Framed (Frame × Socket))) [
            | err e ↦ some (err e)
            | ok s' ↦ some (ok (frame, s'))
          ])
              ≡ some r)
      written (err e) = (err e, refl)
      written (ok t) = (ok (frame, t), refl)
  perform-Ends again n (returns frame) s f g h = (ok (frame, s), refl)

  -- one round at what was read
  round-Ends :
      (again : Socket → Fragments → Option (Framed (Frame × Socket))) (s : Socket) (f : Fragments)
      → Ends again (length s.input)
      → (r : Framed (Frame × Socket)) × (round utf8 again s f ≡ some r)
  unfolding round
  round-Ends again s f g = at_frame (read_frame utf8 s.input) refl
    where
      at_action :
          (frame : Frame) (more : List ℕ) (a : Framed Action)
          → length more < length s.input
          → (r : Framed (Frame × Socket)) × ((elim a as (λ _. Option (Framed (Frame × Socket))) [
            | err e ↦ some (err e)
            | ok action ↦ perform utf8 again action (record s { input = more }) f
          ])
              ≡ some r)
      at_action frame more (err e) h = (err e, refl)
      at_action frame more (ok action) h =
          perform-Ends again (length s.input) action (record s { input = more }) f g h

      at_frame :
          (x : Framed (Frame × List ℕ))
          → read_frame utf8 s.input ≡ x
          → (r : Framed (Frame × Socket)) × ((elim x as (λ _. Option (Framed (Frame × Socket))) [
            | err e ↦ some (err e)
            | ok (frame, more) ↦ elim (respond utf8 frame f) [
              | err e ↦ some (err e)
              | ok action ↦ perform utf8 again action (record s { input = more }) f
            ]
          ])
              ≡ some r)
      at_frame (err e) k = (err e, refl)
      at_frame (ok (frame, more)) k =
          at_action frame more (respond utf8 frame f) (read_frame-shorter s.input frame more k)

  -- The reader ends: as many rounds as there are bytes of input, and one, are enough, whatever the bytes
  -- are and whatever message is open.
  pub read_message-ends :
      (k : ℕ) (s : Socket) (f : Fragments)
      → length s.input < k
      → (r : Framed (Frame × Socket)) × (read_message utf8 k s f ≡ some r)
  unfolding read_message
  read_message-ends zero s f h = absurd (omega arith)
  read_message-ends (suc k) s f h =
      round-Ends (read_message utf8 k) s f (λ t g l. read_message-ends k t g (omega (arith, h)))
