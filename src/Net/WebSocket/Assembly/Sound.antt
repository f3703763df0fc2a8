-- ===== src/Net/WebSocket/Assembly/Sound.antt =====
-- What an assembled message of src/net.rs is made of.
use mux_runtime.Common.{
  ℕ, suc, ◌+◌, ◌≤◌, ◌≡◌, refl, sym, ap, ◌∙◌, subst, arith, ◌⊎◌, inl, inr, Bool, true, false, leb,
  ◌==◌, if◌then◌else◌, List, [], ◌∷◌, ◌++◌, append-nil, append_assoc, length, length-append, ok,
  err, >>=-eq-ok,
}
use mux_runtime.Common.Int.{ℤ, pos, negsuc}
use mux_runtime.Net.WebSocket.{
  Frame, Framed, max_frame_bytes, validate_opcode, validate_contents, validate_frame, checked_frame,
}
use mux_runtime.Net.WebSocket.Assembly.{
  Message, Fragment, more, complete, append_data, append_fragment, fragment_loop, assemble,
  validate_all, reassemble,
}

abbrev pub is_control : ℤ → Bool
is_control (pos n) = leb 8 n
is_control (negsuc n) = false

-- the payloads of the data frames, one behind another
abbrev pub data_of : List Frame → List ℕ
data_of [] = []
data_of (entry ∷ entries) =
    if is_control entry.opcode then data_of entries else entry.payload ++ data_of entries

-- what a message has from its first frame and its payload
pub record IsMessage (first : Frame) (payload : List ℕ) (out : Frame) : Type 0 where
  pub whole : out.fin ≡ true
  pub kind : out.opcode ≡ first.opcode
  pub mask : out.masked ≡ first.masked
  pub contents : out.payload ≡ payload
  pub size : length payload ≤ max_frame_bytes

validate_opcode-control : (z : ℤ) (n : ℕ) → validate_opcode z ≡ ok n → is_control z ≡ leb 8 n
unfolding validate_opcode
validate_opcode-control (pos m) n h = ground arith
validate_opcode-control (negsuc m) n h = cc

more_inj : {m n : Message} → more m ≡ more n → m ≡ n
more_inj h = cc

abbrev framed : Frame → Framed Frame
framed entry = ok entry

framed_inj : {a b : Frame} → framed a ≡ framed b → a ≡ b
framed_inj h = cc

no_entries : (entries : List Frame) → length entries ≡ 0 → entries ≡ []
no_entries [] h = refl
no_entries (entry ∷ entries) h = absurd (omega arith)

last_index : (index count : ℕ) → (suc index + 1 == count) ≡ true → suc index + 1 ≡ count
last_index index count h = ground arith

module _ (utf8 : List ℕ → Bool) where
  checked_frame-same : (entry out : Frame) → checked_frame utf8 entry ≡ ok out → out ≡ entry
  unfolding checked_frame
  checked_frame-same entry out h = let (v, _, e) = >>=-eq-ok (validate_frame utf8 entry) _ h in cc

  abbrev Appended : Frame → Frame → Bool → Message → Fragment → Type 0
  Appended first entry last m (more m') =
      (m'.payload ≡ m.payload ++ entry.payload) × (m'.total ≡ m.total + length entry.payload)
  Appended first entry last m (complete out) =
      (last ≡ true) × IsMessage first (m.payload ++ entry.payload) out

  append_data-last :
      (first entry out : Frame) (last : Bool) (m : Message)
      → append_data utf8 first entry last m ≡ ok (complete out)
      → (last ≡ true)
        × (m.total + length entry.payload ≤ max_frame_bytes)
        × (checked_frame utf8 (record {
          fin = true;
          opcode = first.opcode;
          payload = m.payload ++ entry.payload;
          masked = first.masked;
        })
            ≡ ok out)
  unfolding append_data
  append_data-last first entry out last m h = ground arith

  append_data-Appended :
      (first entry : Frame) (last : Bool) (m : Message) (r : Fragment)
      → m.total ≡ length m.payload
      → append_data utf8 first entry last m ≡ ok r
      → Appended first entry last m r
  unfolding append_data
  append_data-Appended first entry last m (more m') t h = ground arith
  append_data-Appended first entry last m (complete out) t h =
      let (l, size, k) = append_data-last first entry out last m h in
      let same = checked_frame-same _ out k in
      (
        l,
        record {
          whole = ap (λ z. z.fin) same;
          kind = ap (λ z. z.opcode) same;
          mask = ap (λ z. z.masked) same;
          contents = ap (λ z. z.payload) same;
          size = omega (arith, length-append m.payload entry.payload);
        },
      )

  -- behind the first frame
  append_fragment-cases :
      (first entry : Frame) (index count : ℕ) (m : Message) (r : Fragment)
      → append_fragment utf8 first entry (suc index) count m ≡ ok r
      → ((is_control entry.opcode ≡ true) × (r ≡ more m))
        ⊎ ((is_control entry.opcode ≡ false)
            × (append_data utf8 first entry (suc index + 1 == count) m ≡ ok r))
  unfolding append_fragment
  append_fragment-cases first entry index count m r h =
      let (opcode, k, h1) = >>=-eq-ok (validate_opcode entry.opcode) _ h in
      ground (arith, validate_opcode-control entry.opcode opcode k)

  module _ (first : Frame) where
    -- one frame behind the first, where the frames behind it are known to lead to a message
    at_fragment :
        (entry : Frame) (entries : List Frame) (index count : ℕ) (m : Message) (out : Frame)
        → suc index + suc (length entries) ≡ count
        → m.total ≡ length m.payload
        → ((m' : Message)
            → m'.total ≡ length m'.payload
            → fragment_loop utf8 first entries (suc (suc index)) count m' ≡ ok out
            → IsMessage first (m'.payload ++ data_of entries) out)
        → (a : Framed Fragment) → append_fragment utf8 first entry (suc index) count m ≡ a
        → elim a [
          | err e ↦ err e
          | ok (complete output) ↦ ok output
          | ok (more m') ↦ fragment_loop utf8 first entries (suc (suc index)) count m'
        ]
          ≡ ok out
        → IsMessage first (m.payload ++ data_of (entry ∷ entries)) out
    at_fragment entry entries index count m out c t rest (err e) k g = cc
    at_fragment entry entries index count m out c t rest (ok (more m')) k g =
        elim (append_fragment-cases first entry index count m (more m') k) [
          | inl (ctl, e) ↦
              let same = more_inj e in
              rw (ctl) (
                subst (λ z. IsMessage first (z.payload ++ data_of entries) out) same
                  (rest m' (subst (λ z. z.total ≡ length z.payload) (sym same) t) g))
          | inr (plain, e) ↦
              let (p, q) =
                append_data-Appended first entry (suc index + 1 == count) m (more m') t e in
              rw plain (
                subst (λ z. IsMessage first z out)
                  (ap (λ z. z ++ data_of entries) p
                    ∙ append_assoc m.payload entry.payload (data_of entries))
                  (rest m' (omega (arith, q, t, ap length p, length-append m.payload entry.payload))
                    g))
        ]
    at_fragment entry entries index count m out c t rest (ok (complete o)) k g =
        elim (append_fragment-cases first entry index count m (complete o) k) [
          | inl (ctl, e) ↦ cc
          | inr (plain, e) ↦
              let (l, im) =
                append_data-Appended first entry (suc index + 1 == count) m (complete o) t e in
              let none_left = no_entries entries (omega (arith, c, last_index index count l)) in
              rw plain (
                subst (λ z. IsMessage first (m.payload ++ z) out)
                  (sym (append-nil entry.payload)
                    ∙ ap (λ z. entry.payload ++ data_of z) (sym none_left))
                  (subst (λ z. IsMessage first (m.payload ++ entry.payload) z) (framed_inj g) im))
        ]

    fragment_loop-IsMessage :
        (entries : List Frame) (index count : ℕ) (m : Message) (out : Frame)
        → suc index + length entries ≡ count
        → m.total ≡ length m.payload
        → fragment_loop utf8 first entries (suc index) count m ≡ ok out
        → IsMessage first (m.payload ++ data_of entries) out
    unfolding fragment_loop
    fragment_loop-IsMessage [] index count m out c t h = cc
    fragment_loop-IsMessage (entry ∷ entries) index count m out c t h =
        at_fragment entry entries index count m out c t
          (λ m'. fragment_loop-IsMessage entries (suc index) count m' out (omega (arith, c)))
          (append_fragment utf8 first entry (suc index) count m) refl h

  first_fragment :
      (first : Frame) (count n : ℕ) (m : Message)
      → validate_opcode first.opcode ≡ ok n
      → first.fin ≡ false
      → append_fragment utf8 first first 0 count m ≡ ok (more m)
  unfolding append_fragment
  first_fragment first count n m h k = rw (h, k) refl

  first_round :
      (first : Frame) (rest : List Frame) (count n : ℕ) (m : Message)
      → validate_opcode first.opcode ≡ ok n
      → first.fin ≡ false
      → fragment_loop utf8 first (first ∷ rest) 0 count m ≡ fragment_loop utf8 first rest 1 count m
  unfolding fragment_loop
  first_round first rest count n m h k =
      ap
        (λ (a : Framed Fragment). elim a as (λ _. Framed Frame) [
          | err e ↦ err e
          | ok (complete output) ↦ ok output
          | ok (more m') ↦ fragment_loop utf8 first rest 1 count m'
        ])
        (first_fragment first count n m h k)

  -- what the beginning of the assembly asks of the frames
  abbrev Begun : Frame → List Frame → Frame → Type 0
  Begun first rest out =
      (is_control first.opcode ≡ false)
      × (((rest ≡ []) × (out ≡ record first { fin = true }))
          ⊎ ((first.fin ≡ false)
              × (fragment_loop utf8 first (first ∷ rest) 0 (length (first ∷ rest))
                    (record { payload = first.payload; total = length first.payload })
                  ≡ ok out)))

  assemble-Begun :
      (first : Frame) (rest : List Frame) (out : Frame) (n : ℕ)
      → validate_opcode first.opcode ≡ ok n
      → assemble utf8 first rest ≡ ok out
      → Begun first rest out
  unfolding assemble
  assemble-Begun first [] out n k h =
      let (opcode, named, h1) = >>=-eq-ok (validate_opcode first.opcode) _ h in
      ground (arith, validate_opcode-control first.opcode opcode named)
  assemble-Begun first (x ∷ xs) out n k h =
      let (opcode, named, h1) = >>=-eq-ok (validate_opcode first.opcode) _ h in
      ground (arith, validate_opcode-control first.opcode opcode named)

  assemble-IsMessage :
      (first : Frame) (rest : List Frame) (out : Frame) (n : ℕ)
      → validate_opcode first.opcode ≡ ok n
      → length first.payload ≤ max_frame_bytes
      → assemble utf8 first rest ≡ ok out
      → IsMessage first (data_of (first ∷ rest)) out
  assemble-IsMessage first rest out n named size h =
      let (plain, ways) = assemble-Begun first rest out n named h in
      rw plain (elim ways [
        | inl (alone, e) ↦ rw alone (record {
          whole = ap (λ z. z.fin) e;
          kind = ap (λ z. z.opcode) e;
          mask = ap (λ z. z.masked) e;
          contents = ap (λ z. z.payload) e ∙ sym (append-nil first.payload);
          size = omega (arith, length-append first.payload [], size);
        })
        | inr (open_, k) ↦
            fragment_loop-IsMessage first rest 0 _
              (record { payload = first.payload; total = length first.payload }) out (omega arith)
              refl (sym (first_round first rest _ n _ named open_) ∙ k)
      ])

  sized :
      (entry : Frame) (n m : ℕ)
      → validate_opcode entry.opcode ≡ ok m
      → validate_contents utf8 m entry ≡ ok n
      → (validate_opcode entry.opcode ≡ ok n) × (length entry.payload ≤ max_frame_bytes)
  unfolding validate_contents
  sized entry n m h k = ground arith

  valid_size :
      (entry : Frame) (n : ℕ)
      → validate_frame utf8 entry ≡ ok n
      → (validate_opcode entry.opcode ≡ ok n) × (length entry.payload ≤ max_frame_bytes)
  unfolding validate_frame
  valid_size entry n h =
      let (m, named, k) = >>=-eq-ok (validate_opcode entry.opcode) _ h in sized entry n m named k

  -- A message that is assembled is final, has the opcode and the masking of its first frame and within
  -- the bound exactly the payloads of the data frames in order, whatever control frames stand between.
  pub reassemble-IsMessage :
      (first : Frame) (rest : List Frame) (out : Frame)
      → reassemble utf8 (first ∷ rest) ≡ ok out
      → IsMessage first (data_of (first ∷ rest)) out
  unfolding reassemble validate_all
  reassemble-IsMessage first rest out h =
      let (u, all, k) = >>=-eq-ok (validate_all utf8 (first ∷ rest)) _ h in
      let (n, valid, _) = >>=-eq-ok (validate_frame utf8 first) _ all in
      let (named, size) = valid_size first n valid in
      assemble-IsMessage first rest out n named size k
