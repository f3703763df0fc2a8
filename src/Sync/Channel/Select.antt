-- ===== src/Sync/Channel/Select.antt =====
-- `mux_channel_select` of src/sync_primitives.rs: one pass over the channels, and the loop of passes.
-- Each pass sees the channels as the other threads left them.
use mux_runtime.Common.{
  ℕ, suc, ◌≡◌, ◌⊎◌, inl, inr, Bool-cases, subst, refl, sym, ◌∙◌, Bool, true, false, ◌||◌, not, ltb,
  if◌then◌else◌, Option, none, some, List, [], ◌∷◌, length, Result, ok, err,
}
use mux_runtime.Common.Int.{ℤ, pos, negsuc}
use mux_runtime.Sync.Handles.{
  SyncError, negative_timeout, select_expects_list, select_needs_channel, select_too_many,
}
use mux_runtime.Sync.Channel.{Channel, Received, value, empty, hung_up, receive_from, disconnected}

-- what a pass found: a value with its channel's place, or whether any channel was open
pub data Pass (V : Type 0) : Type 0 where
  found : ℕ → V → Pass V
  missed : Bool → Pass V

or_assoc : (a b c : Bool) → (a || b) || c ≡ a || (b || c)
or_assoc true b c = refl
or_assoc false b c = refl

or_false : (a : Bool) → a || false ≡ a
or_false true = refl
or_false false = refl

module _ {V : Type 0} where
  abbrev pub marked : Channel V → Channel V
  marked c = record c { closed = true }

  -- a channel that is not marked closed, at what its queue showed, before the rest of the pass
  unfoldable pub select_look :
      Received V × Channel V
      → ℕ
      → List (Channel V)
      → Pass V × List (Channel V)
      → Pass V × List (Channel V)
  select_look (value v, c) index cs rest = (found index v, c ∷ cs)
  select_look (hung_up, c) index cs rest = (rest.0, marked c ∷ rest.1)
  select_look (empty, c) index cs rest = (rest.0, c ∷ rest.1)

  -- The pass from a place on, with whether a channel was open before it
  unfoldable pub select_pass : List (Channel V) → ℕ → Bool → Pass V × List (Channel V)
  unfolding receive_from select_look
  select_pass [] index open_ = (missed open_, [])
  select_pass (c ∷ cs) index open_ =
      let rest = select_pass cs (suc index) (open_ || not c.closed) in
      if c.closed then (rest.0, c ∷ rest.1) else select_look (receive_from c.queue c) index cs rest

  -- The loop over the passes, each with whether the deadline is over by then. The outer option is `none`
  -- while it has not ended.
  unfoldable pub select_loop : List (List (Channel V) × Bool) → Option (Option (ℕ × V))
  unfolding select_pass
  select_loop [] = none
  select_loop ((cs, late) ∷ passes) =
      let rest = select_loop passes in
      elim (select_pass cs 0 false).0 [
        | found i v ↦ some (some (i, v))
        | missed open_ ↦ if not open_ || late then some none else rest
      ]

  -- the checks before the loop; `none` is not a list
  unfoldable pub select_checks : Option (List (Channel V)) → ℤ → Result {0, 0} SyncError Unit
  select_checks cs (negsuc n) = err negative_timeout
  select_checks none (pos n) = err select_expects_list
  select_checks (some []) (pos n) = err select_needs_channel
  select_checks (some (c ∷ cs)) (pos n) =
      if ltb 1024 (length (c ∷ cs)) then err select_too_many else ok tt

  -- What a pass leaves of a channel that it goes by: one that is marked closed stays as it is, and an
  -- empty one is marked closed if it is disconnected.
  abbrev pub Passed : Channel V → Channel V → Type 0
  Passed c d =
      ((c.closed ≡ true) × (d ≡ c))
      ⊎ ((c.closed ≡ false)
          × (c.queue ≡ [])
          × (((disconnected c ≡ true) × (d ≡ marked c)) ⊎ ((disconnected c ≡ false) × (d ≡ c))))

  -- Every channel of the first list was gone by, and the second list is what is left.
  abbrev pub AllPassed : List (Channel V) → List (Channel V) → Type 0
  AllPassed [] [] = Unit
  AllPassed [] (d ∷ ds) = ⊥
  AllPassed (c ∷ cs) [] = ⊥
  AllPassed (c ∷ cs) (d ∷ ds) = Passed c d × AllPassed cs ds

  -- A channel that is not marked closed, whose first value is taken out of the queue
  abbrev pub Taken : Channel V → V → Channel V → Type 0
  Taken c v d =
      (c.closed ≡ false)
      × ((rest : List V) × (c.queue ≡ v ∷ rest) × (d ≡ record c { queue = rest }))

  -- The value `v` was taken out of the channel at `i`, counted from the index on, the channels before it
  -- were gone by, and those behind it are as they were.
  abbrev pub FirstTaken : List (Channel V) → ℕ → ℕ → V → List (Channel V) → Type 0
  FirstTaken [] index i v ds = ⊥
  FirstTaken (c ∷ cs) index i v [] = ⊥
  FirstTaken (c ∷ cs) index i v (d ∷ ds) =
      ((i ≡ index) × Taken c v d × (ds ≡ cs)) ⊎ (Passed c d × FirstTaken cs (suc index) i v ds)

  -- Is a channel of the list not marked closed?
  abbrev pub any_open : List (Channel V) → Bool
  any_open [] = false
  any_open (c ∷ cs) = not c.closed || any_open cs

  -- What a pass reports, and the channels it leaves; `before` is whether a channel was open before them.
  abbrev pub Meaning : Bool → List (Channel V) → ℕ → Pass V → List (Channel V) → Type 0
  Meaning before cs index (found i v) ds = FirstTaken cs index i v ds
  Meaning before cs index (missed open_) ds = (open_ ≡ before || any_open cs) × AllPassed cs ds

  -- a channel that is gone by
  Passed-Meaning :
      (before : Bool) (c d : Channel V) (cs ds : List (Channel V)) (index : ℕ) (p : Pass V)
      → Passed c d
      → Meaning (before || not c.closed) cs (suc index) p ds
      → Meaning before (c ∷ cs) index p (d ∷ ds)
  Passed-Meaning before c d cs ds index (found i v) n h = inr (n, h)
  Passed-Meaning before c d cs ds index (missed open_) n (o, h) =
      (o ∙ or_assoc before (not c.closed) (any_open cs), (n, h))

  -- a channel that is not marked closed, at its queue
  look-Meaning :
      (before : Bool) (q : List V) (c : Channel V) (cs : List (Channel V)) (index : ℕ)
      (rest : Pass V × List (Channel V))
      → c.queue ≡ q
      → c.closed ≡ false
      → Meaning (before || not c.closed) cs (suc index) rest.0 rest.1
      → Meaning before
          (c ∷ cs)
          index
          (select_look (receive_from q c) index cs rest).0
          (select_look (receive_from q c) index cs rest).1
  unfolding select_look receive_from
  look-Meaning before (v ∷ vs) c cs index rest e k h = inl (refl, (k, (vs, e, refl)), refl)
  look-Meaning before [] c cs index rest e k h = elim (Bool-cases (disconnected c)) [
    | inl t ↦
        rw t
          (Passed-Meaning before c (marked c) cs rest.1 index rest.0 (inr (k, e, inl (t, refl))) h)
    | inr f ↦ rw f (Passed-Meaning before c c cs rest.1 index rest.0 (inr (k, e, inr (f, refl))) h)
  ]

  -- A pass over any channels takes the first value out of the first channel that is not marked closed
  -- and has one, and leaves those behind it as they were; where no channel has one it says so, and
  -- whether any channel was not marked closed. A channel that it goes by is left as it was, but that an
  -- empty one which is disconnected is marked closed.
  pub select_pass-Meaning :
      (cs : List (Channel V)) (index : ℕ) (before : Bool)
      → Meaning before cs index (select_pass cs index before).0 (select_pass cs index before).1
  unfolding select_pass
  select_pass-Meaning [] index before = (sym (or_false before), tt)
  select_pass-Meaning (c ∷ cs) index before =
      let rest = select_pass cs (suc index) (before || not c.closed) in
      let h = select_pass-Meaning cs (suc index) (before || not c.closed) in
      elim (Bool-cases c.closed) [
        | inl t ↦
            subst
              (λ b.
                let r =
                  if b
                  then (rest.0, c ∷ rest.1)
                  else select_look (receive_from c.queue c) index cs rest in
                Meaning before (c ∷ cs) index r.0 r.1)
              (sym t) (Passed-Meaning before c c cs rest.1 index rest.0 (inl (t, refl)) h)
        | inr f ↦
            subst
              (λ b.
                let r =
                  if b
                  then (rest.0, c ∷ rest.1)
                  else select_look (receive_from c.queue c) index cs rest in
                Meaning before (c ∷ cs) index r.0 r.1)
              (sym f) (look-Meaning before c.queue c cs index rest refl f h)
      ]
