-- ===== src/Sync/Channel/Traffic.antt =====
-- Threads that send, receive and close at one channel of src/sync_primitives.rs, in any order.
use mux_runtime.Common.{
  ℕ, ◌≤◌, ◌<◌, ◌≡◌, refl, sym, ap, ◌∙◌, subst, arith, true, Option, none, some, List, [], ◌∷◌, ◌++◌,
  append_assoc, append-nil, length, length-append, ok,
}
use mux_runtime.Sync.Channel.{
  Channel, empty_channel, channel_sender, drop_sender, has_room, push, offer, receive_from,
  after_receive, try_recv, close,
}

-- The channel, the values that were taken into the queue and those that were received, each in order.
pub record System (V : Type 0) : Type 0 where
  pub channel : Channel V
  pub accepted : List V
  pub received : List V

module _ {V : Type 0} where
  pub data Step (s t : System V) : Type 0 where
    -- a call of a send takes a copy of the sender
    begins :
        (c : Channel V) → channel_sender s.channel ≡ ok c → t ≡ record s { channel = c } → Step s t
    -- a sender offers its value, and is done when it was taken
    delivers :
        (v : V) (c : Channel V)
        → 0 < s.channel.senders
        → offer v s.channel ≡ (c, true)
        → t ≡ record s { channel = drop_sender c; accepted = s.accepted ++ v ∷ [] }
        → Step s t
    -- there is no room, its time is over or it was cancelled, and it stops
    stops : 0 < s.channel.senders → t ≡ record s { channel = drop_sender s.channel } → Step s t
    -- a receive takes a value
    takes :
        (v : V) (c : Channel V)
        → try_recv s.channel ≡ (some v, c)
        → t ≡ record s { channel = c; received = s.received ++ v ∷ [] }
        → Step s t
    -- a receive finds none
    finds_none :
        (c : Channel V) → try_recv s.channel ≡ (none, c) → t ≡ record s { channel = c } → Step s t
    closes : t ≡ record s { channel = close s.channel } → Step s t

  pub data Reach (cap : Option ℕ) : System V → Type 0 where
    start : Reach cap (record { channel = empty_channel cap; accepted = []; received = [] })
    later : {s t : System V} → Reach cap s → Step s t → Reach cap t

  -- the bound of the capacity
  abbrev pub Fits : Option ℕ → List V → Type 0
  Fits none q = Unit {0}
  Fits (some cap) q = length q ≤ cap

  record Inv (cap : Option ℕ) (s : System V) : Type 0 where
    same : s.channel.capacity ≡ cap
    order : s.accepted ≡ s.received ++ s.channel.queue
    fits : Fits cap s.channel.queue

  sender_queue :
      (c d : Channel V) → channel_sender c ≡ ok d → (d.queue ≡ c.queue) × (d.capacity ≡ c.capacity)
  unfolding channel_sender
  sender_queue c d h = ground arith

  room-Fits :
      (cap : Option ℕ) (c d : Channel V) (v : V)
      → c.capacity ≡ cap
      → offer v c ≡ (d, true)
      → (d.queue ≡ c.queue ++ v ∷ []) × (d.capacity ≡ cap) × Fits cap (c.queue ++ v ∷ [])
  unfolding offer has_room push
  room-Fits none c d v e h = ground arith
  room-Fits (some cap) c d v e h = ground (arith, length-append c.queue (v ∷ []))

  -- what a receive leaves, and what it says
  received_queue :
      (c d : Channel V) (q : List V) (v : V)
      → after_receive (receive_from q c) ≡ (some v, d)
      → (q ≡ v ∷ d.queue) × (d.capacity ≡ c.capacity)
  unfolding receive_from after_receive
  received_queue c d [] v h = ground arith
  received_queue c d (w ∷ q) v h = ground arith

  missed_queue :
      (c d : Channel V) (q : List V)
      → q ≡ c.queue
      → after_receive (receive_from q c) ≡ (none, d)
      → (d.queue ≡ c.queue) × (d.capacity ≡ c.capacity) × (c.queue ≡ [])
  unfolding receive_from after_receive
  missed_queue c d [] e h = ground arith
  missed_queue c d (w ∷ q) e h = ground arith

  Fits-tail : (cap : Option ℕ) (v : V) (q : List V) → Fits cap (v ∷ q) → Fits cap q
  Fits-tail none v q h = tt
  Fits-tail (some cap) v q h = omega arith

  module _ {cap : Option ℕ} where
    Step-Inv : {s t : System V} → Step s t → Inv cap s → Inv cap t
    unfolding drop_sender try_recv close
    Step-Inv {s} (begins c h e) v =
        let (q, k) = sender_queue s.channel c h in
        subst (Inv cap) (sym e) (record {
          same = k ∙ v.same;
          order = v.order ∙ ap (λ z. s.received ++ z) (sym q);
          fits = subst (Fits cap) (sym q) v.fits;
        })
    Step-Inv {s} (delivers x c h k e) v =
        let (q, m, f) = room-Fits cap s.channel c x v.same k in
        subst (Inv cap) (sym e) (record {
          same = m;
          order =
              ap (λ z. z ++ x ∷ []) v.order
              ∙ append_assoc s.received s.channel.queue (x ∷ [])
              ∙ ap (λ z. s.received ++ z) (sym q);
          fits = subst (Fits cap) (sym q) f;
        })
    Step-Inv {s} (stops h e) v =
        subst (Inv cap) (sym e) (record { same = v.same; order = v.order; fits = v.fits })
    Step-Inv {s} (takes x c h e) v =
        let (q, k) = received_queue s.channel c s.channel.queue x h in
        subst (Inv cap) (sym e) (record {
          same = k ∙ v.same;
          order =
              v.order
              ∙ ap (λ z. s.received ++ z) q
              ∙ sym (append_assoc s.received (x ∷ []) c.queue);
          fits = Fits-tail cap x c.queue (subst (Fits cap) q v.fits);
        })
    Step-Inv {s} (finds_none c h e) v =
        let (q, k, _) = missed_queue s.channel c s.channel.queue refl h in
        subst (Inv cap) (sym e) (record {
          same = k ∙ v.same;
          order = v.order ∙ ap (λ z. s.received ++ z) (sym q);
          fits = subst (Fits cap) (sym q) v.fits;
        })
    Step-Inv {s} (closes e) v =
        subst (Inv cap) (sym e) (record { same = v.same; order = v.order; fits = v.fits })

    Reach-Inv : {s : System V} → Reach cap s → Inv cap s
    Reach-Inv start = record { same = refl; order = refl; fits = empty_fits cap }
      where
        empty_fits : (cap : Option ℕ) → Fits cap []
        empty_fits none = tt
        empty_fits (some cap) = omega arith
    Reach-Inv (later r st) = Step-Inv st (Reach-Inv r)

    -- However sends, receives, timeouts and closes interleave, the values come out in the order in which
    -- they went in, none lost and none twice, and the queue never exceeds the capacity.
    pub first_in_first_out :
        {s : System V}
        → Reach cap s
        → (s.accepted ≡ s.received ++ s.channel.queue) × Fits cap s.channel.queue
    first_in_first_out r = let v = Reach-Inv r in (v.order, v.fits)

    -- A receive that finds none leaves nothing behind: every value that was taken has been received.
    pub nothing_left :
        {s : System V} {c : Channel V}
        → Reach cap s
        → try_recv s.channel ≡ (none, c)
        → s.received ≡ s.accepted
    unfolding try_recv
    nothing_left {s} {c} r h =
        let (_, _, gone) = missed_queue s.channel c s.channel.queue refl h in
        sym ((Reach-Inv r).order ∙ ap (λ z. s.received ++ z) gone ∙ append-nil s.received)
