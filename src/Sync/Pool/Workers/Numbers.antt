-- ===== src/Sync/Pool/Workers/Numbers.antt =====
-- The worker pool of src/sync_primitives.rs, with any interleaving of its threads: how many of them
-- are where, and how long the queue is.
use mux_runtime.Common.{
  ℕ, suc, ◌+◌, ◌-◌, ◌≤◌, ◌<◌, ◌≡◌, refl, sym, ap, ◌∙◌, subst, arith, ◌⊎◌, inl, inr, Bool, true,
  false, ◌==◌, if◌then◌else◌, List, [], ◌∷◌, ◌++◌, length, length-append,
}
use mux_runtime.Sync.Pool.{PoolState, runs, queued, worker_turn, offer, drain}
use mux_runtime.Sync.Pool.Workers.{
  System, Step, takes, finishes, leaves, decides, parks, stirs, arrives, submits, fails, blocks,
  unblocks, shuts, cancels, wakes_all, Reach, start, later, turn_runs, turn_empty, turn_exits,
  offer_queued,
}

abbrev one_if : Bool → ℕ
one_if true = 1
one_if false = 0

module _ {T : Type 0} where
  -- The numbers: every worker is somewhere, the queue is within its bound, and no task waits for a
  -- worker that was not woken for it.
  record Inv (workers capacity : ℕ) (s : System T) : Type 0 where
    bound : s.pool.queue_capacity ≡ capacity
    within : length s.pool.queue ≤ capacity
    somewhere : s.ready + s.busy + s.parked + s.gone + one_if s.deciding ≡ workers
    awake : (s.parked ≡ 0) ⊎ (length s.pool.queue ≤ s.ready)
    left : (s.gone ≡ 0) ⊎ ((s.pool.closed ≡ true) × (length s.pool.queue ≡ 0))
    nothing : (s.deciding ≡ false) ⊎ (length s.pool.queue ≡ 0)

  turn_front :
      (p : PoolState T) {x : T} {q : List T}
      → p.queue ≡ x ∷ q
      → worker_turn p.queue p ≡ runs x (record p { queue = q })
  unfolding worker_turn
  turn_front p h = ap (λ z. worker_turn z p) h

  module _ {workers capacity : ℕ} where
    -- the steps that change none of these numbers
    Inv-frame :
        {s : System T} (o b : ℕ) (c : Bool)
        → (s.pool.closed ≡ true → c ≡ true)
        → Inv workers capacity s
        → Inv workers capacity
            (record s { pool = record s.pool { closed = c }; offering = o; blocked = b })
    Inv-frame o b c k v = record {
      bound = v.bound;
      within = v.within;
      somewhere = v.somewhere;
      awake = v.awake;
      left = ground (arith, v.left, k);
      nothing = v.nothing;
    }

    takes_Inv :
        {s : System T} (x : T) (p : PoolState T)
        → s.deciding ≡ false
        → 0 < s.ready
        → worker_turn s.pool.queue s.pool ≡ runs x p
        → Inv workers capacity s
        → Inv workers capacity (record s {
          pool = p;
          ready = s.ready - 1;
          busy = s.busy + 1;
          offering = if s.blocked == 0 then s.offering else s.offering + 1;
          blocked = s.blocked - 1;
          handled = s.handled ++ x ∷ [];
        })
    takes_Inv {s} x p d l h v =
        let (q, k) = turn_runs s.pool.queue s.pool p x h in
        let n = ap length q in
        record {
          bound = k ∙ v.bound;
          within = ground (arith, v.within, n);
          somewhere = ground (arith, v.somewhere);
          awake = ground (arith, v.awake, n);
          left = ground (arith, v.left, n);
          nothing = inl d;
        }

    submits_Inv :
        {s : System T} (x : T) (p : PoolState T)
        → s.deciding ≡ false
        → offer x s.pool ≡ queued p
        → Inv workers capacity s
        → Inv workers capacity (record s {
          pool = p;
          offering = s.offering - 1;
          ready = if s.parked == 0 then s.ready else s.ready + 1;
          parked = s.parked - 1;
          accepted = s.accepted ++ x ∷ [];
        })
    submits_Inv {s} x p d h v =
        let (q, k, m, c) = offer_queued x s.pool p h in
        let n = ap length q ∙ length-append s.pool.queue (x ∷ []) in
        record {
          bound = k ∙ v.bound;
          within = ground (arith, v.bound, n);
          somewhere = ground (arith, v.somewhere);
          awake = ground (arith, v.awake, n);
          left = ground (arith, v.left, c);
          nothing = inl d;
        }

    Step-Inv : {s t : System T} → Step s t → Inv workers capacity s → Inv workers capacity t
    unfolding drain
    Step-Inv (takes x p d l h e) v = subst (Inv workers capacity) (sym e) (takes_Inv x p d l h v)
    Step-Inv (finishes l e) v = subst (Inv workers capacity) (sym e) (record {
      bound = v.bound;
      within = v.within;
      somewhere = ground (arith, v.somewhere);
      awake = ground (arith, v.awake);
      left = v.left;
      nothing = v.nothing;
    })
    Step-Inv {s} (leaves d l h e) v = subst (Inv workers capacity) (sym e) (record {
      bound = v.bound;
      within = v.within;
      somewhere = ground (arith, v.somewhere);
      awake = ground (arith, v.awake, ap length (turn_exits s.pool.queue s.pool h).0);
      left = inr (let (q, c) = turn_exits s.pool.queue s.pool h in (c, ap length q));
      nothing = v.nothing;
    })
    Step-Inv {s} (decides d l h e) v =
        let n = ap length (turn_empty s.pool.queue s.pool h) in
        subst (Inv workers capacity) (sym e) (record {
          bound = v.bound;
          within = v.within;
          somewhere = ground (arith, v.somewhere, ap one_if d);
          awake = ground (arith, v.awake, n);
          left = v.left;
          nothing = inr n;
        })
    Step-Inv (parks d e) v = subst (Inv workers capacity) (sym e) (record {
      bound = v.bound;
      within = v.within;
      somewhere = ground (arith, v.somewhere, ap one_if d);
      awake = ground (arith, v.nothing, d);
      left = v.left;
      nothing = inl refl;
    })
    Step-Inv (stirs l e) v = subst (Inv workers capacity) (sym e) (record {
      bound = v.bound;
      within = v.within;
      somewhere = ground (arith, v.somewhere);
      awake = ground (arith, v.awake);
      left = v.left;
      nothing = v.nothing;
    })
    Step-Inv {s} (arrives e) v =
        subst (Inv workers capacity) (sym e)
          (Inv-frame (s.offering + 1) s.blocked s.pool.closed (λ x. x) v)
    Step-Inv (submits x p d l h e) v = subst (Inv workers capacity) (sym e) (submits_Inv x p d h v)
    Step-Inv {s} (fails l e) v =
        subst (Inv workers capacity) (sym e)
          (Inv-frame (s.offering - 1) s.blocked s.pool.closed (λ x. x) v)
    Step-Inv {s} (blocks x d l h e) v =
        subst (Inv workers capacity) (sym e)
          (Inv-frame (s.offering - 1) (s.blocked + 1) s.pool.closed (λ x. x) v)
    Step-Inv {s} (unblocks l e) v =
        subst (Inv workers capacity) (sym e)
          (Inv-frame (s.offering + 1) (s.blocked - 1) s.pool.closed (λ x. x) v)
    Step-Inv {s} (shuts e) v =
        subst (Inv workers capacity) (sym e) (Inv-frame s.offering s.blocked true (λ x. refl) v)
    Step-Inv (cancels d e) v = subst (Inv workers capacity) (sym e) (record {
      bound = v.bound;
      within = omega arith;
      somewhere = v.somewhere;
      awake = inr (omega arith);
      left = ground (arith, v.left);
      nothing = inl d;
    })
    Step-Inv (wakes_all c e) v = subst (Inv workers capacity) (sym e) (record {
      bound = v.bound;
      within = v.within;
      somewhere = ground (arith, v.somewhere);
      awake = inl refl;
      left = v.left;
      nothing = v.nothing;
    })

    Reach-Inv : {s : System T} → Reach workers capacity s → Inv workers capacity s
    Reach-Inv start = record {
      bound = refl;
      within = omega arith;
      somewhere = omega arith;
      awake = inl refl;
      left = inl refl;
      nothing = inl refl;
    }
    Reach-Inv (later r st) = Step-Inv st (Reach-Inv r)

    -- a worker that is awake, when the queue is not empty
    worker_somewhere :
        {s : System T} {n : ℕ}
        → Inv workers capacity s
        → 0 < workers
        → length s.pool.queue ≡ suc n
        → (0 < s.busy) ⊎ ((s.deciding ≡ false) × (0 < s.ready))
    worker_somewhere {s} v w n =
        ground (arith, v.somewhere, v.awake, v.left, v.nothing, n, w, ap one_if)

    -- Whatever the threads do, every worker of the pool is in exactly one place, and the queue never
    -- exceeds its capacity.
    pub workers_conserved :
        {s : System T}
        → Reach workers capacity s
        → (s.ready + s.busy + s.parked + s.gone + one_if s.deciding ≡ workers)
          × (length s.pool.queue ≤ capacity)
    workers_conserved r = let v = Reach-Inv r in (v.somewhere, v.within)

    -- A task never waits while all workers sleep: in a pool with a worker, when a task is at the front of
    -- the queue, a worker runs another task or can take this one in one step, the pool closed or not.
    pub task_served :
        {s : System T} {x : T} {q : List T}
        → 0 < workers
        → Reach workers capacity s
        → s.pool.queue ≡ x ∷ q
        → (0 < s.busy) ⊎ ((t : System T) × Step s t × (t.handled ≡ s.handled ++ x ∷ []))
    task_served {s} {x} {q} w r h =
        let v = Reach-Inv r in
        let n = ap length h in
        elim (worker_somewhere v w n) [
          | inl b ↦ inl b
          | inr (d, l) ↦
              inr (_, takes x (record s.pool { queue = q }) d l (turn_front s.pool h) refl, refl)
        ]
