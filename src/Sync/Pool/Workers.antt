-- ===== src/Sync/Pool/Workers.antt =====
-- The threads of a worker pool of src/sync_primitives.rs: workers, submitters and a call that closes it,
-- in any order. The lock of the queue makes each look one step, but for a worker that has found nothing
-- to do: it holds the lock until it waits, and the flag `closed` can be set and the waiting workers can
-- be woken meanwhile, since `close_pool` takes no lock for either.
pub mod Numbers
pub mod Order
pub mod Closing
use mux_runtime.Common.{
  ℕ, zero, suc, ◌+◌, ◌-◌, ◌≤◌, ◌<◌, ◌≡◌, refl, sym, ap, ◌∙◌, subst, arith, ◌⊎◌, inl, inr, Bool,
  true, false, ltb, ◌==◌, if◌then◌else◌, List, [], ◌∷◌, ◌++◌, append-nil, append_assoc, length,
  length-append,
}
use mux_runtime.Sync.Pool.{
  PoolState, Turn, runs, exits, waits, Offer, refused, queued, full, worker_turn, offer, drain,
}

-- The queue; the workers that will look, that run a task, that wait and that have left; whether one holds
-- the lock and is about to wait; the submitters that will look and that wait for space; whether the call
-- that closes has woken the workers; and the tasks that were taken in and that left the queue, in order.
pub record System (T : Type 0) : Type 0 where
  pub pool : PoolState T
  pub ready : ℕ
  pub busy : ℕ
  pub parked : ℕ
  pub gone : ℕ
  pub deciding : Bool
  pub offering : ℕ
  pub blocked : ℕ
  pub woke_all : Bool
  pub accepted : List T
  pub handled : List T

module _ {T : Type 0} where
  pub data Step (s t : System T) : Type 0 where
    -- A worker takes a task, and `space.notify_one` wakes a submitter if one waits.
    takes :
        (x : T) (p : PoolState T)
        → s.deciding ≡ false
        → 0 < s.ready
        → worker_turn s.pool.queue s.pool ≡ runs x p
        → t ≡ record s {
          pool = p;
          ready = s.ready - 1;
          busy = s.busy + 1;
          offering = if s.blocked == 0 then s.offering else s.offering + 1;
          blocked = s.blocked - 1;
          handled = s.handled ++ x ∷ [];
        }
        → Step s t
    finishes : 0 < s.busy → t ≡ record s { busy = s.busy - 1; ready = s.ready + 1 } → Step s t
    leaves :
        s.deciding ≡ false
        → 0 < s.ready
        → worker_turn s.pool.queue s.pool ≡ exits
        → t ≡ record s { ready = s.ready - 1; gone = s.gone + 1 }
        → Step s t
    -- A worker finds nothing to do and the pool open, and then waits.
    decides :
        s.deciding ≡ false
        → 0 < s.ready
        → worker_turn s.pool.queue s.pool ≡ waits
        → t ≡ record s { ready = s.ready - 1; deciding = true }
        → Step s t
    parks : s.deciding ≡ true → t ≡ record s { deciding = false; parked = s.parked + 1 } → Step s t
    -- a worker that waits is woken for no reason
    stirs : 0 < s.parked → t ≡ record s { parked = s.parked - 1; ready = s.ready + 1 } → Step s t
    arrives : t ≡ record s { offering = s.offering + 1 } → Step s t
    -- A submitter queues its task, and `wake.notify_one` wakes a worker if one waits.
    submits :
        (x : T) (p : PoolState T)
        → s.deciding ≡ false
        → 0 < s.offering
        → offer x s.pool ≡ queued p
        → t ≡ record s {
          pool = p;
          offering = s.offering - 1;
          ready = if s.parked == 0 then s.ready else s.ready + 1;
          parked = s.parked - 1;
          accepted = s.accepted ++ x ∷ [];
        }
        → Step s t
    -- it is refused, or its time is over
    fails : 0 < s.offering → t ≡ record s { offering = s.offering - 1 } → Step s t
    blocks :
        (x : T)
        → s.deciding ≡ false
        → 0 < s.offering
        → offer x s.pool ≡ full
        → t ≡ record s { offering = s.offering - 1; blocked = s.blocked + 1 }
        → Step s t
    unblocks :
        0 < s.blocked
        → t ≡ record s { blocked = s.blocked - 1; offering = s.offering + 1 }
        → Step s t
    -- `close_pool`: the flag, the tasks that are cancelled, and the workers woken
    shuts : t ≡ record s { pool = record s.pool { closed = true } } → Step s t
    cancels :
        s.deciding ≡ false
        → t ≡ record s {
          pool = (drain s.pool).1;
          offering = s.offering + s.blocked;
          blocked = 0;
          handled = s.handled ++ (drain s.pool).0;
        }
        → Step s t
    wakes_all :
        s.pool.closed ≡ true
        → t ≡ record s { ready = s.ready + s.parked; parked = 0; woke_all = true }
        → Step s t

  pub data Reach (workers capacity : ℕ) : System T → Type 0 where
    start : Reach workers capacity (record {
      pool = record { queue = []; queue_capacity = capacity; closed = false };
      ready = workers;
      busy = 0;
      parked = 0;
      gone = 0;
      deciding = false;
      offering = 0;
      blocked = 0;
      woke_all = false;
      accepted = [];
      handled = [];
    })
    later : {s t : System T} → Reach workers capacity s → Step s t → Reach workers capacity t

  pub turn_runs :
      (q : List T) (s p : PoolState T) (x : T)
      → worker_turn q s ≡ runs x p
      → (q ≡ x ∷ p.queue) × (p.queue_capacity ≡ s.queue_capacity)
  unfolding worker_turn
  turn_runs [] s p x h = ground arith
  turn_runs (y ∷ q) s p x h = ground arith

  pub turn_empty : (q : List T) (s : PoolState T) → worker_turn q s ≡ waits → q ≡ []
  unfolding worker_turn
  turn_empty [] s h = refl
  turn_empty (y ∷ q) s h = cc

  pub offer_queued :
      (x : T) (s p : PoolState T)
      → offer x s ≡ queued p
      → (p.queue ≡ s.queue ++ x ∷ [])
        × (p.queue_capacity ≡ s.queue_capacity)
        × (length s.queue < s.queue_capacity)
        × (s.closed ≡ false)
  unfolding offer
  offer_queued x s p h = ground arith

  pub turn_exits :
      (q : List T) (s : PoolState T) → worker_turn q s ≡ exits → (q ≡ []) × (s.closed ≡ true)
  unfolding worker_turn
  turn_exits [] s h = ground arith
  turn_exits (y ∷ q) s h = cc
