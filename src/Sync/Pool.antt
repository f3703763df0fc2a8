-- ===== src/Sync/Pool.antt =====
-- The worker pool of src/sync_primitives.rs: its queue of tasks and what workers and submitters do with
-- it under the queue's lock. The threads are in the child; running a task and its result channel are left
-- to the callback.
pub mod Workers
use mux_runtime.Common.{
  ℕ, zero, suc, ◌+◌, ◌-◌, Bool, true, false, ◌&&◌, ltb, leb, ◌==◌, if◌then◌else◌, Option, none,
  some, List, [], ◌∷◌, ◌++◌, length, Result, ok, err, ◌>>=◌,
}
use mux_runtime.Common.Int.{ℤ, pos, negsuc, ◌*ℤ◌, ltb_ℤ, i64_max, min_ℤ}
use mux_runtime.Sync.Handles.{
  SyncError, worker_count_out_of_range, queue_capacity_out_of_range, negative_timeout, pool_closed,
}
use mux_runtime.Sync.Atomic.{Outcome}
use mux_runtime.Sync.Semaphore.{timeout_duration}

-- `PoolState`, less its condition variables
pub record PoolState (T : Type 0) : Type 0 where
  pub queue : List T
  pub queue_capacity : ℕ
  pub closed : Bool

-- what a worker does that looks at the queue
pub data Turn (T : Type 0) : Type 0 where
  runs : T → PoolState T → Turn T
  exits : Turn T
  waits : Turn T

-- what a submitter does that looks at the queue
pub data Offer (T : Type 0) : Type 0 where
  refused : Offer T
  queued : PoolState T → Offer T
  full : Offer T

-- The checks of `pool_enqueue` before the loop: the timeout, `none` for a wait without end
unfoldable pub enqueue_timeout : Option ℤ → Outcome (Option ℕ)
unfolding timeout_duration
enqueue_timeout none = ok none
enqueue_timeout (some (negsuc n)) = err negative_timeout
enqueue_timeout (some (pos n)) = do t ← timeout_duration (pos n); ok (some t)

module _ {T : Type 0} where
  -- the inner loop of `pool_worker`
  unfoldable pub worker_turn : List T → PoolState T → Turn T
  worker_turn (t ∷ ts) s = runs t (record s { queue = ts })
  worker_turn [] s = if s.closed then exits else waits

  -- the loop of `pool_enqueue`, up to its wait for space
  unfoldable pub offer : T → PoolState T → Offer T
  offer t s =
      if s.closed
      then refused
      else if ltb (length s.queue) s.queue_capacity
      then queued (record s { queue = s.queue ++ t ∷ [] })
      else full

  -- `queue.drain(..)` of `close_pool` and `mux_pool_cancel_pending`
  unfoldable pub drain : PoolState T → List T × PoolState T
  drain s = (s.queue, record s { queue = [] })

  -- the checks of `create_pool`, and the number of workers and the state that it starts with
  unfoldable pub create_pool : ℤ → ℤ → Outcome (ℕ × PoolState T)
  create_pool (pos workers) (pos capacity) =
      if leb 1 workers && leb workers 256
      then (if leb 1 capacity && leb capacity 65536
          then ok (workers, record { queue = []; queue_capacity = capacity; closed = false })
          else err queue_capacity_out_of_range)
      else err worker_count_out_of_range
  create_pool (pos workers) (negsuc c) =
      if leb 1 workers && leb workers 256
      then err queue_capacity_out_of_range
      else err worker_count_out_of_range
  create_pool (negsuc w) capacity = err worker_count_out_of_range

  -- `workers.saturating_mul(64)` of `mux_pool_with_size`, whose product is above 2^63 only for counts
  -- that are refused
  unfoldable pub pool_with_size : ℤ → Outcome (ℕ × PoolState T)
  unfolding create_pool
  pool_with_size workers = create_pool workers (min_ℤ (workers *ℤ pos 64) i64_max)
