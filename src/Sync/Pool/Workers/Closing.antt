-- ===== src/Sync/Pool/Workers/Closing.antt =====
-- The close of a worker pool of src/sync_primitives.rs, beside a worker that is about to wait.
use mux_runtime.Common.{ℕ, ◌+◌, ◌≡◌, refl, true}
use mux_runtime.Sync.Pool.Workers.{System, parks, shuts, wakes_all, Reach, later}

module _ {T : Type 0} where
  -- The close can miss a worker: from every reachable state in which a worker has found the queue empty
  -- and the pool open and does not wait yet, the close can set the flag and wake the waiting workers
  -- first, and then the pool is closed, its waking is over and that worker waits.
  pub close-misses_worker :
      {workers capacity : ℕ} {s : System T}
      → Reach workers capacity s
      → s.deciding ≡ true
      → (t : System T) × Reach workers capacity t
        × (t.pool.closed ≡ true)
        × (t.woke_all ≡ true)
        × (t.ready ≡ s.ready + s.parked)
        × (t.parked ≡ 1)
  close-misses_worker r d = (
    _,
    later (later (later r (shuts refl)) (wakes_all refl refl)) (parks d refl),
    refl,
    refl,
    refl,
    refl,
  )
