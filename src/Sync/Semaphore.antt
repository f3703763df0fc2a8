-- ===== src/Sync/Semaphore.antt =====
-- The semaphore of src/sync_primitives.rs: its counter, and the operations on a handle. What a thread
-- does while it waits is in the child.
pub mod Waiting
use mux_runtime.Common.{
  ℕ, ◌+◌, ◌-◌, Bool, true, false, ltb, ◌==◌, if◌then◌else◌, Option, none, some, Result, ok, err,
}
use mux_runtime.Common.Int.{ℤ, pos, negsuc}
use mux_runtime.Sync.Handles.{
  SyncError, negative_permits, negative_timeout, timeout_too_large, too_many_permits, Handle,
  Registry, new_counted, entry_of,
}
use mux_runtime.Sync.Atomic.{Outcome, Done, on_entry}

-- `SemaphoreState`, and the `max` of `SemaphoreEntry`
pub record Semaphore : Type 0 where
  pub permits : ℕ
  pub max : ℕ

unfoldable pub semaphore_with_permits :
    Bool → ℤ → Registry Semaphore → Outcome ℕ × Registry Semaphore
unfolding new_counted
semaphore_with_permits allocated (negsuc n) r = (err negative_permits, r)
semaphore_with_permits allocated (pos n) r =
    new_counted allocated (record { permits = n; max = n }) r

-- The test of the loop in `acquire` under the lock: a permit is taken, or `none` where the thread waits.
unfoldable pub take_permit : Semaphore → Option Semaphore
take_permit s = if s.permits == 0 then none else some (record s { permits = s.permits - 1 })

-- What `acquire_timeout` does when its wait is over, for whatever reason
unfoldable pub take_if_any : Semaphore → Semaphore × Bool
take_if_any s = if s.permits == 0 then (s, false) else (record s { permits = s.permits - 1 }, true)

unfoldable pub try_acquire_at : Semaphore → Semaphore × Bool
try_acquire_at s =
    let acquired = ltb 0 s.permits in
    (if acquired then record s { permits = s.permits - 1 } else s, acquired)

unfoldable pub release_at : Semaphore → Semaphore × Done
release_at s =
    if s.permits == s.max
    then (s, err too_many_permits)
    else (record s { permits = s.permits + 1 }, ok tt)

-- a result inside a result
abbrev pub flatten : Outcome Done → Done
flatten (ok d) = d
flatten (err e) = err e

unfoldable pub semaphore_try_acquire :
    Handle → Registry Semaphore → Registry Semaphore × Outcome Bool
unfolding on_entry try_acquire_at
semaphore_try_acquire h r = on_entry try_acquire_at h r

unfoldable pub semaphore_release : Handle → Registry Semaphore → Registry Semaphore × Done
unfolding on_entry release_at
semaphore_release h r = let (r', o) = on_entry release_at h r in (r', flatten o)

-- `timeout_duration`, in milliseconds
unfoldable pub timeout_duration : ℤ → Outcome ℕ
timeout_duration (pos n) = if ltb 4294967295 n then err timeout_too_large else ok n
timeout_duration (negsuc n) = ok 0

-- `acquire_timeout` where the wait ends with the table as it stands
unfoldable pub semaphore_acquire_timeout :
    Handle → ℤ → Registry Semaphore → Registry Semaphore × Outcome Bool
unfolding on_entry take_if_any timeout_duration entry_of
semaphore_acquire_timeout h (negsuc n) r = (r, err negative_timeout)
semaphore_acquire_timeout h (pos n) r = elim (timeout_duration (pos n)) [
  | ok t ↦ on_entry take_if_any h r
  | err e ↦ (r, elim (entry_of h r) [ err x ↦ err x | ok s ↦ err e ])
]
