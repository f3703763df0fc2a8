-- ===== src/Sync/Once.antt =====
-- `Once` of src/sync_primitives.rs: the status of its callback, and the threads that call it.
use mux_runtime.Common.{
  ℕ, ◌+◌, ◌-◌, ◌≤◌, ◌<◌, ◌≡◌, refl, arith, ◌⊎◌, inl, Bool, true, false, Option,
}
use mux_runtime.Sync.Handles.{Registry, new_raw_counted}

pub data OnceStatus : Type 0 where
  pending : OnceStatus
  running : OnceStatus
  complete : OnceStatus

unfoldable pub once_new : Bool → Registry OnceStatus → Option ℕ × Registry OnceStatus
unfolding new_raw_counted
once_new allocated r = new_raw_counted allocated pending r

-- what a thread does that looks at the status under the lock
pub data Look : Type 0 where
  returns : Look
  runs : OnceStatus → Look
  waits : Look

unfoldable pub look : OnceStatus → Look
look complete = returns
look pending = runs running
look running = waits

-- the status behind the callback: it stays open if the callback failed
unfoldable pub after_callback : Bool → OnceStatus
after_callback true = complete
after_callback false = pending

-- The status, the threads in the callback, those that wait, those that are woken, and how often the
-- callback succeeded.
pub record System : Type 0 where
  pub status : OnceStatus
  pub inside : ℕ
  pub parked : ℕ
  pub woken : ℕ
  pub successes : ℕ

pub data Step (s t : System) : Type 0 where
  -- a call of `call` that returns, starts the callback, or waits
  returned : look s.status ≡ returns → t ≡ s → Step s t
  started :
      (o : OnceStatus)
      → look s.status ≡ runs o
      → t ≡ record s { status = o; inside = s.inside + 1 }
      → Step s t
  parks : look s.status ≡ waits → t ≡ record s { parked = s.parked + 1 } → Step s t
  -- a woken thread looks again
  woken_returns :
      0 < s.woken → look s.status ≡ returns → t ≡ record s { woken = s.woken - 1 } → Step s t
  woken_starts :
      (o : OnceStatus)
      → 0 < s.woken
      → look s.status ≡ runs o
      → t ≡ record s { status = o; inside = s.inside + 1; woken = s.woken - 1 }
      → Step s t
  woken_parks :
      0 < s.woken
      → look s.status ≡ waits
      → t ≡ record s { parked = s.parked + 1; woken = s.woken - 1 }
      → Step s t
  -- a thread that waits is woken for no reason
  stirs : 0 < s.parked → t ≡ record s { parked = s.parked - 1; woken = s.woken + 1 } → Step s t
  -- the callback ends, and `notify_all` wakes every thread
  succeeds :
      0 < s.inside
      → t ≡ record {
        status = after_callback true;
        inside = s.inside - 1;
        parked = 0;
        woken = s.woken + s.parked;
        successes = s.successes + 1;
      }
      → Step s t
  fails :
      0 < s.inside
      → t ≡ record s {
        status = after_callback false;
        inside = s.inside - 1;
        parked = 0;
        woken = s.woken + s.parked;
      }
      → Step s t

pub data Reach : System → Type 0 where
  start : Reach (record { status = pending; inside = 0; parked = 0; woken = 0; successes = 0 })
  later : {s t : System} → Reach s → Step s t → Reach t

-- how many threads are in the callback, how often it has succeeded, and whether a thread may wait
abbrev inside_at : OnceStatus → ℕ
inside_at pending = 0
inside_at running = 1
inside_at complete = 0

abbrev successes_at : OnceStatus → ℕ
successes_at pending = 0
successes_at running = 0
successes_at complete = 1

record Inv (s : System) : Type 0 where
  one : s.inside ≡ inside_at s.status
  once : s.successes ≡ successes_at s.status
  awake : (s.parked ≡ 0) ⊎ (s.status ≡ running)

Step-Inv : {s t : System} → Step s t → Inv s → Inv t
unfolding look after_callback
Step-Inv (returned h e) v = ground arith
Step-Inv (started o h e) v = ground arith
Step-Inv (parks h e) v = ground arith
Step-Inv (woken_returns h k e) v = ground arith
Step-Inv (woken_starts o h k e) v = ground arith
Step-Inv (woken_parks h k e) v = ground arith
Step-Inv (stirs h e) v = ground arith
Step-Inv (succeeds h e) v = ground arith
Step-Inv (fails h e) v = ground arith

Reach-Inv : {s : System} → Reach s → Inv s
Reach-Inv start = record { one = refl; once = refl; awake = inl refl }
Reach-Inv (later r st) = Step-Inv st (Reach-Inv r)

-- However calls interleave, at most one thread is in the callback, the callback succeeds at most once,
-- and it is in progress while any thread waits for it.
pub runs_once :
    {s : System}
    → Reach s
    → (s.inside ≤ 1)
      × (s.successes ≤ 1)
      × (s.inside + s.successes ≤ 1)
      × ((s.parked ≡ 0) ⊎ (s.inside ≡ 1))
runs_once {s} r = bounds (Reach-Inv r)
  where
    bounds :
        Inv s
        → (s.inside ≤ 1)
          × (s.successes ≤ 1)
          × (s.inside + s.successes ≤ 1)
          × ((s.parked ≡ 0) ⊎ (s.inside ≡ 1))
    bounds v = ground arith
