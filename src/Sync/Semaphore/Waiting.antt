-- ===== src/Sync/Semaphore/Waiting.antt =====
-- Threads at one semaphore of src/sync_primitives.rs. A thread that finds no permit waits on the
-- condition variable; it may be woken by a release, by its timeout or for no reason, and then looks
-- again. The lock makes each look and each release one step.
use mux_runtime.Common.{
  ℕ, ◌+◌, ◌-◌, ◌≤◌, ◌<◌, ◌≡◌, refl, arith, ◌⊎◌, inl, inr, Bool, false, if◌then◌else◌, none, some,
  ok,
}
use mux_runtime.Sync.Semaphore.{Semaphore, take_permit, take_if_any, try_acquire_at, release_at}

-- The semaphore, the threads that wait, those that are woken and have not looked yet, and how many
-- permits were taken and given back.
pub record System : Type 0 where
  pub semaphore : Semaphore
  pub parked : ℕ
  pub woken : ℕ
  pub taken : ℕ
  pub given : ℕ

-- One step of a thread.
pub data Step (s t : System) : Type 0 where
  -- a call of `acquire` or `acquire_timeout` finds a permit
  acquires :
      (m : Semaphore)
      → take_permit s.semaphore ≡ some m
      → t ≡ record s { semaphore = m; taken = s.taken + 1 }
      → Step s t
  -- it finds none, and waits
  parks : take_permit s.semaphore ≡ none → t ≡ record s { parked = s.parked + 1 } → Step s t
  -- `try_acquire`
  tries :
      (m : Semaphore) (b : Bool)
      → try_acquire_at s.semaphore ≡ (m, b)
      → t ≡ record s { semaphore = m; taken = if b then s.taken + 1 else s.taken }
      → Step s t
  -- the timeout of a thread that waits ends, or it is woken for no reason
  stirs : 0 < s.parked → t ≡ record s { parked = s.parked - 1; woken = s.woken + 1 } → Step s t
  -- a woken thread finds a permit
  resumes :
      (m : Semaphore)
      → 0 < s.woken
      → take_permit s.semaphore ≡ some m
      → t ≡ record s { semaphore = m; woken = s.woken - 1; taken = s.taken + 1 }
      → Step s t
  -- it finds none, and waits again
  parks_again :
      0 < s.woken
      → take_permit s.semaphore ≡ none
      → t ≡ record s { woken = s.woken - 1; parked = s.parked + 1 }
      → Step s t
  -- or its time is over
  gives_up :
      (m : Semaphore)
      → 0 < s.woken
      → take_if_any s.semaphore ≡ (m, false)
      → t ≡ record s { semaphore = m; woken = s.woken - 1 }
      → Step s t
  -- a release with no thread that waits
  releases :
      (m : Semaphore)
      → release_at s.semaphore ≡ (m, ok tt)
      → s.parked ≡ 0
      → t ≡ record s { semaphore = m; given = s.given + 1 }
      → Step s t
  -- a release that `notify_one` passes to a thread that waits
  wakes :
      (m : Semaphore)
      → release_at s.semaphore ≡ (m, ok tt)
      → 0 < s.parked
      → t ≡ record s {
        semaphore = m;
        parked = s.parked - 1;
        woken = s.woken + 1;
        given = s.given + 1;
      }
      → Step s t

pub data Reach (n : ℕ) : System → Type 0 where
  start : Reach n (record {
    semaphore = record { permits = n; max = n };
    parked = 0;
    woken = 0;
    taken = 0;
    given = 0;
  })
  later : {s t : System} → Reach n s → Step s t → Reach n t

record Inv (n : ℕ) (s : System) : Type 0 where
  bound : s.semaphore.max ≡ n
  counted : s.semaphore.permits + s.taken ≡ n + s.given
  within : s.semaphore.permits ≤ n
  awake : (s.parked ≡ 0) ⊎ (s.semaphore.permits ≤ s.woken)

module _ {n : ℕ} where
  Step-Inv : {s t : System} → Step s t → Inv n s → Inv n t
  unfolding take_permit take_if_any try_acquire_at release_at
  Step-Inv (acquires m h e) v = ground arith
  Step-Inv (parks h e) v = ground arith
  Step-Inv (tries m b h e) v = ground arith
  Step-Inv (stirs h e) v = ground arith
  Step-Inv (resumes m h k e) v = ground arith
  Step-Inv (parks_again h k e) v = ground arith
  Step-Inv (gives_up m h k e) v = ground arith
  Step-Inv (releases m h k e) v = ground arith
  Step-Inv (wakes m h k e) v = ground arith

  Reach-Inv : {s : System} → Reach n s → Inv n s
  Reach-Inv start = record { bound = refl; counted = refl; within = omega arith; awake = inl refl }
  Reach-Inv (later r st) = Step-Inv st (Reach-Inv r)

-- However acquires, tries, timeouts and releases interleave, the permits never exceed the number that
-- the semaphore was made with, and they are that number, less what was taken, plus what was given back.
pub permits_conserved :
    {n : ℕ} {s : System}
    → Reach n s
    → (s.semaphore.permits ≤ n) × (s.semaphore.permits + s.taken ≡ n + s.given)
permits_conserved r = let v = Reach-Inv r in (v.within, v.counted)

take_permit-some :
    (m : Semaphore) → 0 < m.permits → take_permit m ≡ some (record m { permits = m.permits - 1 })
unfolding take_permit
take_permit-some m h = ground arith

-- No wake-up is lost: while a thread waits and there is a permit, at least as many threads are woken as
-- there are permits, and one of them can take one.
pub no_lost_wakeup :
    {n : ℕ} {s : System}
    → Reach n s
    → 0 < s.parked
    → 0 < s.semaphore.permits
    → (s.semaphore.permits ≤ s.woken)
      × ((t : System) × Step s t × (t.taken ≡ s.taken + 1) × (t.woken + 1 ≡ s.woken))
no_lost_wakeup {s} r waiting free =
    let enough =
      awake_while_parked s.parked s.semaphore.permits s.woken (Reach-Inv r).awake waiting in
    (
      enough,
      (
        _,
        resumes _ (omega (arith, enough)) (take_permit-some s.semaphore free) refl,
        refl,
        omega (arith, enough),
      ),
    )
  where
    awake_while_parked : (p q w : ℕ) → (p ≡ 0) ⊎ (q ≤ w) → 0 < p → q ≤ w
    awake_while_parked p q w (inl z) h = absurd (omega arith)
    awake_while_parked p q w (inr l) h = l
