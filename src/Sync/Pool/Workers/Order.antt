-- ===== src/Sync/Pool/Workers/Order.antt =====
-- The tasks of a worker pool of src/sync_primitives.rs, in the order in which they go through its queue.
use mux_runtime.Common.{ℕ, ◌≡◌, refl, sym, ap, ◌∙◌, subst, [], ◌∷◌, ◌++◌, append-nil, append_assoc}
use mux_runtime.Sync.Pool.{exits, worker_turn, drain}
use mux_runtime.Sync.Pool.Workers.{
  System, Step, takes, finishes, leaves, decides, parks, stirs, arrives, submits, fails, blocks,
  unblocks, shuts, cancels, wakes_all, Reach, start, later, turn_runs, turn_exits, offer_queued,
}

module _ {T : Type 0} where
  -- the tasks that were taken in are those that left the queue and those in it
  abbrev Kept : System T → Type 0
  Kept s = s.accepted ≡ s.handled ++ s.pool.queue

  Step-Kept : {s t : System T} → Step s t → Kept s → Kept t
  unfolding drain
  Step-Kept {s} (takes x p d l h e) v = subst Kept (sym e) (
      v
      ∙ ap (λ z. s.handled ++ z) (turn_runs s.pool.queue s.pool p x h).0
      ∙ sym (append_assoc s.handled (x ∷ []) p.queue))
  Step-Kept (finishes l e) v = subst Kept (sym e) v
  Step-Kept (leaves d l h e) v = subst Kept (sym e) v
  Step-Kept (decides d l h e) v = subst Kept (sym e) v
  Step-Kept (parks d e) v = subst Kept (sym e) v
  Step-Kept (stirs l e) v = subst Kept (sym e) v
  Step-Kept (arrives e) v = subst Kept (sym e) v
  Step-Kept {s} (submits x p d l h e) v = subst Kept (sym e) (
      ap (λ z. z ++ x ∷ []) v
      ∙ append_assoc s.handled s.pool.queue (x ∷ [])
      ∙ ap (λ z. s.handled ++ z) (sym (offer_queued x s.pool p h).0))
  Step-Kept (fails l e) v = subst Kept (sym e) v
  Step-Kept (blocks x d l h e) v = subst Kept (sym e) v
  Step-Kept (unblocks l e) v = subst Kept (sym e) v
  Step-Kept (shuts e) v = subst Kept (sym e) v
  Step-Kept {s} (cancels d e) v =
      subst Kept (sym e) (v ∙ sym (append-nil (s.handled ++ s.pool.queue)))
  Step-Kept (wakes_all c e) v = subst Kept (sym e) v

  -- Tasks leave the queue in the order in which they were taken in: those that left it, to be run or
  -- cancelled, and then those still in it are exactly the tasks that were taken in, whatever the threads
  -- do.
  pub tasks_in_order :
      {workers capacity : ℕ} {s : System T}
      → Reach workers capacity s
      → s.accepted ≡ s.handled ++ s.pool.queue
  tasks_in_order start = refl
  tasks_in_order (later r st) = Step-Kept st (tasks_in_order r)

  -- Once a worker has left the pool with nothing more to do, every task that was taken in has been run
  -- or cancelled.
  pub none_left_behind :
      {workers capacity : ℕ} {s : System T}
      → Reach workers capacity s
      → worker_turn s.pool.queue s.pool ≡ exits
      → s.handled ≡ s.accepted
  none_left_behind {s = s} r h = sym (
      tasks_in_order r
      ∙ ap (λ z. s.handled ++ z) (turn_exits s.pool.queue s.pool h).0
      ∙ append-nil s.handled)
