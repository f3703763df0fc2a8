-- ===== src/Sync/Tests.antt =====
-- Runs of src/sync_primitives.rs as modelled: the interleavings at concrete threads.
use mux_runtime.Common.{
  ℕ, ◌+◌, ◌≤◌, ◌<◌, ◌≡◌, refl, arith, ◌⊎◌, ◌↔◌, Bool, true, false, none, some, List, [], ◌∷◌, ◌++◌,
  ok,
}
use mux_runtime.Common.Int.{ℤ, pos}
use mux_runtime.Sync.Handles.{holding, Counted, Registry, entry_of, handle_id, update, insert_entry}
use mux_runtime.Sync.Handles.Counting
use mux_runtime.Sync.Handles.Counting.{live_iff_entry, entry_of-live}
use mux_runtime.Sync.Atomic.{
  atomic_int_compare_exchange, atomic_int_load, cancellation_cancel, cancellation_is_cancelled,
}
use mux_runtime.Sync.Atomic.Laws.{compare_exchange-once, cancel-seen}
use mux_runtime.Sync.Semaphore.{take_permit, release_at}
use mux_runtime.Sync.Semaphore.Waiting
use mux_runtime.Sync.Semaphore.Waiting.{permits_conserved, no_lost_wakeup}
use mux_runtime.Sync.Once
use mux_runtime.Sync.Once.{runs_once}
use mux_runtime.Sync.Channel.{
  Channel, empty_channel, try_recv, receive_from, after_receive, channel_sender, offer, has_room,
  push, drop_sender,
}
use mux_runtime.Sync.Channel.Traffic
use mux_runtime.Sync.Channel.Traffic.{Fits, first_in_first_out, nothing_left}
use mux_runtime.Sync.Channel.Select.{Meaning, select_pass, select_pass-Meaning}
use mux_runtime.Sync.Pool
use mux_runtime.Sync.Pool.{PoolState, worker_turn, exits}
use mux_runtime.Sync.Pool.Workers
use mux_runtime.Sync.Pool.Workers.Numbers.{workers_conserved, task_served}
use mux_runtime.Sync.Pool.Workers.Order.{tasks_in_order, none_left_behind}
use mux_runtime.Sync.Pool.Workers.Closing.{close-misses_worker}

-- a table with one new handle, whose entry holds 5
abbrev no_handles : Counting.System ℤ
no_handles = record {
  table = record { entries = λ i. none; next = 1 };
  live = λ i. 0;
  copying = λ i. 0;
}

abbrev one_handle : Counting.System ℤ
one_handle = record {
  table = (insert_entry (pos 5) no_handles.table).1;
  live = update (λ i. 0) 1 1;
  copying = λ i. 0;
}

one_handle-Reach : Counting.Reach one_handle
one_handle-Reach =
    Counting.later (Counting.start no_handles (λ i. refl) (λ i. refl) (λ i. refl))
      (Counting.make (pos 5) refl)

live_iff_entry_example :
    (0 < 1) ↔ ((e : Counted ℤ) × (one_handle.table.entries 1 ≡ some e) × (e.names ≡ 1))
live_iff_entry_example = live_iff_entry one_handle-Reach 1

entry_of-live_test :
    (e : Counted ℤ) × (entry_of (holding 1) one_handle.table ≡ ok e.value) × (e.names ≡ 1)
entry_of-live_test = entry_of-live 0 one_handle-Reach (omega arith)

abbrev five : Counted ℤ
five = record { value = pos 5; names = 2 }

abbrev one_atomic : Registry ℤ
one_atomic = record { entries = update (λ i. none) 3 (some five); next = 4 }

compare_exchange-once_test :
    ((atomic_int_compare_exchange (holding 3) (pos 5) (pos 6) one_atomic).1 ≡ ok (pos 5))
    × ((atomic_int_compare_exchange
          (holding 3)
          (pos 5)
          (pos 7)
          (atomic_int_compare_exchange (holding 3) (pos 5) (pos 6) one_atomic).0).1
        ≡ ok (pos 6))
    × (atomic_int_load
          (holding 3)
          (atomic_int_compare_exchange
            (holding 3)
            (pos 5)
            (pos 7)
            (atomic_int_compare_exchange (holding 3) (pos 5) (pos 6) one_atomic).0).0
        ≡ ok (pos 6))
unfolding handle_id
compare_exchange-once_test =
    compare_exchange-once (holding 3) (holding 3) one_atomic 3 five (pos 6) (pos 7) refl refl refl
      refl

abbrev one_token : Registry Bool
one_token = record {
  entries = update (λ i. none) 3 (some (record { value = false; names = 2 }));
  next = 4;
}

cancel-seen_test :
    cancellation_is_cancelled (holding 3) (cancellation_cancel (holding 3) one_token).0 ≡ ok true
unfolding handle_id
cancel-seen_test =
    cancel-seen (holding 3) (holding 3) one_token 3 (record { value = false; names = 2 }) refl refl
      refl

-- One permit: a thread takes it, a second waits, and the first gives it back.
abbrev given_back : Waiting.System
given_back = record {
  semaphore = record { permits = 1; max = 1 };
  parked = 0;
  woken = 1;
  taken = 1;
  given = 1;
}

given_back-Reach : Waiting.Reach 1 given_back
unfolding take_permit release_at
given_back-Reach =
    Waiting.later
      (Waiting.later (Waiting.later Waiting.start (Waiting.acquires _ refl refl))
        (Waiting.parks refl refl))
      (Waiting.wakes _ refl (omega arith) refl)

permits_conserved_example : (1 ≤ 1) × (1 + 1 ≡ 1 + 1)
permits_conserved_example = permits_conserved given_back-Reach

-- a third thread that has looked before the release waits as well
abbrev still_waiting : Waiting.System
still_waiting = record {
  semaphore = record { permits = 1; max = 1 };
  parked = 1;
  woken = 1;
  taken = 1;
  given = 1;
}

still_waiting-Reach : Waiting.Reach 1 still_waiting
unfolding take_permit release_at
still_waiting-Reach =
    Waiting.later
      (Waiting.later
        (Waiting.later (Waiting.later Waiting.start (Waiting.acquires _ refl refl))
          (Waiting.parks refl refl))
        (Waiting.parks refl refl))
      (Waiting.wakes _ refl (omega arith) refl)

no_lost_wakeup_example :
    (1 ≤ 1)
    × ((t : Waiting.System) × Waiting.Step still_waiting t × (t.taken ≡ 1 + 1) × (t.woken + 1 ≡ 1))
no_lost_wakeup_example = no_lost_wakeup still_waiting-Reach (omega arith) (omega arith)

-- A call runs the callback and a second waits.
abbrev in_callback : Once.System
in_callback = record { status = Once.running; inside = 1; parked = 1; woken = 0; successes = 0 }

in_callback-Reach : Once.Reach in_callback
unfolding Once.look
in_callback-Reach =
    Once.later (Once.later Once.start (Once.started Once.running refl refl)) (Once.parks refl refl)

runs_once_test :
    (1 ≤ 1) × (0 ≤ 1) × (1 + 0 ≤ 1) × ((in_callback.parked ≡ 0) ⊎ (in_callback.inside ≡ 1))
runs_once_test = runs_once in_callback-Reach

-- A value is sent to a channel of capacity 1 and received, and a second receive finds none.
abbrev after_one : Traffic.System ℕ
after_one = record { channel = empty_channel (some 1); accepted = 7 ∷ []; received = 7 ∷ [] }

after_one-Reach : Traffic.Reach (some 1) after_one
unfolding channel_sender offer has_room push drop_sender try_recv receive_from after_receive
after_one-Reach =
    Traffic.later
      (Traffic.later (Traffic.later Traffic.start (Traffic.begins _ refl refl))
        (Traffic.delivers 7 _ (omega arith) refl refl))
      (Traffic.takes 7 _ refl refl)

first_in_first_out_example :
    (after_one.accepted ≡ after_one.received ++ after_one.channel.queue)
    × Fits (some 1) after_one.channel.queue
first_in_first_out_example = first_in_first_out after_one-Reach

nothing_left_test : after_one.received ≡ after_one.accepted
unfolding try_recv receive_from after_receive
nothing_left_test = nothing_left {c = empty_channel (some 1)} after_one-Reach refl

abbrev two_channels : List (Channel ℕ)
two_channels =
    record (empty_channel none) { closed = true }
    ∷ record (empty_channel none) { queue = 4 ∷ [] }
    ∷ []

select_pass-Meaning_example :
    Meaning false two_channels 0
      (select_pass two_channels 0 false).0
      (select_pass two_channels 0 false).1
select_pass-Meaning_example = select_pass-Meaning two_channels 0 false

-- One worker finds the queue of capacity 2 empty, and a submitter arrives.
abbrev waiting_pool : Workers.System ℕ
waiting_pool = record {
  pool = record { queue = []; queue_capacity = 2; closed = false };
  ready = 0;
  busy = 0;
  parked = 0;
  gone = 0;
  deciding = true;
  offering = 0;
  blocked = 0;
  woke_all = false;
  accepted = [];
  handled = [];
}

waiting_pool-Reach : Workers.Reach 1 2 waiting_pool
unfolding worker_turn
waiting_pool-Reach = Workers.later Workers.start (Workers.decides refl (omega arith) refl refl)

-- its task wakes the worker
abbrev busy_pool : Workers.System ℕ
busy_pool = record waiting_pool {
  pool = record { queue = 8 ∷ []; queue_capacity = 2; closed = false };
  deciding = false;
  ready = 1;
  accepted = 8 ∷ [];
}

busy_pool-Reach : Workers.Reach 1 2 busy_pool
unfolding Pool.offer
busy_pool-Reach =
    Workers.later
      (Workers.later (Workers.later waiting_pool-Reach (Workers.parks refl refl))
        (Workers.arrives refl))
      (Workers.submits 8 _ refl (omega arith) refl refl)

workers_conserved_test : (1 + 0 + 0 + 0 + 0 ≡ 1) × (1 ≤ 2)
workers_conserved_test = workers_conserved busy_pool-Reach

task_served_example :
    (0 < busy_pool.busy)
    ⊎ ((t : Workers.System ℕ) × Workers.Step busy_pool t
        × (t.handled ≡ busy_pool.handled ++ 8 ∷ []))
task_served_example = task_served (omega arith) busy_pool-Reach refl

tasks_in_order_example : busy_pool.accepted ≡ busy_pool.handled ++ busy_pool.pool.queue
tasks_in_order_example = tasks_in_order busy_pool-Reach

-- The worker takes the task, and the pool is closed.
abbrev closed_pool : Workers.System ℕ
closed_pool = record waiting_pool {
  pool = record { queue = []; queue_capacity = 2; closed = true };
  deciding = false;
  busy = 1;
  accepted = 8 ∷ [];
  handled = 8 ∷ [];
}

closed_pool-Reach : Workers.Reach 1 2 closed_pool
unfolding worker_turn
closed_pool-Reach =
    Workers.later (Workers.later busy_pool-Reach (Workers.takes 8 _ refl (omega arith) refl refl))
      (Workers.shuts refl)

none_left_behind_test : closed_pool.handled ≡ closed_pool.accepted
unfolding worker_turn
none_left_behind_test = none_left_behind closed_pool-Reach refl

close-misses_worker_example :
    (t : Workers.System ℕ) × Workers.Reach 1 2 t
    × (t.pool.closed ≡ true)
    × (t.woke_all ≡ true)
    × (t.ready ≡ waiting_pool.ready + waiting_pool.parked)
    × (t.parked ≡ 1)
close-misses_worker_example = close-misses_worker waiting_pool-Reach refl
