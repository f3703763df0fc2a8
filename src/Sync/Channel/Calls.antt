-- ===== src/Sync/Channel/Calls.antt =====
-- The calls on a channel of src/sync_primitives.rs that look at a cancellation token: one round of each
-- loop, at what the token says in that round.
use mux_runtime.Common.{ℕ, Bool, true, false, Option, none, some, ok, err}
use mux_runtime.Sync.Handles.{send_cancelled, receive_cancelled, Handle, Registry, entry_of}
use mux_runtime.Sync.Atomic.{Outcome}
use mux_runtime.Sync.Channel.{Channel, Received, value, empty, hung_up, receive_from, try_send}

-- A full queue is tried again.
unfoldable pub sent : Outcome Bool → Option (Outcome Bool)
sent (err e) = some (err e)
sent (ok true) = some (ok true)
sent (ok false) = none

module _ {V : Type 0} where
  -- One round of `mux_channel_send_cancelled`; `none` where it goes on
  unfoldable pub send_round : Outcome Bool → V → Channel V → Channel V × Option (Outcome Bool)
  unfolding try_send sent
  send_round (err e) v c = (c, some (err e))
  send_round (ok true) v c = (c, some (err send_cancelled))
  send_round (ok false) v c = let (d, o) = try_send v c in (d, sent o)

  -- what a receive that waited found: a value, no sender, or nothing yet
  unfoldable pub receive_outcome : Received V × Channel V → Option (Outcome (Option V)) × Channel V
  receive_outcome (value v, c) = (some (ok (some v)), c)
  receive_outcome (hung_up, c) = (some (ok none), record c { closed = true })
  receive_outcome (empty, c) = (none, c)

  -- One round of `mux_channel_recv_cancelled`; `none` where it goes on
  unfoldable pub recv_round : Outcome Bool → Channel V → Option (Outcome (Option V)) × Channel V
  unfolding receive_from receive_outcome
  recv_round (err e) c = (some (err e), c)
  recv_round (ok true) c = (some (err receive_cancelled), c)
  recv_round (ok false) c = receive_outcome (receive_from c.queue c)

  unfoldable pub channel_capacity : Handle → Registry (Channel V) → Outcome (Option ℕ)
  unfolding entry_of
  channel_capacity h r = elim (entry_of h r) [ err e ↦ err e | ok c ↦ ok c.capacity ]
