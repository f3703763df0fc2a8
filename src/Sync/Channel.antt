-- ===== src/Sync/Channel.antt =====
-- The channels of src/sync_primitives.rs. The queue of the standard library's mpsc channel is a list,
-- first in first out; its sending side is there while the entry keeps a sender or a call holds a copy
-- of it. What threads do at one channel is in the children.
pub mod Payload
pub mod Traffic
pub mod Select
pub mod Calls
use mux_runtime.Common.{
  ℕ, zero, suc, ◌+◌, ◌-◌, Bool, true, false, ◌&&◌, not, ltb, leb, ◌==◌, if◌then◌else◌, Option, none,
  some, List, [], ◌∷◌, ◌++◌, length, Result, ok, err,
}
use mux_runtime.Common.Int.{ℤ, pos, negsuc}
use mux_runtime.Sync.Handles.{
  SyncError, capacity_out_of_range, channel_closed, negative_timeout, send_cancelled,
  receive_cancelled, Handle, Registry, new_counted, new_raw_counted,
}
use mux_runtime.Sync.Atomic.{Outcome, Done}

-- `ChannelEntry`: the queue, its capacity, whether the entry has its sender, how many calls hold a copy
-- of the sender, and the flag `closed`
pub record Channel (V : Type 0) : Type 0 where
  pub queue : List V
  pub capacity : Option ℕ
  pub open_ : Bool
  pub senders : ℕ
  pub closed : Bool

-- what a look into the queue finds
pub data Received (V : Type 0) : Type 0 where
  value : V → Received V
  empty : Received V
  hung_up : Received V

module _ {V : Type 0} where
  abbrev pub empty_channel : Option ℕ → Channel V
  empty_channel cap = record {
    queue = [];
    capacity = cap;
    open_ = true;
    senders = 0;
    closed = false;
  }

  unfoldable pub channel_new_unbounded :
      Bool → Registry (Channel V) → Option ℕ × Registry (Channel V)
  unfolding new_raw_counted
  channel_new_unbounded allocated r = new_raw_counted allocated (empty_channel none) r

  unfoldable pub channel_new_bounded :
      Bool → ℤ → Registry (Channel V) → Outcome ℕ × Registry (Channel V)
  unfolding new_counted
  channel_new_bounded allocated (negsuc n) r = (err capacity_out_of_range, r)
  channel_new_bounded allocated (pos n) r =
      if leb 1 n && leb n 16777216
      then new_counted allocated (empty_channel (some n)) r
      else (err capacity_out_of_range, r)

  -- `channel_sender`: a copy of the sender
  unfoldable pub channel_sender : Channel V → Outcome (Channel V)
  channel_sender c =
      if c.open_ then ok (record c { senders = c.senders + 1 }) else err channel_closed

  -- the copy of the sender is dropped
  unfoldable pub drop_sender : Channel V → Channel V
  drop_sender c = record c { senders = c.senders - 1 }

  -- Is there room for one more value?
  unfoldable pub has_room : Channel V → Bool
  has_room c = elim c.capacity [ none ↦ true | some cap ↦ ltb (length c.queue) cap ]

  unfoldable pub push : V → Channel V → Channel V
  push v c = record c { queue = c.queue ++ v ∷ [] }

  -- one `send` or `try_send` with the copy of the sender: whether the value was taken
  unfoldable pub offer : V → Channel V → Channel V × Bool
  unfolding has_room push
  offer v c = if has_room c then (push v c, true) else (c, false)

  -- `mux_channel_try_send` behind the checks of its arguments
  unfoldable pub try_send : V → Channel V → Channel V × Outcome Bool
  unfolding channel_sender drop_sender offer
  try_send v c = elim (channel_sender c) [
    | err e ↦ (c, err e)
    | ok c' ↦ let (d, sent) = offer v c' in (drop_sender d, ok sent)
  ]

  -- No sender is left.
  unfoldable pub disconnected : Channel V → Bool
  disconnected c = not c.open_ && (c.senders == 0)

  -- `Receiver::try_recv`
  unfoldable pub receive_from : List V → Channel V → Received V × Channel V
  unfolding disconnected
  receive_from (v ∷ vs) c = (value v, record c { queue = vs })
  receive_from [] c = if disconnected c then (hung_up, c) else (empty, c)

  -- A receive that found the channel hung up sets `closed`; `recv` and `recv_timeout` do the same once
  -- their wait is over.
  unfoldable pub after_receive : Received V × Channel V → Option V × Channel V
  after_receive (value v, c) = (some v, c)
  after_receive (empty, c) = (none, c)
  after_receive (hung_up, c) = (none, record c { closed = true })

  unfoldable pub try_recv : Channel V → Option V × Channel V
  unfolding receive_from after_receive
  try_recv c = after_receive (receive_from c.queue c)

  unfoldable pub close : Channel V → Channel V
  close c = record c { closed = true; open_ = false }

  unfoldable pub is_closed : Channel V → Bool
  is_closed c = c.closed
