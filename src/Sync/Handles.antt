-- ===== src/Sync/Handles.antt =====
-- The counted handles of src/sync_primitives.rs. A table keeps an entry for each identifier with the
-- number of handles that name it; an object holds one identifier. The identifiers are drawn from one
-- counter, which is taken to stay below 2^63.
pub mod Counting
use mux_runtime.Common.{
  ℕ, zero, suc, ◌+◌, ◌-◌, Bool, true, false, leb, ◌==◌, if◌then◌else◌, Option, none, some, List, [],
  ◌∷◌, Result, ok, err, ◌>>=◌,
}
use mux_runtime.Common.Int.{ℤ}

pub data SyncError : Type 0 where
  handle_null : SyncError
  wrong_handle : SyncError
  no_handle_data : SyncError
  invalid_handle : SyncError
  handle_closed : SyncError
  no_handle_object : SyncError
  negative_permits : SyncError
  negative_timeout : SyncError
  timeout_too_large : SyncError
  too_many_permits : SyncError
  capacity_out_of_range : SyncError
  value_null : SyncError
  not_sendable : SyncError
  channel_closed : SyncError
  send_cancelled : SyncError
  receive_cancelled : SyncError
  select_expects_list : SyncError
  select_needs_channel : SyncError
  select_too_many : SyncError
  worker_count_out_of_range : SyncError
  queue_capacity_out_of_range : SyncError
  pool_closed : SyncError
  callback_failed : SyncError

-- what a pointer to a handle leads to: nothing, an object of another type, an object without data, or
-- an identifier
pub data Handle : Type 0 where
  null : Handle
  foreign : Handle
  no_data : Handle
  holding : ℕ → Handle

-- `id`
unfoldable pub handle_id : Handle → Result SyncError ℕ
handle_id null = err handle_null
handle_id foreign = err wrong_handle
handle_id no_data = err no_handle_data
handle_id (holding zero) = err invalid_handle
handle_id (holding (suc n)) = ok (suc n)

-- an entry and its `names`
pub record Counted (A : Type 0) : Type 0 where
  pub value : A
  pub names : ℕ

-- one table and the counter `NEXT_ID`
pub record Registry (A : Type 0) : Type 0 where
  pub entries : ℕ → Option (Counted A)
  pub next : ℕ

abbrev pub update {ℓ} : {B : Type ℓ} → (ℕ → B) → ℕ → B → ℕ → B
update f i b j = if j == i then b else f j

module _ {A : Type 0} where
  -- `.get(&id).cloned().ok_or_else(..)`
  unfoldable pub found_or_closed : Option (Counted A) → Result SyncError A
  found_or_closed none = err handle_closed
  found_or_closed (some e) = ok e.value

  -- the entry that a handle names; every operation begins with it
  unfoldable pub entry_of : Handle → Registry A → Result SyncError A
  unfolding handle_id found_or_closed
  entry_of h r = do id ← handle_id h; found_or_closed (r.entries id)

  -- the first two steps of `new_counted` and `new_raw_counted`: the identifier and the entry
  unfoldable pub insert_entry : A → Registry A → ℕ × Registry A
  insert_entry a r = (
    r.next,
    record {
      entries = update r.entries r.next (some (record { value = a; names = 1 }));
      next = r.next + 1;
    },
  )

  -- `lock(map).remove(&id)`
  unfoldable pub remove_entry : ℕ → Registry A → Registry A
  remove_entry id r = record r { entries = update r.entries id none }

  -- `new_raw_counted`, where `allocated` says whether there is an object; without one the pointer is null
  unfoldable pub new_raw_counted : Bool → A → Registry A → Option ℕ × Registry A
  unfolding insert_entry remove_entry
  new_raw_counted allocated a r =
      let (id, r') = insert_entry a r in
      if allocated then (some id, r') else (none, remove_entry id r')

  unfoldable pub new_counted : Bool → A → Registry A → Result SyncError ℕ × Registry A
  unfolding insert_entry remove_entry
  new_counted allocated a r =
      let (id, r') = insert_entry a r in
      if allocated then (ok id, r') else (err no_handle_object, remove_entry id r')

  -- the second half of `copy_map`: the count of an entry that was found, and what the copy holds
  unfoldable pub count_copy : Option (Counted A) → ℕ → Registry A → ℕ × Registry A
  count_copy none id r = (0, r)
  count_copy (some e) id r =
      (id, record r { entries = update r.entries id (some (record e { names = e.names + 1 })) })

  unfoldable pub copy_map : ℕ → Registry A → ℕ × Registry A
  unfolding count_copy
  copy_map id r = count_copy (r.entries id) id r

  -- `drop_counted` at the entry that it finds
  unfoldable pub drop_found : Option (Counted A) → ℕ → Registry A → Registry A
  unfolding remove_entry
  drop_found none id r = r
  drop_found (some e) id r =
      if leb e.names 1
      then remove_entry id r
      else record r { entries = update r.entries id (some (record e { names = e.names - 1 })) }

  unfoldable pub drop_counted : Option ℕ → Registry A → Registry A
  unfolding drop_found
  drop_counted none r = r
  drop_counted (some id) r = drop_found (r.entries id) id r

  -- what an operation writes into the shared entry of a handle
  unfoldable pub write_found : Option (Counted A) → ℕ → A → Registry A → Registry A
  write_found none id a r = r
  write_found (some e) id a r = record r {
    entries = update r.entries id (some (record e { value = a }));
  }
