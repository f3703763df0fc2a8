-- ===== src/Sync/Atomic.antt =====
-- The atomics and the cancellation tokens of src/sync_primitives.rs. Each operation is one atomic step
-- on the entry that a handle names.
pub mod Laws
use mux_runtime.Common.{
  ℕ, Bool, true, false, ◌&&◌, ◌==◌, if◌then◌else◌, Option, none, some, Result, ok, err, ◌>>=◌,
}
use mux_runtime.Common.Int.{ℤ, pos, negsuc, ◌+ℤ◌, eqb_ℤ, wrap_i64}
use mux_runtime.Sync.Handles.{
  SyncError, Handle, handle_id, Counted, Registry, entry_of, write_found, new_raw_counted, update,
  insert_entry, remove_entry, found_or_closed,
}

abbrev pub Outcome : Type 0 → Type 0
Outcome B = Result SyncError B

-- `Result` of nothing
abbrev pub Done : Type 0
Done = Result {0, 0} SyncError Unit

-- An operation on the value of an entry: what it leaves there, and what it returns
module _ {A B : Type 0} where
  unfoldable pub applied :
      (A → A × B) → Option (Counted A) → ℕ → Registry A → Registry A × Outcome B
  unfolding write_found
  applied op none id r = (r, err SyncError.handle_closed)
  applied op (some e) id r = (write_found (some e) id (op e.value).0 r, ok (op e.value).1)

  unfoldable pub on_entry : (A → A × B) → Handle → Registry A → Registry A × Outcome B
  unfolding applied handle_id
  on_entry op h r = elim (handle_id h) [
    | err e ↦ (r, err e)
    | ok id ↦ applied op (r.entries id) id r
  ]

unfoldable pub atomic_int_new : Bool → Registry ℤ → Option ℕ × Registry ℤ
unfolding new_raw_counted
atomic_int_new allocated r = new_raw_counted allocated (pos 0) r

unfoldable pub atomic_int_with_value : Bool → ℤ → Registry ℤ → Option ℕ × Registry ℤ
unfolding new_raw_counted
atomic_int_with_value allocated v r = new_raw_counted allocated v r

unfoldable pub atomic_int_load : Handle → Registry ℤ → Outcome ℤ
unfolding entry_of
atomic_int_load h r = entry_of h r

unfoldable pub atomic_int_store : Handle → ℤ → Registry ℤ → Registry ℤ × Done
unfolding on_entry
atomic_int_store h v r = on_entry (λ old. (v, tt)) h r

-- `fetch_add` wraps, and returns the value before.
unfoldable pub atomic_int_add : Handle → ℤ → Registry ℤ → Registry ℤ × Outcome ℤ
unfolding on_entry
atomic_int_add h delta r = on_entry (λ old. (wrap_i64 (old +ℤ delta), old)) h r

unfoldable pub atomic_int_swap : Handle → ℤ → Registry ℤ → Registry ℤ × Outcome ℤ
unfolding on_entry
atomic_int_swap h v r = on_entry (λ old. (v, old)) h r

-- what a compare-exchange leaves at a value, and the value
abbrev pub exchange : ℤ → ℤ → ℤ → ℤ × ℤ
exchange expected replacement old = (if eqb_ℤ old expected then replacement else old, old)

-- It returns the value before, whether that was exchanged or not.
unfoldable pub atomic_int_compare_exchange : Handle → ℤ → ℤ → Registry ℤ → Registry ℤ × Outcome ℤ
unfolding on_entry
atomic_int_compare_exchange h expected replacement r = on_entry (exchange expected replacement) h r

abbrev pub eqb_bool : Bool → Bool → Bool
eqb_bool true b = b
eqb_bool false true = false
eqb_bool false false = true

unfoldable pub atomic_bool_new : Bool → Registry Bool → Option ℕ × Registry Bool
unfolding new_raw_counted
atomic_bool_new allocated r = new_raw_counted allocated false r

unfoldable pub atomic_bool_with_value : Bool → Bool → Registry Bool → Option ℕ × Registry Bool
unfolding new_raw_counted
atomic_bool_with_value allocated v r = new_raw_counted allocated v r

unfoldable pub atomic_bool_load : Handle → Registry Bool → Outcome Bool
unfolding entry_of
atomic_bool_load h r = entry_of h r

unfoldable pub atomic_bool_store : Handle → Bool → Registry Bool → Registry Bool × Done
unfolding on_entry
atomic_bool_store h v r = on_entry (λ old. (v, tt)) h r

unfoldable pub atomic_bool_swap : Handle → Bool → Registry Bool → Registry Bool × Outcome Bool
unfolding on_entry
atomic_bool_swap h v r = on_entry (λ old. (v, old)) h r

unfoldable pub atomic_bool_compare_exchange :
    Handle → Bool → Bool → Registry Bool → Registry Bool × Outcome Bool
unfolding on_entry
atomic_bool_compare_exchange h expected replacement r =
    on_entry (λ old. (if eqb_bool old expected then replacement else old, old)) h r

unfoldable pub cancellation_new : Bool → Registry Bool → Option ℕ × Registry Bool
unfolding new_raw_counted
cancellation_new allocated r = new_raw_counted allocated false r

unfoldable pub cancellation_cancel : Handle → Registry Bool → Registry Bool × Done
unfolding on_entry
cancellation_cancel h r = on_entry (λ old. (true, tt)) h r

unfoldable pub cancellation_is_cancelled : Handle → Registry Bool → Outcome Bool
unfolding entry_of
cancellation_is_cancelled h r = entry_of h r

-- `cancellation_requested`
unfoldable pub cancellation_requested : Handle → Registry Bool → Outcome Bool
unfolding entry_of
cancellation_requested h r = entry_of h r
