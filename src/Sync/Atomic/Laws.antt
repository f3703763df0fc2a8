-- ===== src/Sync/Atomic/Laws.antt =====
-- The atomics of src/sync_primitives.rs through different handles of one entry.
use mux_runtime.Common.{
  ℕ, ◌≡◌, ◌≢◌, refl, ap, ◌∙◌, arith, Bool, true, false, if◌then◌else◌, some, ok,
}
use mux_runtime.Common.Int.{ℤ, eqb_ℤ}
use mux_runtime.Sync.Handles.{
  Handle, handle_id, Counted, Registry, entry_of, found_or_closed, write_found, update,
}
use mux_runtime.Sync.Atomic.{
  on_entry, applied, exchange, atomic_int_compare_exchange, atomic_int_load, cancellation_cancel,
  cancellation_is_cancelled,
}

update_self : {B : Type 0} (f : ℕ → B) (i : ℕ) (b : B) → update f i b i ≡ b
update_self f i b = ground arith

update_ne : {B : Type 0} (f : ℕ → B) (i j : ℕ) (b : B) → j ≢ i → update f i b j ≡ f j
update_ne f i j b h = ground arith

module _ {A B : Type 0} (op : A → A × B) (h k : Handle) (r : Registry A) (id : ℕ)
    (e : Counted A) where
  -- the table after an operation through `h`
  on_entry_lem :
      handle_id h ≡ ok id
      → r.entries id ≡ some e
      → on_entry op h r ≡ (
        record r { entries = update r.entries id (some (record e { value = (op e.value).0 })) },
        ok (op e.value).1,
      )
  unfolding on_entry applied write_found
  on_entry_lem p q = rw (p, on_entry) (rw (q, applied) refl)

  -- What an operation through one handle leaves is what another handle of the entry finds.
  entry_of-on_entry :
      handle_id h ≡ ok id
      → handle_id k ≡ ok id
      → r.entries id ≡ some e
      → entry_of k (on_entry op h r).0 ≡ ok (op e.value).0
  unfolding entry_of found_or_closed
  entry_of-on_entry p p' q =
      ap (λ z. entry_of k z.0) (on_entry_lem p q)
      ∙ rw (p', entry_of) (rw (update_self r.entries id) refl)

  entries-on_entry :
      handle_id h ≡ ok id
      → r.entries id ≡ some e
      → (on_entry op h r).0.entries id ≡ some (record e { value = (op e.value).0 })
  entries-on_entry p q = ap (λ z. z.0.entries id) (on_entry_lem p q) ∙ update_self r.entries id _

eqb_refl : (a : ℤ) → eqb_ℤ a a ≡ true
eqb_refl a = ground arith

-- Two compare-exchanges of one atomic integer that expect the same value, through any handles of it:
-- when the first finds that value and writes another, the second finds what the first wrote, leaves it,
-- and a load through either handle shows it.
pub compare_exchange-once :
    (h k : Handle) (r : Registry ℤ) (id : ℕ) (e : Counted ℤ) (a b : ℤ)
    → handle_id h ≡ ok id
    → handle_id k ≡ ok id
    → r.entries id ≡ some e
    → eqb_ℤ a e.value ≡ false
    → let r1 = (atomic_int_compare_exchange h e.value a r).0 in
      ((atomic_int_compare_exchange h e.value a r).1 ≡ ok e.value)
      × ((atomic_int_compare_exchange k e.value b r1).1 ≡ ok a)
      × (atomic_int_load h (atomic_int_compare_exchange k e.value b r1).0 ≡ ok a)
unfolding atomic_int_compare_exchange atomic_int_load
compare_exchange-once h k r id e a b p q l n =
    let first = exchange e.value a in
    let second = exchange e.value b in
    let r1 = (on_entry first h r).0 in
    let hit = ap (λ z. if z then a else e.value) (eqb_refl e.value) in
    let miss = ap (λ z. if z then b else a) n in
    let l1 = entries-on_entry first h k r id e p l ∙ ap (λ z. some (record e { value = z })) hit in
    (
      ap (λ z. z.1) (on_entry_lem first h k r id e p l),
      ap (λ z. z.1) (on_entry_lem second k h r1 id (record e { value = a }) q l1),
      entry_of-on_entry second k h r1 id (record e { value = a }) q p l1 ∙ ap ok miss,
    )

-- A cancellation through one handle of a token is seen through every handle of it.
pub cancel-seen :
    (h k : Handle) (r : Registry Bool) (id : ℕ) (e : Counted Bool)
    → handle_id h ≡ ok id
    → handle_id k ≡ ok id
    → r.entries id ≡ some e
    → cancellation_is_cancelled k (cancellation_cancel h r).0 ≡ ok true
unfolding cancellation_cancel cancellation_is_cancelled
cancel-seen h k r id e p q l = entry_of-on_entry (λ old. (true, tt)) h k r id e p q l
