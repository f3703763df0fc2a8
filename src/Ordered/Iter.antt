-- ===== src/Ordered/Iter.antt =====
-- The iterators of src/ordered.rs: `Iter` walks the links, `IntoIter` takes each entry out of the
-- slab as it walks.
use mux_runtime.Common.{ℕ, zero, suc, ◌-◌, Option, none, some, List, [], ◌∷◌, get_elem?, set}
use mux_runtime.Ordered.Table.{HashTable}
use mux_runtime.Ordered.Map.{Slot, occupied, free, OrderedMap}

-- `struct Iter`, and `struct IntoIter`, which owns the slab that the other borrows
pub record Iter {ℓ κ} (K : Type ℓ) (V : Type κ) : Type (ℓ ⊔ κ) where
  pub slab : List (Slot K V)
  pub next : Option ℕ
  pub remaining : ℕ

module _ {ℓ κ} {K : Type ℓ} {V : Type κ} where
  unfoldable pub iter : {T : HashTable} → OrderedMap T K V → Iter K V
  iter m = record { slab = m.slab; next = m.head; remaining = m.len }

  -- `Iter::next` at what the slab holds at the link
  unfoldable pub yield_at : Option (Slot K V) → Iter K V → Option (K × V) × Iter K V
  yield_at (some (occupied k v p n)) it =
      (some (k, v), record it { next = n; remaining = it.remaining - 1 })
  yield_at (some (free _)) it = (none, record it { next = none; remaining = 0 })
  yield_at none it = (none, record it { next = none; remaining = 0 })

  unfoldable pub iter_next : Iter K V → Option (K × V) × Iter K V
  unfolding yield_at
  iter_next it = elim it.next [ none ↦ (none, it) | some i ↦ yield_at (get_elem? it.slab i) it ]

  -- `IntoIter::next` leaves a hole, with no free-list link, where it took the entry out
  unfoldable pub take_at : Option (Slot K V) → ℕ → Iter K V → Option (K × V) × Iter K V
  take_at (some (occupied k v p n)) i it = (
    some (k, v),
    record { slab = set it.slab i (free none); next = n; remaining = it.remaining - 1 },
  )
  take_at (some (free _)) i it =
      (none, record { slab = set it.slab i (free none); next = none; remaining = 0 })
  take_at none i it =
      (none, record { slab = set it.slab i (free none); next = none; remaining = 0 })

  unfoldable pub into_iter_next : Iter K V → Option (K × V) × Iter K V
  unfolding take_at
  into_iter_next it = elim it.next [
    | none ↦ (none, it)
    | some i ↦ take_at (get_elem? it.slab i) i it
  ]

  -- One round of a `for` loop over the rounds that follow: the loop ends at `None`.
  unfoldable pub then_rest : Option (K × V) → Option (List (K × V)) → Option (List (K × V))
  then_rest none rest = some []
  then_rest (some kv) none = none
  then_rest (some kv) (some kvs) = some (kv ∷ kvs)

  -- `for (k, v) in it`: the loop calls `next` until it returns `None`, at most `fuel` times. `none`
  -- means that the loop has not ended by then.
  unfoldable pub collect :
      (Iter K V → Option (K × V) × Iter K V) → ℕ → Iter K V → Option (List (K × V))
  unfolding then_rest
  collect step zero it = none
  collect step (suc fuel) it = then_rest (step it).0 (collect step fuel (step it).1)
