-- ===== src/Ordered/Map.antt =====
-- `OrderedMap` of src/ordered.rs and its operations: a slab of slots that a doubly linked list runs
-- through, and a hash table of slab indices. A `&mut self` method returns the new map; `usize`
-- counters are unbounded here, since a slab has fewer slots than the address space has bytes. The
-- `debug_assert!(false, ..)` lines do nothing in a release build and are left out.
use mux_runtime.Common.{
  ℕ, ◌+◌, ◌-◌, Bool, true, false, Option, none, some, List, [], ◌∷◌, ◌++◌, ◌==◌, Eq, length,
  get_elem?, set,
}
use mathlib.Core.Option
use mux_runtime.Ordered.Table.{HashTable}

-- `enum Slot`
pub data Slot {ℓ κ} (K : Type ℓ) (V : Type κ) : Type (ℓ ⊔ κ) where
  occupied : K → V → Option ℕ → Option ℕ → Slot K V
  free : Option ℕ → Slot K V

-- `struct OrderedMap`, less its hasher
pub record OrderedMap {ℓ κ} (T : HashTable) (K : Type ℓ) (V : Type κ) : Type (ℓ ⊔ κ) where
  pub table : T.Table
  pub slab : List (Slot K V)
  pub head : Option ℕ
  pub tail : Option ℕ
  pub free_head : Option ℕ
  pub len : ℕ

module _ {ℓ κ} {K : Type ℓ} {V : Type κ} where
  -- what `entry_at` returns of a slot
  unfoldable pub slot_entry : Option (Slot K V) → Option (K × V × Option ℕ)
  slot_entry (some (occupied k v p n)) = some (k, v, n)
  slot_entry (some (free n)) = none
  slot_entry none = none

  unfoldable pub slot_key : Option (Slot K V) → Option K
  slot_key (some (occupied k v p n)) = some k
  slot_key (some (free n)) = none
  slot_key none = none

  -- `if let Some(Slot::Occupied { next, .. }) = self.slab.get_mut(i) { *next = n }`
  unfoldable pub with_next : Option (Slot K V) → List (Slot K V) → ℕ → Option ℕ → List (Slot K V)
  with_next (some (occupied k v p _)) s i n = set s i (occupied k v p n)
  with_next (some (free _)) s i n = s
  with_next none s i n = s

  -- `if let Some(Slot::Occupied { prev, .. }) = self.slab.get_mut(i) { *prev = p }`
  unfoldable pub with_prev : Option (Slot K V) → List (Slot K V) → ℕ → Option ℕ → List (Slot K V)
  with_prev (some (occupied k v _ n)) s i p = set s i (occupied k v p n)
  with_prev (some (free _)) s i p = s
  with_prev none s i p = s

  -- the write through a link that may be absent
  unfoldable pub link_next : Option ℕ → Option ℕ → List (Slot K V) → List (Slot K V)
  unfolding with_next
  link_next (some i) n s = with_next (get_elem? s i) s i n
  link_next none n s = s

  unfoldable pub link_prev : Option ℕ → Option ℕ → List (Slot K V) → List (Slot K V)
  unfolding with_prev
  link_prev (some i) p s = with_prev (get_elem? s i) s i p
  link_prev none p s = s

-- a link that stays unless the neighbour is absent
abbrev pub or_else : Option ℕ → Option ℕ → Option ℕ → Option ℕ
or_else none new old = new
or_else (some _) new old = old

module _ {ℓ κ} {K : Type ℓ} {V : Type κ} (T : HashTable) where
  unfoldable pub new : OrderedMap T K V
  new = record { table = T.new; slab = []; head = none; tail = none; free_head = none; len = 0 }

  unfoldable pub entry_at : OrderedMap T K V → ℕ → Option (K × V × Option ℕ)
  unfolding slot_entry
  entry_at m i = slot_entry (get_elem? m.slab i)

  unfoldable pub key_at : OrderedMap T K V → ℕ → Option K
  unfolding entry_at
  key_at m i = Option.map (λ e. e.0) (entry_at m i)

  unfoldable pub len : OrderedMap T K V → ℕ
  len m = m.len

  unfoldable pub is_empty : OrderedMap T K V → Bool
  is_empty m = m.len == 0

  unfoldable pub clear : OrderedMap T K V → OrderedMap T K V
  clear m = record {
    table = T.clear m.table;
    slab = [];
    head = none;
    tail = none;
    free_head = none;
    len = 0;
  }

  -- `alloc_slot` at what the slab holds at the head of the free list: the index that was taken, and
  -- the map
  unfoldable pub alloc_at :
      Option (Slot K V) → ℕ → Slot K V → OrderedMap T K V → ℕ × OrderedMap T K V
  alloc_at (some (free next_free)) i slot m =
      (i, record m { slab = set m.slab i slot; free_head = next_free })
  alloc_at (some (occupied _ _ _ _)) i slot m =
      (length m.slab, record m { slab = m.slab ++ slot ∷ []; free_head = none })
  alloc_at none i slot m =
      (length m.slab, record m { slab = m.slab ++ slot ∷ []; free_head = none })

  -- `alloc_slot` at the head of the free list
  unfoldable pub alloc_from : Option ℕ → Slot K V → OrderedMap T K V → ℕ × OrderedMap T K V
  unfolding alloc_at
  alloc_from none slot m = (length m.slab, record m { slab = m.slab ++ slot ∷ [] })
  alloc_from (some i) slot m = alloc_at (get_elem? m.slab i) i slot m

  unfoldable pub alloc_slot : Slot K V → OrderedMap T K V → ℕ × OrderedMap T K V
  unfolding alloc_from
  alloc_slot slot m = alloc_from m.free_head slot m

module _ {ℓ κ} {K : Type ℓ} {V : Type κ} ⦃e : Eq K⦄ (T : HashTable) (hash_one : K → ℕ) where
  -- the closure `|&i| self.key_at(i).is_some_and(|k| k.borrow() == key)`
  unfoldable pub holds_key : OrderedMap T K V → K → ℕ → Bool
  unfolding key_at
  holds_key m k i = elim (key_at T m i) [ none ↦ false | some k' ↦ e.beq k' k ]

  unfoldable pub index_of_hashed : OrderedMap T K V → ℕ → K → Option ℕ
  index_of_hashed m h k = T.find m.table h (holds_key m k)

  unfoldable pub index_of : OrderedMap T K V → K → Option ℕ
  index_of m k = index_of_hashed m (hash_one k) k

  unfoldable pub get : OrderedMap T K V → K → Option V
  unfolding index_of entry_at
  get m k = elim (index_of m k) [ none ↦ none | some i ↦ Option.map (λ x. x.1) (entry_at T m i) ]

  unfoldable pub contains_key : OrderedMap T K V → K → Bool
  unfolding index_of
  contains_key m k = elim (index_of m k) [ none ↦ false | some _ ↦ true ]

  -- the rehash closure of `insert`, which reads the key back out of the slab
  unfoldable pub rehash : List (Slot K V) → ℕ → ℕ
  unfolding slot_key
  rehash s i = elim (slot_key (get_elem? s i)) [ none ↦ 0 | some k ↦ hash_one k ]

  -- the part of `insert` behind the search: a new entry at the tail
  unfoldable pub insert_new : OrderedMap T K V → ℕ → K → V → OrderedMap T K V
  unfolding rehash
  insert_new m h k v =
      let (i, m1) = alloc_slot T (occupied k v m.tail none) m in
      let slab = link_next m.tail (some i) m1.slab in
      record {
        table = T.insert_unique m1.table h i (rehash slab);
        slab = slab;
        head = or_else m.tail (some i) m1.head;
        tail = some i;
        free_head = m1.free_head;
        len = m1.len + 1;
      }

  -- `insert` at what the slab holds at the index that was found
  unfoldable pub insert_at :
      Option (Slot K V) → ℕ → OrderedMap T K V → ℕ → K → V → OrderedMap T K V × Option V
  insert_at (some (occupied k' w p n)) i m h k v =
      (record m { slab = set m.slab i (occupied k' v p n) }, some w)
  insert_at (some (free _)) i m h k v = (insert_new m h k v, none)
  insert_at none i m h k v = (insert_new m h k v, none)

  -- `insert` behind the search
  unfoldable pub insert_found :
      Option ℕ → OrderedMap T K V → ℕ → K → V → OrderedMap T K V × Option V
  insert_found none m h k v = (insert_new m h k v, none)
  insert_found (some i) m h k v = insert_at (get_elem? m.slab i) i m h k v

  unfoldable pub insert : OrderedMap T K V → K → V → OrderedMap T K V × Option V
  insert m k v = let h = hash_one k in insert_found (index_of_hashed m h k) m h k v

  -- `remove` behind the search, at what the slab holds at the index that was found
  unfoldable pub remove_at :
      Option (Slot K V) → ℕ → OrderedMap T K V → ℕ → OrderedMap T K V × Option V
  remove_at (some (occupied k v p n)) i m h = (
    record {
      table = T.remove_entry m.table h (λ j. j == i);
      slab = link_prev n p (link_next p n (set m.slab i (free m.free_head)));
      head = or_else p n m.head;
      tail = or_else n p m.tail;
      free_head = some i;
      len = m.len - 1;
    },
    some v,
  )
  remove_at (some (free _)) i m h =
      (record m { table = T.remove_entry m.table h (λ j. j == i) }, none)
  remove_at none i m h = (record m { table = T.remove_entry m.table h (λ j. j == i) }, none)

  unfoldable pub remove_found : Option ℕ → OrderedMap T K V → ℕ → OrderedMap T K V × Option V
  remove_found none m h = (m, none)
  remove_found (some i) m h = remove_at (get_elem? m.slab i) i m h

  unfoldable pub remove : OrderedMap T K V → K → OrderedMap T K V × Option V
  remove m k = let h = hash_one k in remove_found (index_of_hashed m h k) m h
