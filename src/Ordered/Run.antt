-- ===== src/Ordered/Run.antt =====
-- Sequences of calls of an `OrderedMap` of src/ordered.rs, `from_iter` and `extend` among them.
use mux_runtime.Common.{
  ℕ, suc, ◌≡◌, refl, sym, ap, ◌∙◌, Option, none, some, List, [], ◌∷◌, Eq, length, ◌==◌,
}
use mux_runtime.Ordered.Table.{HashTable}
use mux_runtime.Ordered.Map.{
  OrderedMap, new, insert, remove, clear, get, contains_key, len, is_empty,
}
use mux_runtime.Ordered.Iter.{Iter, iter, iter_next, into_iter_next, collect}
use mux_runtime.Ordered.Chain.{Entry, first}
use mux_runtime.Ordered.Spec.{lookup, assign, erase, contents}
use mux_runtime.Ordered.Rep.{Rep}
use mux_runtime.Ordered.Reads.{get_lem, contains_key_lem, collect-Seg, collect-Seg_into, is_some}
use mux_runtime.Ordered.Insert.{insert-refines}
use mux_runtime.Ordered.Remove.{remove-refines}

-- A call that changes the map.
pub data Op {ℓ κ} (K : Type ℓ) (V : Type κ) : Type (ℓ ⊔ κ) where
  put : K → V → Op K V
  delete : K → Op K V
  wipe : Op K V

module _ {ℓ κ} {K : Type ℓ} {V : Type κ} ⦃q : Eq K⦄ (T : HashTable) (hash_one : K → ℕ) where
  -- one call: the map after it, and what it returned
  unfoldable pub apply : OrderedMap T K V → Op K V → OrderedMap T K V × Option V
  apply m (put k v) = insert T hash_one m k v
  apply m (delete k) = remove T hash_one m k
  apply m wipe = (clear T m, none)

  unfoldable pub run : List (Op K V) → OrderedMap T K V → OrderedMap T K V
  run [] m = m
  run (o ∷ os) m = run os (apply m o).0

  -- what the calls of a sequence return
  unfoldable pub results : List (Op K V) → OrderedMap T K V → List (Option V)
  results [] m = []
  results (o ∷ os) m = (apply m o).1 ∷ results os (apply m o).0

  -- `Extend::extend`, and `FromIterator::from_iter` from the empty map
  unfoldable pub extend : OrderedMap T K V → List (K × V) → OrderedMap T K V
  extend m [] = m
  extend m ((k, v) ∷ kvs) = extend (insert T hash_one m k v).0 kvs

  unfoldable pub from_iter : List (K × V) → OrderedMap T K V
  from_iter kvs = extend (new T) kvs

module _ {ℓ κ} {K : Type ℓ} {V : Type κ} ⦃q : Eq K⦄ where
  -- the same calls on a list of pairs
  abbrev pub spec_apply : List (K × V) → Op K V → List (K × V) × Option V
  spec_apply l (put k v) = (assign k v l, lookup k l)
  spec_apply l (delete k) = (erase k l, lookup k l)
  spec_apply l wipe = ([], none)

  abbrev pub replay : List (Op K V) → List (K × V) → List (K × V)
  replay [] l = l
  replay (o ∷ os) l = replay os (spec_apply l o).0

  abbrev pub answers : List (Op K V) → List (K × V) → List (Option V)
  answers [] l = []
  answers (o ∷ os) l = (spec_apply l o).1 ∷ answers os (spec_apply l o).0

  abbrev pub assign_all : List (K × V) → List (K × V) → List (K × V)
  assign_all l [] = l
  assign_all l ((k, v) ∷ kvs) = assign_all (assign k v l) kvs

pub length-contents {ℓ κ} :
    {K : Type ℓ} {V : Type κ} (xs : List (Entry K V)) → length (contents xs) ≡ length xs
length-contents [] = refl
length-contents (e ∷ r) = ap suc (length-contents r)

module _ {ℓ κ} {K : Type ℓ} {V : Type κ} ⦃q : Eq K⦄ (T : HashTable) (hash_one : K → ℕ) where
  -- The map represents this list of pairs.
  abbrev pub Represents : OrderedMap T K V → List (K × V) → Type (ℓ ⊔ κ)
  Represents m l = (xs : List (Entry K V)) × Rep T hash_one m xs × (contents xs ≡ l)

  -- The empty map represents the empty list, and so does a cleared one.
  pub new-Represents : Represents (new T) []
  unfolding new
  new-Represents = (
    [],
    record {
      links = tt;
      first_ok = refl;
      last_ok = refl;
      unique = tt;
      counted = refl;
      stored = T.count-new;
    },
    refl,
  )

  pub clear-Represents : (m : OrderedMap T K V) → Represents (clear T m) []
  unfolding clear
  clear-Represents m = (
    [],
    record {
      links = tt;
      first_ok = refl;
      last_ok = refl;
      unique = tt;
      counted = refl;
      stored = T.count-clear m.table;
    },
    refl,
  )

  -- `insert` puts the value in place or appends the pair, and returns the value that was there.
  pub insert-Represents :
      (m : OrderedMap T K V) (l : List (K × V)) (k : K) (v : V)
      → Represents m l
      → Represents (insert T hash_one m k v).0 (assign k v l)
        × ((insert T hash_one m k v).1 ≡ lookup k l)
  insert-Represents m l k v (xs, r, c) =
      let (ys, s, d, o) = insert-refines T hash_one m xs k v r in
      ((ys, s, d ∙ ap (assign k v) c), o ∙ ap (lookup k) c)

  -- `remove` takes the pair out, leaves the order of the rest and returns the value that was there.
  pub remove-Represents :
      (m : OrderedMap T K V) (l : List (K × V)) (k : K)
      → Represents m l
      → Represents (remove T hash_one m k).0 (erase k l) × ((remove T hash_one m k).1 ≡ lookup k l)
  remove-Represents m l k (xs, r, c) =
      let (ys, s, d, o) = remove-refines T hash_one m xs k r in
      ((ys, s, d ∙ ap (erase k) c), o ∙ ap (lookup k) c)

  pub get-Represents :
      (m : OrderedMap T K V) (l : List (K × V)) (k : K)
      → Represents m l
      → get T hash_one m k ≡ lookup k l
  get-Represents m l k (xs, r, c) = get_lem T hash_one m xs k r ∙ ap (lookup k) c

  -- The length and both iterators agree with the list, and the iterators end.
  pub iter-Represents :
      (m : OrderedMap T K V) (l : List (K × V))
      → Represents m l
      → (m.len ≡ length l)
        × (collect iter_next (suc m.len) (iter m) ≡ some l)
        × (collect into_iter_next (suc m.len) (iter m) ≡ some l)
  unfolding iter
  iter-Represents m l (xs, r, c) =
      let start : Iter K V = record { slab = m.slab; next = first xs none; remaining = m.len } in
      (
        r.counted ∙ (sym (length-contents xs) ∙ ap length c),
        rw r.first_ok (
            ap (λ n. collect iter_next (suc n) start) r.counted
            ∙ (collect-Seg m.slab none xs m.len r.links ∙ ap some c)),
        rw r.first_ok (
            ap (λ n. collect into_iter_next (suc n) start) r.counted
            ∙ (collect-Seg_into m.slab none xs m.len r.unique r.links ∙ ap some c)),
      )

  -- What a reader sees of a map: the lookups, the length and both iterators agree with the list, and
  -- the iterators end.
  pub reads-Represents :
      (m : OrderedMap T K V) (l : List (K × V)) (k : K)
      → Represents m l
      → (get T hash_one m k ≡ lookup k l)
        × (contains_key T hash_one m k ≡ is_some (lookup k l))
        × (len T m ≡ length l)
        × (is_empty T m ≡ (length l == 0))
        × (collect iter_next (suc m.len) (iter m) ≡ some l)
        × (collect into_iter_next (suc m.len) (iter m) ≡ some l)
  unfolding len is_empty
  reads-Represents m l k p =
      let (xs, r, c) = p in
      let (counted, walk, drain) = iter-Represents m l p in
      (
        get-Represents m l k p,
        contains_key_lem T hash_one m xs k r ∙ ap (λ z. is_some (lookup k z)) c,
        counted,
        ap (λ n. n == 0) counted,
        walk,
        drain,
      )

  apply-Represents :
      (m : OrderedMap T K V) (l : List (K × V)) (o : Op K V)
      → Represents m l
      → Represents (apply T hash_one m o).0 (spec_apply l o).0
        × ((apply T hash_one m o).1 ≡ (spec_apply l o).1)
  unfolding apply
  apply-Represents m l (put k v) r = insert-Represents m l k v r
  apply-Represents m l (delete k) r = remove-Represents m l k r
  apply-Represents m l wipe r = (clear-Represents m, refl)

  -- Any sequence of calls does to the map what it does to the list, and returns the same values.
  pub run-Represents :
      (os : List (Op K V)) (m : OrderedMap T K V) (l : List (K × V))
      → Represents m l
      → Represents (run T hash_one os m) (replay os l) × (results T hash_one os m ≡ answers os l)
  unfolding run results
  run-Represents [] m l r = (r, refl)
  run-Represents (o ∷ os) m l r =
      let (s, a) = apply-Represents m l o r in
      let (t, b) = run-Represents os (apply T hash_one m o).0 (spec_apply l o).0 s in (t, cc)

  -- `extend` inserts the pairs one after another, as the list operation does on the pairs.
  pub extend-Represents :
      (kvs : List (K × V)) (m : OrderedMap T K V) (l : List (K × V))
      → Represents m l
      → Represents (extend T hash_one m kvs) (assign_all l kvs)
  unfolding extend
  extend-Represents [] m l r = r
  extend-Represents ((k, v) ∷ kvs) m l r =
      extend-Represents kvs _ (assign k v l) (insert-Represents m l k v r).0
