-- ===== src/Ordered/Set.antt =====
-- `OrderedSet` of src/ordered.rs: the map with unit values.
use mux_runtime.Common.{
  ℕ, ◌≡◌, refl, ap, subst, ◌∙◌, arith, Bool, true, false, not, List, [], ◌∷◌, Eq, if◌then◌else◌,
}
use mux_runtime.Ordered.Table.{HashTable}
use mux_runtime.Ordered.Map
use mux_runtime.Ordered.Map.{OrderedMap}
use mux_runtime.Ordered.Spec.{lookup, assign, erase}
use mux_runtime.Ordered.Reads.{is_some}
use mux_runtime.Ordered.Run.{Represents, insert-Represents, remove-Represents, reads-Represents}

abbrev pub OrderedSet {ℓ} : HashTable → Type ℓ → Type ℓ
OrderedSet T A = OrderedMap T A (Unit {0})

module _ {ℓ} {A : Type ℓ} ⦃q : Eq A⦄ (T : HashTable) (hash_one : A → ℕ) where
  unfoldable pub insert : OrderedSet T A → A → OrderedSet T A × Bool
  insert s a = let (s', old) = Map.insert T hash_one s a tt in (s', not (is_some old))

  unfoldable pub contains : OrderedSet T A → A → Bool
  contains s a = Map.contains_key T hash_one s a

  unfoldable pub remove : OrderedSet T A → A → OrderedSet T A × Bool
  remove s a = let (s', old) = Map.remove T hash_one s a in (s', is_some old)

  -- `FromIterator` and `Extend`
  unfoldable pub extend : OrderedSet T A → List A → OrderedSet T A
  unfolding insert
  extend s [] = s
  extend s (a ∷ rest) = extend (insert s a).0 rest

module _ {ℓ} {A : Type ℓ} ⦃q : Eq A⦄ where
  abbrev pub member : A → List A → Bool
  member a [] = false
  member a (b ∷ l) = if q.beq b a then true else member a l

  -- a value goes to the end, unless it is there
  abbrev pub add : A → List A → List A
  add a [] = a ∷ []
  add a (b ∷ l) = if q.beq b a then b ∷ l else b ∷ add a l

  abbrev pub discard : A → List A → List A
  discard a [] = []
  discard a (b ∷ l) = if q.beq b a then l else b ∷ discard a l

  abbrev pub add_all : List A → List A → List A
  add_all l [] = l
  add_all l (a ∷ rest) = add_all (add a l) rest

abbrev pub pairs {ℓ} : {A : Type ℓ} → List A → List (A × Unit {0})
pairs [] = []
pairs (a ∷ l) = (a, tt) ∷ pairs l

module _ {ℓ} {A : Type ℓ} ⦃q : Eq A⦄ where
  lookup-pairs : (a : A) (l : List A) → is_some (lookup a (pairs l)) ≡ member a l
  lookup-pairs a [] = refl
  lookup-pairs a (b ∷ l) = ground (arith, lookup-pairs a l)

  assign-pairs : (a : A) (l : List A) → assign a tt (pairs l) ≡ pairs (add a l)
  assign-pairs a [] = refl
  assign-pairs a (b ∷ l) = ground (arith, assign-pairs a l)

  erase-pairs : (a : A) (l : List A) → erase a (pairs l) ≡ pairs (discard a l)
  erase-pairs a [] = refl
  erase-pairs a (b ∷ l) = ground (arith, erase-pairs a l)

module _ {ℓ} {A : Type ℓ} ⦃q : Eq A⦄ (T : HashTable) (hash_one : A → ℕ) where
  -- The set holds these values, in this order.
  abbrev pub Holds : OrderedSet T A → List A → Type ℓ
  Holds s l = Represents T hash_one s (pairs l)

  insert-Holds :
      (s : OrderedSet T A) (l : List A) (a : A)
      → Holds s l
      → Holds (insert T hash_one s a).0 (add a l) × ((insert T hash_one s a).1 ≡ not (member a l))
  unfolding insert
  insert-Holds s l a h =
      let (r, o) = insert-Represents T hash_one s (pairs l) a tt h in
      (
        subst (Represents T hash_one (Map.insert T hash_one s a tt).0) (assign-pairs a l) r,
        ap (λ z. not (is_some z)) o ∙ ap not (lookup-pairs a l),
      )

  remove-Holds :
      (s : OrderedSet T A) (l : List A) (a : A)
      → Holds s l
      → Holds (remove T hash_one s a).0 (discard a l) × ((remove T hash_one s a).1 ≡ member a l)
  unfolding remove
  remove-Holds s l a h =
      let (r, o) = remove-Represents T hash_one s (pairs l) a h in
      (
        subst (Represents T hash_one (Map.remove T hash_one s a).0) (erase-pairs a l) r,
        ap is_some o ∙ lookup-pairs a l,
      )

  -- On a set that holds the list `l` in this order: `insert` adds the value at the end, or leaves the
  -- list as it is where the value is a member, and says whether it was new; `remove` takes the value
  -- out, leaves the order of the rest, and says whether it was a member; `contains` says so too.
  pub set_refines :
      (s : OrderedSet T A) (l : List A) (a : A)
      → Holds s l
      → (Holds (insert T hash_one s a).0 (add a l) × ((insert T hash_one s a).1 ≡ not (member a l)))
        × (Holds (remove T hash_one s a).0 (discard a l) × ((remove T hash_one s a).1 ≡ member a l))
        × (contains T hash_one s a ≡ member a l)
  unfolding contains
  set_refines s l a h = (
    insert-Holds s l a h,
    remove-Holds s l a h,
    (reads-Represents T hash_one s (pairs l) a h).1 ∙ lookup-pairs a l,
  )

  -- `extend` adds the values one after another, and the first occurrence of each keeps its place.
  extend-Holds :
      (rest : List A) (s : OrderedSet T A) (l : List A)
      → Holds s l
      → Holds (extend T hash_one s rest) (add_all l rest)
  unfolding extend
  extend-Holds [] s l h = h
  extend-Holds (a ∷ rest) s l h = extend-Holds rest _ (add a l) (insert-Holds s l a h).0
