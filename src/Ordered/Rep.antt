-- ===== src/Ordered/Rep.antt =====
-- The representation invariant of `OrderedMap` in src/ordered.rs, and the search for a key.
use mux_runtime.Common.{
  ℕ, ◌+◌, ◌<◌, ◌≡◌, ◌≢◌, refl, sym, ◌∙◌, arith, true, false, none, some, List, [], ◌∷◌, ◌++◌, Eq,
  All, All-imp, get_elem?, length, Bool-cases, Option-cases, inl, inr, ◌⊎◌, ◌==◌, ap, subst,
}
use mux_runtime.Ordered.Table.{HashTable, same}
use mux_runtime.Ordered.Map.{occupied, OrderedMap, holds_key, index_of_hashed}
use mux_runtime.Ordered.Chain.{Entry, first, last, Seg, Seg-split, Seg-InSlab, InSlab, Unique}
use mux_runtime.Ordered.Spec.{Lacks}

module _ {ℓ κ} {K : Type ℓ} {V : Type κ} (hash_one : K → ℕ) where
  -- how often the entries have the hash `h` and the index `j`
  abbrev pub tally : List (Entry K V) → ℕ → ℕ → ℕ
  tally [] h j = 0
  tally (e ∷ r) h j = same (hash_one e.1) e.0 h j + tally r h j

  pub tally_self : (xs : List (Entry K V)) → All (λ d. 0 < tally xs (hash_one d.1) d.0) xs
  tally_self [] = tt
  tally_self (e ∷ r) = (ground arith, All-imp (λ d h. omega arith) r (tally_self r))

  pub tally-append :
      (xs ys : List (Entry K V)) (h j : ℕ) → tally (xs ++ ys) h j ≡ tally xs h j + tally ys h j
  tally-append [] ys h j = omega arith
  tally-append (e ∷ r) ys h j = omega (arith, tally-append r ys h j)

  -- An entry of the hash `h` and the index `j`, with what stands before and behind it.
  abbrev Place : List (Entry K V) → ℕ → ℕ → Type (ℓ ⊔ κ)
  Place xs h j =
      (l : List (Entry K V)) × (e : Entry K V) × (r : List (Entry K V)) × (xs ≡ l ++ e ∷ r)
      × (e.0 ≡ j)
      × (hash_one e.1 ≡ h)

  behind : (e : Entry K V) (xs : List (Entry K V)) (h j : ℕ) → Place xs h j → Place (e ∷ xs) h j
  behind e xs h j (l, d, t, p, q, g) = (e ∷ l, d, t, ap (λ z. e ∷ z) p, q, g)

  -- An entry that is counted stands somewhere in the chain.
  pub locate : (xs : List (Entry K V)) (h j : ℕ) → 0 < tally xs h j → Place xs h j
  locate [] h j c = elim c [ ]
  locate (e ∷ r) h j c = elim (Bool-cases (hash_one e.1 == h)) [
    | inl p ↦ elim (Bool-cases (e.0 == j)) [
      | inl q ↦ ([], e, r, refl, ground arith, ground arith)
      | inr q ↦ behind e r h j (locate r h j (ground arith))
    ]
    | inr p ↦ behind e r h j (locate r h j (ground arith))
  ]

module _ {ℓ κ} {K : Type ℓ} {V : Type κ} ⦃q : Eq K⦄ (T : HashTable) (hash_one : K → ℕ) where
  -- The map holds the entries of `xs` in this order.
  pub record Rep (m : OrderedMap T K V) (xs : List (Entry K V)) : Type (ℓ ⊔ κ) where
    pub links : Seg m.slab none xs none
    pub first_ok : m.head ≡ first xs none
    pub last_ok : m.tail ≡ last none xs
    pub unique : Unique xs
    pub counted : m.len ≡ length xs
    pub stored : (h j : ℕ) → T.count m.table h j ≡ tally hash_one xs h j

  abbrev pub IsValid : OrderedMap T K V → Type (ℓ ⊔ κ)
  IsValid m = (xs : List (Entry K V)) × Rep m xs

  pub holds_key_at :
      (m : OrderedMap T K V) (k : K) (e : Entry K V)
      → InSlab m.slab e
      → holds_key T hash_one m k e.0 ≡ q.beq e.1 k
  unfolding holds_key
  holds_key_at m k e (p, n, h) = rw (h, holds_key)

  -- The slot of an entry in the middle of the chain.
  pub slot_split :
      (m : OrderedMap T K V) (xs : List (Entry K V)) (e : Entry K V) (ys : List (Entry K V))
      → Rep m (xs ++ e ∷ ys)
      → get_elem? m.slab e.0 ≡ some (occupied e.1 e.2 (last none xs) (first ys none))
  slot_split m xs e ys r = (Seg-split m.slab none xs (e ∷ ys) none r.links).1.0

  -- What a search finds: no index and no entry with the key, or the entry with the key.
  abbrev pub Found : OrderedMap T K V → List (Entry K V) → K → Type (ℓ ⊔ κ)
  Found m xs k =
      ((index_of_hashed T hash_one m (hash_one k) k ≡ none) × Lacks k xs)
      ⊎ ((l : List (Entry K V)) × (e : Entry K V) × (r : List (Entry K V)) × (xs ≡ l ++ e ∷ r)
          × (e.1 ≡ k)
          × (index_of_hashed T hash_one m (hash_one k) k ≡ some e.0))

  absent :
      (m : OrderedMap T K V) (k : K) (xs : List (Entry K V))
      → index_of_hashed T hash_one m (hash_one k) k ≡ none
      → All (InSlab m.slab) xs
      → All (λ d. 0 < T.count m.table (hash_one d.1) d.0) xs
      → Lacks k xs
  unfolding index_of_hashed
  absent m k [] o a c = tt
  absent m k (e ∷ r) o a c = (here, absent m k r o a.1 c.1)
    where
      here : e.1 ≢ k
      here h =
          let f : holds_key T hash_one m k e.0 ≡ false =
            T.find_none m.table (hash_one k) (holds_key T hash_one m k) e.0 o
              (subst (λ z. 0 < T.count m.table (hash_one z) e.0) h c.0) in
          let t : holds_key T hash_one m k e.0 ≡ true =
            holds_key_at m k e a.0 ∙ (q.beq_iff e.1 k).1 h in
          cc

  present :
      (m : OrderedMap T K V) (xs : List (Entry K V)) (k : K) (i : ℕ)
      → Rep m xs
      → index_of_hashed T hash_one m (hash_one k) k ≡ some i
      → Found m xs k
  unfolding index_of_hashed
  present m xs k i r o =
      let (passes, g, c) = T.find_some m.table (hash_one k) (holds_key T hash_one m k) i o in
      let (l, e, t, split, at, hashed) =
        locate hash_one xs g i (subst (λ z. 0 < z) (r.stored g i) c) in
      let slot = slot_split m l e t (subst (λ z. Rep m z) split r) in
      let key : q.beq e.1 k ≡ true =
        sym (holds_key_at m k e (last none l, first t none, slot))
        ∙ (ap (holds_key T hash_one m k) at ∙ passes) in
      inr (l, e, t, split, (q.beq_iff e.1 k).0 key, o ∙ ap some (sym at))

  pub find_lem : (m : OrderedMap T K V) (xs : List (Entry K V)) (k : K) → Rep m xs → Found m xs k
  unfolding index_of_hashed
  find_lem m xs k r = elim (Option-cases (index_of_hashed T hash_one m (hash_one k) k)) [
    | inl o ↦ inl (o, absent m k xs o (Seg-InSlab m.slab none xs none r.links) counts)
    | inr (i, o) ↦ present m xs k i r o
  ]
    where
      counts : All (λ d. 0 < T.count m.table (hash_one d.1) d.0) xs
      counts =
          All-imp (λ d c. subst (λ z. 0 < z) (sym (r.stored (hash_one d.1) d.0)) c) xs
            (tally_self hash_one xs)
