-- ===== src/Ordered/Insert.antt =====
-- `insert` of src/ordered.rs keeps the representation, and is `assign` on the list of pairs.
use mux_runtime.Common.{
  ℕ, ◌<◌, ◌≡◌, ◌≢◌, refl, sym, ap, ◌∙◌, arith, Option, none, some, List, [], ◌∷◌, ◌++◌, Eq, inl,
  inr, subst, get_elem?, set, length, All, All-imp, All-append_right, length-append,
  get_elem?-length, get_elem?-append_lt, get_elem?-append_length, lt_of_get_elem?,
  get_elem?-set_self,
}
use mux_runtime.Ordered.Table.{HashTable}
use mux_runtime.Ordered.Map.{
  Slot, occupied, free, OrderedMap, insert, insert_found, insert_at, insert_new, alloc_slot,
  alloc_from, alloc_at, rehash, link_next, or_else,
}
use mux_runtime.Ordered.Chain.{
  Entry, first, last, Seg, Unique, Fresh, Apart, Seg-frame, Seg-append, Seg-split, Seg-link_next,
  link_next_frame, All-set, Apart-Fresh, InSlab, Seg-InSlab,
}
use mux_runtime.Ordered.Spec.{
  lookup, assign, contents, Lacks, lookup-Lacks, assign-Lacks, assign_split, lookup_split,
  contents-append,
}
use mux_runtime.Ordered.Rep.{Rep, find_lem, slot_split, tally, tally-append, locate}
use mux_runtime.Ordered.Unique.{
  Unique-append, Cross-left, Apart-Lacks, Unique-snoc, Unique-assign, first-append, last-append,
  last-none-ne, last-some,
}

module _ {ℓ κ} {K : Type ℓ} {V : Type κ} where
  -- No entry has the index of a slot that is not occupied.
  Fresh-of_slot :
      (s : List (Slot K V)) (i : ℕ) (xs : List (Entry K V))
      → ((k : K) (v : V) (p n : Option ℕ) → get_elem? s i ≢ some (occupied k v p n))
      → All (InSlab s) xs
      → Fresh i xs
  Fresh-of_slot s i [] h a = tt
  Fresh-of_slot s i (e ∷ r) h ((p, n, at), a) = (
    (λ eq. h e.1 e.2 p n (subst (λ z. get_elem? s z ≡ some (occupied e.1 e.2 p n)) eq at)),
    Fresh-of_slot s i r h a,
  )

  All-push :
      (s : List (Slot K V)) (x : Slot K V) (xs : List (Entry K V))
      → All (InSlab s) xs
      → All (λ e. get_elem? (s ++ x ∷ []) e.0 ≡ get_elem? s e.0) xs
  All-push s x xs =
      All-imp (λ e h. get_elem?-append_lt s (x ∷ []) e.0 (lt_of_get_elem? s e.0 h.2)) xs

  -- What a new slot must be to the entries that are there.
  pub record Alloc {T : HashTable} (slot : Slot K V) (m : OrderedMap T K V) (xs : List (Entry K V))
      (i : ℕ) (m' : OrderedMap T K V) : Type (ℓ ⊔ κ) where
    pub fresh : Fresh i xs
    pub written : get_elem? m'.slab i ≡ some slot
    pub kept : All (λ e. get_elem? m'.slab e.0 ≡ get_elem? m.slab e.0) xs
    pub same_table : m'.table ≡ m.table
    pub same_head : m'.head ≡ m.head
    pub same_len : m'.len ≡ m.len

module _ {ℓ κ} {K : Type ℓ} {V : Type κ} (T : HashTable) (slot : Slot K V) where
  -- A slot pushed behind the slab.
  push-Alloc :
      (m : OrderedMap T K V) (xs : List (Entry K V)) (f : Option ℕ)
      → All (InSlab m.slab) xs
      → Alloc slot m xs (length m.slab) (record m { slab = m.slab ++ slot ∷ []; free_head = f })
  push-Alloc m xs f a = record {
    fresh = Fresh-of_slot m.slab (length m.slab) xs (λ k v p n h. cc (get_elem?-length m.slab)) a;
    written = get_elem?-append_length m.slab slot;
    kept = All-push m.slab slot xs a;
    same_table = refl;
    same_head = refl;
    same_len = refl;
  }

  -- A hole that is filled.
  fill-Alloc :
      (m : OrderedMap T K V) (xs : List (Entry K V)) (i : ℕ) (f : Option ℕ)
      → All (InSlab m.slab) xs
      → get_elem? m.slab i ≡ some (free f)
      → Alloc slot m xs i (record m { slab = set m.slab i slot; free_head = f })
  fill-Alloc m xs i f a hole =
      let fr = Fresh-of_slot m.slab i xs (λ k v p n h. cc) a in
      record {
        fresh = fr;
        written = get_elem?-set_self m.slab i slot (lt_of_get_elem? m.slab i hole);
        kept = All-set m.slab i slot xs fr;
        same_table = refl;
        same_head = refl;
        same_len = refl;
      }

  alloc_at_lem :
      (m : OrderedMap T K V) (xs : List (Entry K V)) (i : ℕ) (o : Option (Slot K V))
      → get_elem? m.slab i ≡ o
      → All (InSlab m.slab) xs
      → Alloc slot m xs (alloc_at T o i slot m).0 (alloc_at T o i slot m).1
  unfolding alloc_at
  alloc_at_lem m xs i none h a = push-Alloc m xs none a
  alloc_at_lem m xs i (some (free f)) h a = fill-Alloc m xs i f a h
  alloc_at_lem m xs i (some (occupied _ _ _ _)) h a = push-Alloc m xs none a

  alloc_from_lem :
      (m : OrderedMap T K V) (xs : List (Entry K V)) (f : Option ℕ)
      → All (InSlab m.slab) xs
      → Alloc slot m xs (alloc_from T f slot m).0 (alloc_from T f slot m).1
  unfolding alloc_from
  alloc_from_lem m xs none a = push-Alloc m xs m.free_head a
  alloc_from_lem m xs (some i) a = alloc_at_lem m xs i (get_elem? m.slab i) refl a

  -- `alloc_slot` never hands out the index of a live entry.
  pub alloc_slot_lem :
      (m : OrderedMap T K V) (xs : List (Entry K V))
      → All (InSlab m.slab) xs
      → Alloc slot m xs (alloc_slot T slot m).0 (alloc_slot T slot m).1
  unfolding alloc_slot
  alloc_slot_lem m xs a = alloc_from_lem m xs m.free_head a

module _ {ℓ κ} {K : Type ℓ} {V : Type κ} where
  -- A fresh index differs from every entry's, and so does a key that no entry has.
  Fresh-Apart :
      (i : ℕ) (k : K) (v : V) (xs : List (Entry K V)) → Fresh i xs → Lacks k xs → Apart (i, k, v) xs
  Fresh-Apart i k v [] f h = tt
  Fresh-Apart i k v (e ∷ r) f h = ((f.0, h.0), Fresh-Apart i k v r f.1 h.1)

  or_else-head :
      (xs : List (Entry K V)) (e : Entry K V)
      → or_else (last none xs) (some e.0) (first xs none) ≡ first (xs ++ e ∷ []) none
  or_else-head [] e = refl
  or_else-head (d ∷ r) e = rw ((last-some d.0 r).1)

  -- The chain with a new last entry, in the slab that `insert` writes.
  Seg-snoc :
      (s t : List (Slot K V)) (xs : List (Entry K V)) (e : Entry K V)
      → Unique xs
      → Seg s none xs none
      → Fresh e.0 xs
      → All (λ d. get_elem? t d.0 ≡ get_elem? s d.0) xs
      → get_elem? t e.0 ≡ some (occupied e.1 e.2 (last none xs) none)
      → Seg (link_next (last none xs) (some e.0) t) none (xs ++ e ∷ []) none
  Seg-snoc s t xs e u a f kept w =
      Seg-append _ none xs (e ∷ []) none
        (Seg-link_next t none xs none (some e.0) u (Seg-frame s t none xs none kept a))
        (link_next_frame (last none xs) (some e.0) t e.0 (last-none-ne xs e.0 f) ∙ w, tt)

module _ {ℓ κ} {K : Type ℓ} {V : Type κ} ⦃q : Eq K⦄ (T : HashTable) (hash_one : K → ℕ) where
  rehash_live :
      (s : List (Slot K V)) (e : Entry K V) → InSlab s e → rehash T hash_one s e.0 ≡ hash_one e.1
  unfolding rehash
  rehash_live s e (p, n, at) = rw (at, rehash)

  -- The rehash closure gives each stored index the hash that it is stored under.
  rehash_stored :
      (s : List (Slot K V)) (xs : List (Entry K V))
      → All (InSlab s) xs
      → (g j : ℕ) → 0 < tally hash_one xs g j
      → rehash T hash_one s j ≡ g
  rehash_stored s xs a g j c =
      let (l, e, t, split, at, hashed) = locate hash_one xs g j c in
      let live = All-append_right (InSlab s) l (e ∷ t) (subst (All (InSlab s)) split a) in
      ap (rehash T hash_one s) (sym at) ∙ (rehash_live s e live.0 ∙ hashed)

  stored-insert :
      (t : T.Table) (s : List (Slot K V)) (xs : List (Entry K V)) (e : Entry K V)
      → All (InSlab s) xs
      → ((h j : ℕ) → T.count t h j ≡ tally hash_one xs h j)
      → (h j : ℕ)
      → T.count (T.insert_unique t (hash_one e.1) e.0 (rehash T hash_one s)) h j
        ≡ tally hash_one (xs ++ e ∷ []) h j
  stored-insert t s xs e live r h j =
      T.count-insert t (hash_one e.1) e.0 (rehash T hash_one s)
        (λ g i c. rehash_stored s xs live g i (subst (λ z. 0 < z) (r g i) c)) h j
      ∙ omega (arith, r h j, tally-append hash_one xs (e ∷ []) h j)

  -- A new key becomes the last entry.
  insert_new-Rep :
      (m : OrderedMap T K V) (xs : List (Entry K V)) (k : K) (v : V)
      → Rep T hash_one m xs
      → Lacks k xs
      → (i : ℕ) × Rep T hash_one (insert_new T hash_one m (hash_one k) k v) (xs ++ (i, k, v) ∷ [])
  unfolding insert_new
  insert_new-Rep m xs k v r h =
      let slot : Slot K V = occupied k v m.tail none in
      let i = (alloc_slot T slot m).0 in
      let m1 = (alloc_slot T slot m).1 in
      let al = alloc_slot_lem T slot m xs (Seg-InSlab m.slab none xs none r.links) in
      let chain =
        subst (λ z. Seg (link_next z (some i) m1.slab) none (xs ++ (i, k, v) ∷ []) none)
          (sym r.last_ok)
          (Seg-snoc m.slab m1.slab xs (i, k, v) r.unique r.links al.fresh al.kept
            (al.written ∙ ap (λ z. some (occupied k v z none)) r.last_ok)) in
      let slab = link_next m.tail (some i) m1.slab in
      let live =
        Seg-InSlab slab none xs (some i) (Seg-split slab none xs ((i, k, v) ∷ []) none chain).0 in
      (
        i,
        record {
          links = chain;
          first_ok =
              ap (λ z. or_else z (some i) m1.head) r.last_ok
              ∙ (ap (or_else (last none xs) (some i)) (al.same_head ∙ r.first_ok)
                  ∙ or_else-head xs (i, k, v));
          last_ok = sym (last-append none xs (i, k, v) []);
          unique = Unique-snoc xs (i, k, v) r.unique (Fresh-Apart i k v xs al.fresh h);
          counted = omega (arith, r.counted, al.same_len, length-append xs ((i, k, v) ∷ []));
          stored =
              stored-insert m1.table slab xs (i, k, v) live
                (λ g j. ap (λ t. T.count t g j) al.same_table ∙ r.stored g j);
        },
      )

module _ {ℓ κ} {K : Type ℓ} {V : Type κ} ⦃q : Eq K⦄ (T : HashTable) (hash_one : K → ℕ) where
  -- The chain whose middle entry has a new value.
  Seg-assign :
      (s : List (Slot K V)) (l : List (Entry K V)) (e : Entry K V) (r : List (Entry K V)) (v : V)
      → Unique (l ++ e ∷ r)
      → Seg s none (l ++ e ∷ r) none
      → Seg
          (set s e.0 (occupied e.1 v (last none l) (first r none)))
          none
          (l ++ (e.0, e.1, v) ∷ r)
          none
  Seg-assign s l e r v u a =
      let slot = occupied e.1 v (last none l) (first r none) in
      let t = set s e.0 slot in
      let (before, (at, after)) = Seg-split s none l (e ∷ r) none a in
      let (ul, (ae, ur), c) = Unique-append l (e ∷ r) u in
      let fl = Apart-Fresh e l (Cross-left e l r c) in
      let fr = Apart-Fresh e r ae in
      Seg-append t none l ((e.0, e.1, v) ∷ r) none
        (Seg-frame s t none l (some e.0) (All-set s e.0 slot l fl) before)
        (
          get_elem?-set_self s e.0 slot (lt_of_get_elem? s e.0 at),
          Seg-frame s t (some e.0) r none (All-set s e.0 slot r fr) after,
        )

  assign-Rep :
      (m : OrderedMap T K V) (l : List (Entry K V)) (e : Entry K V) (r : List (Entry K V)) (v : V)
      → Rep T hash_one m (l ++ e ∷ r)
      → Rep T hash_one
          (record m { slab = set m.slab e.0 (occupied e.1 v (last none l) (first r none)) })
          (l ++ (e.0, e.1, v) ∷ r)
  assign-Rep m l e r v p = record {
    links = Seg-assign m.slab l e r v p.unique p.links;
    first_ok = p.first_ok ∙ (first-append l e r none ∙ sym (first-append l (e.0, e.1, v) r none));
    last_ok = p.last_ok ∙ (last-append none l e r ∙ sym (last-append none l (e.0, e.1, v) r));
    unique = Unique-assign l e r v p.unique;
    counted =
        omega (arith, p.counted, length-append l (e ∷ r), length-append l ((e.0, e.1, v) ∷ r));
    stored = λ h j.
        p.stored h j
        ∙ (tally-append hash_one l (e ∷ r) h j
            ∙ sym (tally-append hash_one l ((e.0, e.1, v) ∷ r) h j));
  }

  -- What `insert` is to the list of pairs.
  abbrev pub Inserted :
      OrderedMap T K V → List (Entry K V) → K → V → OrderedMap T K V × Option V → Type (ℓ ⊔ κ)
  Inserted m xs k v o =
      (ys : List (Entry K V)) × Rep T hash_one o.0 ys
      × (contents ys ≡ assign k v (contents xs))
      × (o.1 ≡ lookup k (contents xs))

  insert_at_middle :
      (m : OrderedMap T K V) (l : List (Entry K V)) (e : Entry K V) (r : List (Entry K V)) (h : ℕ)
      (v : V)
      → Rep T hash_one m (l ++ e ∷ r)
      → Inserted m (l ++ e ∷ r) e.1 v (insert_at T hash_one (get_elem? m.slab e.0) e.0 m h e.1 v)
  unfolding insert_at
  insert_at_middle m l e r h v p =
      let (ul, ur, c) = Unique-append l (e ∷ r) p.unique in
      let lacks = Apart-Lacks e l (Cross-left e l r c) in
      let out : Inserted m (l ++ e ∷ r) e.1 v (
          insert_at T hash_one (some (occupied e.1 e.2 (last none l) (first r none))) e.0 m h e.1
            v) =
        (
          l ++ (e.0, e.1, v) ∷ r,
          assign-Rep m l e r v p,
          sym (assign_split l e r v lacks),
          sym (lookup_split l e r lacks),
        ) in
      subst (λ o. Inserted m (l ++ e ∷ r) e.1 v (insert_at T hash_one o e.0 m h e.1 v))
        (sym (slot_split T hash_one m l e r p)) out

  -- `insert` replaces the value of a key in place, or appends the pair, and returns the old value.
  pub insert-refines :
      (m : OrderedMap T K V) (xs : List (Entry K V)) (k : K) (v : V)
      → Rep T hash_one m xs
      → Inserted m xs k v (insert T hash_one m k v)
  unfolding insert insert_found
  insert-refines m xs k v r = elim (find_lem T hash_one m xs k r) [
    | inl (o, lacks) ↦
        let (i, p) = insert_new-Rep T hash_one m xs k v r lacks in
        subst (λ z. Inserted m xs k v (insert_found T hash_one z m (hash_one k) k v)) (sym o)
          (
            xs ++ (i, k, v) ∷ [],
            p,
            contents-append xs ((i, k, v) ∷ []) ∙ sym (assign-Lacks k v xs lacks),
            sym (lookup-Lacks k xs lacks),
          )
    | inr (l, e, t, split, key, o) ↦
        let found = λ (j : K). insert_found T hash_one (some e.0) m (hash_one j) j v in
        let p = subst (λ z. Rep T hash_one m z) split r in
        subst (λ z. Inserted m xs k v (insert_found T hash_one z m (hash_one k) k v)) (sym o)
          (subst (λ z. Inserted m z k v (found k)) (sym split)
            (subst (λ z. Inserted m (l ++ e ∷ t) z v (found z)) key
              (insert_at_middle m l e t (hash_one e.1) v p)))
  ]
