-- ===== src/Ordered/Remove.antt =====
-- `remove` of src/ordered.rs keeps the representation, and is `erase` on the list of pairs.
use mux_runtime.Common.{
  ℕ, ◌<◌, ◌≡◌, refl, sym, ap, ◌∙◌, arith, true, Option, none, some, List, [], ◌∷◌, ◌++◌, Eq, inl,
  inr, subst, get_elem?, set, length-append, append-nil, ◌==◌, ==_iff,
}
use mux_runtime.Ordered.Table.{HashTable}
use mux_runtime.Ordered.Map.{
  Slot, occupied, free, OrderedMap, remove, remove_found, remove_at, link_next, link_prev, or_else,
}
use mux_runtime.Ordered.Chain.{
  Entry, first, last, Seg, Unique, Apart-Fresh, Seg-frame, Seg-append, Seg-split, Seg-link_next,
  Seg-link_prev, All-link_next, All-link_prev, All-set,
}
use mux_runtime.Ordered.Spec.{
  lookup, erase, contents, lookup-Lacks, erase-Lacks, lookup_split, erase_split,
}
use mux_runtime.Ordered.Rep.{Rep, find_lem, slot_split, tally, tally-append, locate}
use mux_runtime.Ordered.Unique.{
  Unique-append, Unique-remove, Cross-left, Apart-Lacks, last-append, last-some, last-All_ne,
  first-All_ne,
}

module _ {ℓ κ} {K : Type ℓ} {V : Type κ} where
  -- The two neighbours of a removed entry are linked to one another.
  Seg-unlink :
      (s : List (Slot K V)) (l : List (Entry K V)) (e : Entry K V) (r : List (Entry K V))
      (hole : Slot K V)
      → Unique (l ++ e ∷ r)
      → Seg s none (l ++ e ∷ r) none
      → Seg
          (link_prev
            (first r none)
            (last none l)
            (link_next (last none l) (first r none) (set s e.0 hole)))
          none
          (l ++ r)
          none
  Seg-unlink s l e r hole u a =
      let t = set s e.0 hole in
      let p = last none l in
      let n = first r none in
      let t' = link_next p n t in
      let (before, (at, after)) = Seg-split s none l (e ∷ r) none a in
      let (ul, (ae, ur), c) = Unique-append l (e ∷ r) u in
      let (_, _, cross) = Unique-append l r (Unique-remove l e r u) in
      let before1 =
        Seg-frame s t none l (some e.0)
          (All-set s e.0 hole l (Apart-Fresh e l (Cross-left e l r c))) before in
      let after1 =
        Seg-frame s t (some e.0) r none (All-set s e.0 hole r (Apart-Fresh e r ae)) after in
      let before2 = Seg-link_next t none l (some e.0) n ul before1 in
      let after2 =
        Seg-frame t t' (some e.0) r none (All-link_next p n t r (last-All_ne l r cross)) after1 in
      Seg-append _ none l r none
        (Seg-frame t' _ none l n (All-link_prev n p t' l (first-All_ne l r cross)) before2)
        (Seg-link_prev t' (some e.0) p r none ur after2)

  head-unlink :
      (l : List (Entry K V)) (e : Entry K V) (r : List (Entry K V))
      → or_else (last none l) (first r none) (first (l ++ e ∷ r) none) ≡ first (l ++ r) none
  head-unlink [] e r = refl
  head-unlink (d ∷ l) e r = rw ((last-some d.0 l).1)

  tail-unlink :
      (l : List (Entry K V)) (e : Entry K V) (r : List (Entry K V))
      → or_else (first r none) (last none l) (last none (l ++ e ∷ r)) ≡ last none (l ++ r)
  tail-unlink l e [] = ap (last none) (sym (append-nil l))
  tail-unlink l e (d ∷ r) = last-append none l e (d ∷ r) ∙ sym (last-append none l d r)

module _ {ℓ κ} {K : Type ℓ} {V : Type κ} ⦃q : Eq K⦄ (T : HashTable) (hash_one : K → ℕ) where
  -- The table stores the index of the removed entry once, under the hash of its key.
  stored_once :
      (m : OrderedMap T K V) (l : List (Entry K V)) (e : Entry K V) (r : List (Entry K V))
      → Rep T hash_one m (l ++ e ∷ r)
      → (g j : ℕ) → 0 < T.count m.table g j
      → (j == e.0) ≡ true
      → (g ≡ hash_one e.1) × (j ≡ e.0)
  stored_once m l e r p g j c h =
      let j-e : j ≡ e.0 = (==_iff j e.0).0 h in
      let (l', d, r', split, at, hashed) =
        locate hash_one (l ++ e ∷ r) g j (subst (λ z. 0 < z) (p.stored g j) c) in
      let d-slot = slot_split T hash_one m l' d r' (subst (λ z. Rep T hash_one m z) split p) in
      let e-slot = slot_split T hash_one m l e r p in
      let slots = ap (get_elem? m.slab) (at ∙ j-e) in
      let keys : d.1 ≡ e.1 = cc in (sym hashed ∙ ap hash_one keys, j-e)

  stored-remove :
      (m : OrderedMap T K V) (l : List (Entry K V)) (e : Entry K V) (r : List (Entry K V))
      → Rep T hash_one m (l ++ e ∷ r)
      → (h j : ℕ)
      → T.count (T.remove_entry m.table (hash_one e.1) (λ i. i == e.0)) h j
        ≡ tally hash_one (l ++ r) h j
  stored-remove m l e r p h j =
      T.count-remove m.table (hash_one e.1) (λ i. i == e.0) e.0
        (ground
          (arith, p.stored (hash_one e.1) e.0, tally-append hash_one l (e ∷ r) (hash_one e.1) e.0))
        ((==_iff e.0 e.0).1 refl) (stored_once m l e r p) h j
      ∙ omega
          (arith, p.stored h j, tally-append hash_one l (e ∷ r) h j, tally-append hash_one l r h j)

  unlink-Rep :
      (m : OrderedMap T K V) (l : List (Entry K V)) (e : Entry K V) (r : List (Entry K V))
      → Rep T hash_one m (l ++ e ∷ r)
      → Rep T hash_one
          (remove_at T hash_one
            (some (occupied e.1 e.2 (last none l) (first r none)))
            e.0
            m
            (hash_one e.1)).0
          (l ++ r)
  unfolding remove_at
  unlink-Rep m l e r p = record {
    links = Seg-unlink m.slab l e r (free m.free_head) p.unique p.links;
    first_ok = ap (or_else (last none l) (first r none)) p.first_ok ∙ head-unlink l e r;
    last_ok = ap (or_else (first r none) (last none l)) p.last_ok ∙ tail-unlink l e r;
    unique = Unique-remove l e r p.unique;
    counted = omega (arith, p.counted, length-append l (e ∷ r), length-append l r);
    stored = stored-remove m l e r p;
  }

  -- What `remove` is to the list of pairs.
  abbrev pub Removed : List (Entry K V) → K → OrderedMap T K V × Option V → Type (ℓ ⊔ κ)
  Removed xs k o =
      (ys : List (Entry K V)) × Rep T hash_one o.0 ys
      × (contents ys ≡ erase k (contents xs))
      × (o.1 ≡ lookup k (contents xs))

  remove_at_middle :
      (m : OrderedMap T K V) (l : List (Entry K V)) (e : Entry K V) (r : List (Entry K V))
      → Rep T hash_one m (l ++ e ∷ r)
      → Removed (l ++ e ∷ r) e.1 (remove_at T hash_one (get_elem? m.slab e.0) e.0 m (hash_one e.1))
  unfolding remove_at
  remove_at_middle m l e r p =
      let (ul, ur, c) = Unique-append l (e ∷ r) p.unique in
      let lacks = Apart-Lacks e l (Cross-left e l r c) in
      subst (λ o. Removed (l ++ e ∷ r) e.1 (remove_at T hash_one o e.0 m (hash_one e.1)))
        (sym (slot_split T hash_one m l e r p))
        (
          l ++ r,
          unlink-Rep m l e r p,
          sym (erase_split l e r lacks),
          sym (lookup_split l e r lacks),
        )

  -- `remove` takes the pair of a key out and returns its value; the order of the rest stays.
  pub remove-refines :
      (m : OrderedMap T K V) (xs : List (Entry K V)) (k : K)
      → Rep T hash_one m xs
      → Removed xs k (remove T hash_one m k)
  unfolding remove remove_found
  remove-refines m xs k r = elim (find_lem T hash_one m xs k r) [
    | inl (o, lacks) ↦
        subst (λ z. Removed xs k (remove_found T hash_one z m (hash_one k))) (sym o)
          (xs, r, sym (erase-Lacks k xs lacks), sym (lookup-Lacks k xs lacks))
    | inr (l, e, t, split, key, o) ↦
        let found = λ (j : K). remove_found T hash_one (some e.0) m (hash_one j) in
        let p = subst (λ z. Rep T hash_one m z) split r in
        subst (λ z. Removed xs k (remove_found T hash_one z m (hash_one k))) (sym o)
          (subst (λ z. Removed z k (found k)) (sym split)
            (subst (λ z. Removed (l ++ e ∷ t) z (found z)) key (remove_at_middle m l e t p)))
  ]
