-- ===== src/Ordered/Reads.antt =====
-- The reading operations of `OrderedMap` against the list of pairs: src/ordered.rs lines 108-165 and
-- the iterators.
use mux_runtime.Common.{
  ℕ, suc, ◌-◌, ◌≡◌, refl, sym, ap, ◌∙◌, Bool, true, false, Option, none, some, List, [], ◌∷◌, ◌++◌,
  Eq, inl, inr, subst, get_elem?, set, length,
}
use mux_runtime.Ordered.Table.{HashTable}
use mux_runtime.Ordered.Map.{Slot, occupied, free, OrderedMap, get, contains_key}
use mux_runtime.Ordered.Iter.{
  Iter, iter_next, into_iter_next, collect, yield_at, take_at, then_rest,
}
use mux_runtime.Ordered.Chain.{Entry, first, Seg, Unique, Seg-frame, All-set, Apart-Fresh}
use mux_runtime.Ordered.Spec.{lookup, contents, lookup-Lacks, lookup_split}
use mux_runtime.Ordered.Rep.{Rep, find_lem, slot_split}
use mux_runtime.Ordered.Unique.{Unique-append, Cross-left, Apart-Lacks}

-- whether an option holds a value
abbrev pub is_some {ℓ} : {A : Type ℓ} → Option A → Bool
is_some none = false
is_some (some _) = true

module _ {ℓ κ} {K : Type ℓ} {V : Type κ} ⦃q : Eq K⦄ (T : HashTable) (hash_one : K → ℕ) where
  pub lookup_middle :
      (l : List (Entry K V)) (e : Entry K V) (r : List (Entry K V))
      → Unique (l ++ e ∷ r)
      → lookup e.1 (contents (l ++ e ∷ r)) ≡ some e.2
  lookup_middle l e r u =
      let (ul, ur, c) = Unique-append l (e ∷ r) u in
      lookup_split l e r (Apart-Lacks e l (Cross-left e l r c))

  pub get_lem :
      (m : OrderedMap T K V) (xs : List (Entry K V)) (k : K)
      → Rep T hash_one m xs
      → get T hash_one m k ≡ lookup k (contents xs)
  unfolding get
  get_lem m xs k r = elim (find_lem T hash_one m xs k r) [
    | inl (o, lacks) ↦ rw (o, get) (sym (lookup-Lacks k xs lacks))
    | inr (l, e, t, split, key, o) ↦
        let s = subst (λ z. Rep T hash_one m z) split r in
        rw (o, slot_split T hash_one m l e t s, get)
          (sym (lookup_middle l e t s.unique)
            ∙ (ap (λ z. lookup z (contents (l ++ e ∷ t))) key
                ∙ ap (λ z. lookup k (contents z)) (sym split)))
  ]

  pub contains_key_lem :
      (m : OrderedMap T K V) (xs : List (Entry K V)) (k : K)
      → Rep T hash_one m xs
      → contains_key T hash_one m k ≡ is_some (lookup k (contents xs))
  unfolding contains_key
  contains_key_lem m xs k r = elim (find_lem T hash_one m xs k r) [
    | inl (o, lacks) ↦ rw (o, contains_key, lookup-Lacks k xs lacks)
    | inr (l, e, t, split, key, o) ↦
        let s = subst (λ z. Rep T hash_one m z) split r in
        rw (o, contains_key)
          (ap is_some (
            sym (lookup_middle l e t s.unique)
            ∙ (ap (λ z. lookup z (contents (l ++ e ∷ t))) key
                ∙ ap (λ z. lookup k (contents z)) (sym split))))
  ]

module _ {ℓ κ} {K : Type ℓ} {V : Type κ} where
  -- One step of either iterator at a live slot.
  iter_next_live :
      (s : List (Slot K V)) (i n : ℕ) {k : K} {v : V} {p m : Option ℕ}
      → get_elem? s i ≡ some (occupied k v p m)
      → iter_next (record { slab = s; next = some i; remaining = n })
        ≡ (some (k, v), record { slab = s; next = m; remaining = n - 1 })
  unfolding iter_next
  iter_next_live s i n h = rw (h, yield_at)

  into_iter_next_live :
      (s : List (Slot K V)) (i n : ℕ) {k : K} {v : V} {p m : Option ℕ}
      → get_elem? s i ≡ some (occupied k v p m)
      → into_iter_next (record { slab = s; next = some i; remaining = n })
        ≡ (some (k, v), record { slab = set s i (free none); next = m; remaining = n - 1 })
  unfolding into_iter_next
  into_iter_next_live s i n h = rw (h, take_at)

  collect_step :
      (step : Iter K V → Option (K × V) × Iter K V) (fuel : ℕ) (it it' : Iter K V) (kv : K × V)
      → step it ≡ (some kv, it')
      → collect step (suc fuel) it ≡ then_rest (some kv) (collect step fuel it')
  unfolding collect
  collect_step step fuel it it' kv h = ap (λ z. then_rest z.0 (collect step fuel z.1)) h

  pub collect-Seg :
      (s : List (Slot K V)) (p : Option ℕ) (xs : List (Entry K V)) (n : ℕ)
      → Seg s p xs none
      → collect iter_next
          (suc (length xs))
          (record { slab = s; next = first xs none; remaining = n })
        ≡ some (contents xs)
  unfolding collect
  collect-Seg s p [] n a = unfold iter_next in refl
  collect-Seg s p (e ∷ r) n a =
      collect_step iter_next (suc (length r)) _ _ _ (iter_next_live s e.0 n a.0)
      ∙ ap (then_rest (some (e.1, e.2))) (collect-Seg s (some e.0) r (n - 1) a.1)

  pub collect-Seg_into :
      (s : List (Slot K V)) (p : Option ℕ) (xs : List (Entry K V)) (n : ℕ)
      → Unique xs
      → Seg s p xs none
      → collect into_iter_next
          (suc (length xs))
          (record { slab = s; next = first xs none; remaining = n })
        ≡ some (contents xs)
  unfolding collect
  collect-Seg_into s p [] n u a = unfold into_iter_next in refl
  collect-Seg_into s p (e ∷ r) n u a =
      let s' = set s e.0 (free none) in
      let frame = All-set s e.0 (free none) r (Apart-Fresh e r u.0) in
      collect_step into_iter_next (suc (length r)) _ _ _ (into_iter_next_live s e.0 n a.0)
      ∙ ap (then_rest (some (e.1, e.2))) (
          collect-Seg_into s' (some e.0) r (n - 1) u.1 (Seg-frame s s' (some e.0) r none frame a.1))
