-- ===== src/Ordered/Equality.antt =====
-- `PartialEq for OrderedMap` of src/ordered.rs: equal lengths, and every pair of the one found in the
-- other. It decides whether the two maps answer every lookup alike, in whatever order they were
-- built.
use mux_runtime.Common.{
  ℕ, suc, ◌≤◌, ◌≡◌, ◌≢◌, refl, sym, ap, ◌∙◌, arith, Bool, true, false, ◌&&◌, ◌==◌, Option, none,
  some, List, [], ◌∷◌, Eq, length, All, All-imp, Bool-cases, inl, inr, beq_self, beq_ne,
}
use mux_runtime.Ordered.Table.{HashTable}
use mux_runtime.Ordered.Map.{OrderedMap, get}
use mux_runtime.Ordered.Iter.{iter, iter_next, collect}
use mux_runtime.Ordered.Spec.{lookup, erase}

module _ {κ} {V : Type κ} ⦃w : Eq V⦄ where
  -- `other.get(k).is_some_and(|ov| ov == v)`
  abbrev pub same_value : Option V → V → Bool
  same_value none v = false
  same_value (some u) v = w.beq u v

module _ {ℓ κ} {K : Type ℓ} {V : Type κ} ⦃q : Eq K⦄ ⦃w : Eq V⦄ where
  -- `self.iter().all(..)`
  unfoldable pub all_in : (T : HashTable) → (K → ℕ) → List (K × V) → OrderedMap T K V → Bool
  all_in T hash_one [] n = true
  all_in T hash_one ((k, v) ∷ kvs) n = same_value (get T hash_one n k) v && all_in T hash_one kvs n

  -- the pairs that the iterator yields; `[]` where it did not end
  abbrev pub yielded : Option (List (K × V)) → List (K × V)
  yielded none = []
  yielded (some kvs) = kvs

  unfoldable pub map_eq : (T : HashTable) → (K → ℕ) → OrderedMap T K V → OrderedMap T K V → Bool
  unfolding all_in
  map_eq T hash_one m n =
      (m.len == n.len) && all_in T hash_one (yielded (collect iter_next (suc m.len) (iter m))) n

module _ {ℓ κ} {K : Type ℓ} {V : Type κ} ⦃q : Eq K⦄ where
  -- No two pairs have the same key.
  abbrev pub Distinct : List (K × V) → Type ℓ
  Distinct [] = Unit
  Distinct ((k, v) ∷ l) = All (λ x. x.0 ≢ k) l × Distinct l

  -- Every pair is found in the other list.
  abbrev pub Within : List (K × V) → List (K × V) → Type κ
  Within l r = All (λ x. lookup x.0 r ≡ some x.1) l

  pub lookup-absent : (k : K) (l : List (K × V)) → All (λ x. x.0 ≢ k) l → lookup k l ≡ none
  lookup-absent k [] h = refl
  lookup-absent k ((j, v) ∷ l) h = rw (beq_ne j k h.0) (lookup-absent k l h.1)

  lookup-erase_ne : (k j : K) (r : List (K × V)) → j ≢ k → lookup j (erase k r) ≡ lookup j r
  lookup-erase_ne k j [] h = refl
  lookup-erase_ne k j ((i, v) ∷ r) h =
      ground (arith, q.beq_iff i k, q.beq_iff i j, lookup-erase_ne k j r h)

  length-erase :
      (k : K) (r : List (K × V)) (v : V) → lookup k r ≡ some v → suc (length (erase k r)) ≡ length r
  length-erase k [] v h = absurd (cc)
  length-erase k ((i, u) ∷ r) v h = ground (arith, length-erase k r v)

  Within-erase :
      (k : K) (l r : List (K × V)) → All (λ x. x.0 ≢ k) l → Within l r → Within l (erase k r)
  Within-erase k [] r a h = tt
  Within-erase k (x ∷ l) r a h = (lookup-erase_ne k x.0 r a.0 ∙ h.0, Within-erase k l r a.1 h.1)

  -- A list with distinct keys is no longer than one that it lies within.
  pub length-Within : (l r : List (K × V)) → Distinct l → Within l r → length l ≤ length r
  length-Within [] r d h = omega arith
  length-Within ((k, v) ∷ l) r d h =
      omega (
        arith,
        length-Within l (erase k r) d.1 (Within-erase k l r d.0 h.1),
        length-erase k r v h.0,
      )

  -- If it is as long, the two answer every lookup alike.
  pub lookup-Within :
      (l r : List (K × V)) (j : K)
      → Distinct l
      → Within l r
      → length l ≡ length r
      → lookup j l ≡ lookup j r
  lookup-Within [] [] j d h e = refl
  lookup-Within [] (x ∷ r) j d h e = absurd (omega arith)
  lookup-Within ((k, v) ∷ l) r j d h e = elim (Bool-cases (q.beq k j)) [
    | inl t ↦ rw t (sym (ap (λ z. lookup z r) (sym ((q.beq_iff k j).0 t)) ∙ h.0))
    | inr f ↦ rw f (
        lookup-Within l (erase k r) j d.1 (Within-erase k l r d.0 h.1)
          (omega (arith, length-erase k r v h.0))
        ∙ lookup-erase_ne k j r (λ p. cc ((q.beq_iff k j).1 (sym p))))
  ]

  Within-cons :
      (k : K) (v : V) (ys l : List (K × V))
      → All (λ x. x.0 ≢ k) ys
      → Within ys l
      → Within ys ((k, v) ∷ l)
  Within-cons k v [] l a h = tt
  Within-cons k v (y ∷ ys) l a h =
      (rw (beq_ne k y.0 (λ p. a.0 (sym p))) h.0, Within-cons k v ys l a.1 h.1)

  Within-self : (l : List (K × V)) → Distinct l → Within l l
  Within-self [] d = tt
  Within-self ((k, v) ∷ l) d = (rw (beq_self k), Within-cons k v l l d.0 (Within-self l d.1))

  pub Within-of_lookup :
      (l r : List (K × V)) → Distinct l → ((j : K) → lookup j l ≡ lookup j r) → Within l r
  Within-of_lookup l r d h = All-imp (λ x e. sym (h x.0) ∙ e) l (Within-self l d)
