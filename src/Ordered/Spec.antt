-- ===== src/Ordered/Spec.antt =====
-- What an insertion-ordered map promises, on a list of pairs: a lookup finds the first pair with the
-- key, an insertion replaces in place or appends, a removal leaves the order of the rest.
use mux_runtime.Common.{
  ◌≡◌, ◌≢◌, refl, arith, Option, none, some, List, [], ◌∷◌, ◌++◌, Eq, All, if◌then◌else◌, beq_self,
  beq_ne,
}
use mux_runtime.Ordered.Chain.{Entry}

module _ {ℓ κ} {K : Type ℓ} {V : Type κ} ⦃q : Eq K⦄ where
  abbrev pub lookup : K → List (K × V) → Option V
  lookup k [] = none
  lookup k ((j, w) ∷ r) = if q.beq j k then some w else lookup k r

  abbrev pub assign : K → V → List (K × V) → List (K × V)
  assign k v [] = (k, v) ∷ []
  assign k v ((j, w) ∷ r) = if q.beq j k then (j, v) ∷ r else (j, w) ∷ assign k v r

  abbrev pub erase : K → List (K × V) → List (K × V)
  erase k [] = []
  erase k ((j, w) ∷ r) = if q.beq j k then r else (j, w) ∷ erase k r

  pub lookup-assign :
      (k j : K) (v : V) (r : List (K × V))
      → lookup j (assign k v r) ≡ (if q.beq k j then some v else lookup j r)
  lookup-assign k j v [] = refl
  lookup-assign k j v ((i, w) ∷ r) =
      ground (arith, q.beq_iff i k, q.beq_iff i j, q.beq_iff k j, lookup-assign k j v r)

module _ {ℓ κ} {K : Type ℓ} {V : Type κ} where
  -- the pairs of a chain's entries
  abbrev pub contents : List (Entry K V) → List (K × V)
  contents [] = []
  contents (e ∷ r) = (e.1, e.2) ∷ contents r

  -- No entry has the key `k`.
  abbrev pub Lacks : K → List (Entry K V) → Type ℓ
  Lacks k = All (λ d. d.1 ≢ k)

  pub contents-append :
      (xs ys : List (Entry K V)) → contents (xs ++ ys) ≡ contents xs ++ contents ys
  contents-append [] ys = refl
  contents-append (e ∷ r) ys = rw (contents-append r ys)

module _ {ℓ κ} {K : Type ℓ} {V : Type κ} ⦃q : Eq K⦄ where
  pub lookup-Lacks : (k : K) (xs : List (Entry K V)) → Lacks k xs → lookup k (contents xs) ≡ none
  lookup-Lacks k [] h = refl
  lookup-Lacks k (e ∷ r) h = rw (beq_ne e.1 k h.0) (lookup-Lacks k r h.1)

  pub assign-Lacks :
      (k : K) (v : V) (xs : List (Entry K V))
      → Lacks k xs
      → assign k v (contents xs) ≡ contents xs ++ (k, v) ∷ []
  assign-Lacks k v [] h = refl
  assign-Lacks k v (e ∷ r) h = rw (beq_ne e.1 k h.0, assign-Lacks k v r h.1)

  pub erase-Lacks :
      (k : K) (xs : List (Entry K V)) → Lacks k xs → erase k (contents xs) ≡ contents xs
  erase-Lacks k [] h = refl
  erase-Lacks k (e ∷ r) h = rw (beq_ne e.1 k h.0, erase-Lacks k r h.1)

  pub lookup_split :
      (xs : List (Entry K V)) (e : Entry K V) (ys : List (Entry K V))
      → Lacks e.1 xs
      → lookup e.1 (contents (xs ++ e ∷ ys)) ≡ some e.2
  lookup_split [] e ys h = rw (beq_self e.1)
  lookup_split (d ∷ r) e ys h = rw (beq_ne d.1 e.1 h.0) (lookup_split r e ys h.1)

  pub assign_split :
      (xs : List (Entry K V)) (e : Entry K V) (ys : List (Entry K V)) (v : V)
      → Lacks e.1 xs
      → assign e.1 v (contents (xs ++ e ∷ ys)) ≡ contents (xs ++ (e.0, e.1, v) ∷ ys)
  assign_split [] e ys v h = rw (beq_self e.1)
  assign_split (d ∷ r) e ys v h = rw (beq_ne d.1 e.1 h.0, assign_split r e ys v h.1)

  pub erase_split :
      (xs : List (Entry K V)) (e : Entry K V) (ys : List (Entry K V))
      → Lacks e.1 xs
      → erase e.1 (contents (xs ++ e ∷ ys)) ≡ contents (xs ++ ys)
  erase_split [] e ys h = rw (beq_self e.1)
  erase_split (d ∷ r) e ys h = rw (beq_ne d.1 e.1 h.0, erase_split r e ys h.1)
