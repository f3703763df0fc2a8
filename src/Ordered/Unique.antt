-- ===== src/Ordered/Unique.antt =====
-- Entries that differ in index and key, taken apart and joined, with the ends of a joined chain.
use mux_runtime.Common.{
  ℕ, ◌≡◌, ◌≢◌, refl, sym, Option, none, some, List, [], ◌∷◌, ◌++◌, All, All-imp, All-append_left,
  All-append_right, All-append,
}
use mux_runtime.Ordered.Chain.{Entry, first, last, Apart, Unique, Fresh, Apart-Fresh, last-ne}
use mux_runtime.Ordered.Spec.{Lacks}

module _ {ℓ κ} {K : Type ℓ} {V : Type κ} where
  pub Apart-Lacks : (e : Entry K V) (xs : List (Entry K V)) → Apart e xs → Lacks e.1 xs
  Apart-Lacks e xs = All-imp (λ d h. h.1) xs

  Apart-sym : (e d : Entry K V) → (d.0 ≢ e.0) × (d.1 ≢ e.1) → (e.0 ≢ d.0) × (e.1 ≢ d.1)
  Apart-sym e d (a, b) = ((λ h. a (sym h)), (λ h. b (sym h)))

  pub Unique-append :
      (l r : List (Entry K V)) → Unique (l ++ r) → Unique l × Unique r × All (λ d. Apart d r) l
  Unique-append [] r u = (tt, u, tt)
  Unique-append (d ∷ l) r (a, u) =
      let (ul, ur, c) = Unique-append l r u in
      ((All-append_left _ l r a, ul), ur, (All-append_right _ l r a, c))

  pub Unique-join :
      (l r : List (Entry K V)) → Unique l → Unique r → All (λ d. Apart d r) l → Unique (l ++ r)
  Unique-join [] r ul ur c = ur
  Unique-join (d ∷ l) r (a, ul) ur (b, c) = (All-append _ l r a b, Unique-join l r ul ur c)

  -- What an entry in the middle says of the entries before it.
  pub Cross-left :
      (e : Entry K V) (l r : List (Entry K V)) → All (λ d. Apart d (e ∷ r)) l → Apart e l
  Cross-left e l r = All-imp (λ d h. Apart-sym d e h.0) l

  pub Unique-snoc :
      (xs : List (Entry K V)) (e : Entry K V) → Unique xs → Apart e xs → Unique (xs ++ e ∷ [])
  Unique-snoc xs e u a =
      Unique-join xs (e ∷ []) u (tt, tt) (All-imp (λ d h. (Apart-sym e d h, tt)) xs a)

  pub Unique-remove :
      (l : List (Entry K V)) (e : Entry K V) (r : List (Entry K V))
      → Unique (l ++ e ∷ r)
      → Unique (l ++ r)
  Unique-remove l e r u =
      let (ul, ur, c) = Unique-append l (e ∷ r) u in
      Unique-join l r ul ur.1 (All-imp (λ d h. h.1) l c)

  -- A new value changes neither index nor key.
  pub Unique-assign :
      (l : List (Entry K V)) (e : Entry K V) (r : List (Entry K V)) (v : V)
      → Unique (l ++ e ∷ r)
      → Unique (l ++ (e.0, e.1, v) ∷ r)
  Unique-assign l e r v u =
      let (ul, ur, c) = Unique-append l (e ∷ r) u in Unique-join l ((e.0, e.1, v) ∷ r) ul ur c

  pub first-append :
      (l : List (Entry K V)) (e : Entry K V) (r : List (Entry K V)) (n : Option ℕ)
      → first (l ++ e ∷ r) n ≡ first l (some e.0)
  first-append [] e r n = refl
  first-append (d ∷ l) e r n = refl

  pub last-append :
      (p : Option ℕ) (l : List (Entry K V)) (e : Entry K V) (r : List (Entry K V))
      → last p (l ++ e ∷ r) ≡ last (some e.0) r
  last-append p [] e r = refl
  last-append p (d ∷ l) e r = last-append (some d.0) l e r

  pub last-some : (i : ℕ) (l : List (Entry K V)) → (j : ℕ) × (last (some i) l ≡ some j)
  last-some i [] = (i, refl)
  last-some i (d ∷ l) = last-some d.0 l

  pub last-none-ne : (l : List (Entry K V)) (i : ℕ) → Fresh i l → last none l ≢ some i
  last-none-ne [] i f = λ h. cc
  last-none-ne (d ∷ l) i f = last-ne none d l i f

  pub first-none-ne : (r : List (Entry K V)) (i : ℕ) → Fresh i r → first r none ≢ some i
  first-none-ne [] i f = λ h. cc
  first-none-ne (d ∷ r) i f = λ h. f.0 (cc)

  -- The end of the left part is no entry of the right part, nor the start of the right part one of
  -- the left.
  pub last-All_ne :
      (l r : List (Entry K V)) → All (λ d. Apart d r) l → All (λ d. last none l ≢ some d.0) r
  last-All_ne l [] c = tt
  last-All_ne l (e ∷ r) c = (
    last-none-ne l e.0 (Apart-Fresh e l (Cross-left e l r c)),
    last-All_ne l r (All-imp (λ d h. h.1) l c),
  )

  pub first-All_ne :
      (l r : List (Entry K V)) → All (λ d. Apart d r) l → All (λ d. first r none ≢ some d.0) l
  first-All_ne l r = All-imp (λ d h. first-none-ne r d.0 (Apart-Fresh d r h)) l
