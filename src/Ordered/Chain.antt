-- ===== src/Ordered/Chain.antt =====
-- The doubly linked list that runs through the slab of src/ordered.rs, as a list of entries. An
-- entry is a slab index with the key and the value that its slot holds.
use mux_runtime.Common.{
  ℕ, ◌≡◌, ◌≢◌, refl, sym, ◌∙◌, Option, none, some, List, [], ◌∷◌, ◌++◌, get_elem?, set, All,
  get_elem?-set_self, get_elem?-set_ne, lt_of_get_elem?,
}
use mux_runtime.Ordered.Map.{Slot, occupied, free, link_next, link_prev, with_next, with_prev}

abbrev pub Entry {ℓ κ} : Type ℓ → Type κ → Type (ℓ ⊔ κ)
Entry K V = ℕ × K × V

module _ {ℓ κ} {K : Type ℓ} {V : Type κ} where
  -- the index of the first entry, or of what follows the list
  abbrev pub first : List (Entry K V) → Option ℕ → Option ℕ
  first [] n = n
  first (e ∷ r) n = some e.0

  -- the index of the last entry, or of what precedes the list
  abbrev pub last : Option ℕ → List (Entry K V) → Option ℕ
  last p [] = p
  last p (e ∷ r) = last (some e.0) r

  -- The slots of the entries are linked both ways, `p` before them and `n` after them.
  abbrev pub Seg : List (Slot K V) → Option ℕ → List (Entry K V) → Option ℕ → Type (ℓ ⊔ κ)
  Seg s p [] n = Unit
  Seg s p (e ∷ r) n =
      (get_elem? s e.0 ≡ some (occupied e.1 e.2 p (first r n))) × Seg s (some e.0) r n

  -- The slab holds the entry, linked somehow.
  abbrev pub InSlab : List (Slot K V) → Entry K V → Type (ℓ ⊔ κ)
  InSlab s e = (p : Option ℕ) × (n : Option ℕ) × (get_elem? s e.0 ≡ some (occupied e.1 e.2 p n))

  -- The entries differ from `e` in index and key.
  abbrev pub Apart : Entry K V → List (Entry K V) → Type ℓ
  Apart e = All (λ d. (d.0 ≢ e.0) × (d.1 ≢ e.1))

  abbrev pub Unique : List (Entry K V) → Type ℓ
  Unique [] = Unit
  Unique (e ∷ r) = Apart e r × Unique r

  -- None of the entries has the index `i`.
  abbrev pub Fresh : ℕ → List (Entry K V) → Type 0
  Fresh i = All (λ d. d.0 ≢ i)

  pub Seg-append :
      (s : List (Slot K V)) (p : Option ℕ) (xs ys : List (Entry K V)) (n : Option ℕ)
      → Seg s p xs (first ys n)
      → Seg s (last p xs) ys n
      → Seg s p (xs ++ ys) n
  Seg-append s p [] ys n a b = b
  Seg-append s p (e ∷ []) ys n a b = (a.0, b)
  Seg-append s p (e ∷ d ∷ r) ys n a b = (a.0, Seg-append s (some e.0) (d ∷ r) ys n a.1 b)

  pub Seg-split :
      (s : List (Slot K V)) (p : Option ℕ) (xs ys : List (Entry K V)) (n : Option ℕ)
      → Seg s p (xs ++ ys) n
      → Seg s p xs (first ys n) × Seg s (last p xs) ys n
  Seg-split s p [] ys n a = (tt, a)
  Seg-split s p (e ∷ []) ys n a = ((a.0, tt), a.1)
  Seg-split s p (e ∷ d ∷ r) ys n a =
      let (b, c) = Seg-split s (some e.0) (d ∷ r) ys n a.1 in ((a.0, b), c)

  pub Seg-InSlab :
      (s : List (Slot K V)) (p : Option ℕ) (xs : List (Entry K V)) (n : Option ℕ)
      → Seg s p xs n
      → All (InSlab s) xs
  Seg-InSlab s p [] n a = tt
  Seg-InSlab s p (e ∷ r) n a = ((p, first r n, a.0), Seg-InSlab s (some e.0) r n a.1)

  -- A slab that agrees with another on the entries has the same chain.
  pub Seg-frame :
      (s t : List (Slot K V)) (p : Option ℕ) (xs : List (Entry K V)) (n : Option ℕ)
      → All (λ e. get_elem? t e.0 ≡ get_elem? s e.0) xs
      → Seg s p xs n
      → Seg t p xs n
  Seg-frame s t p [] n f a = tt
  Seg-frame s t p (e ∷ r) n f a = (f.0 ∙ a.0, Seg-frame s t (some e.0) r n f.1 a.1)

  pub All-set :
      (s : List (Slot K V)) (i : ℕ) (x : Slot K V) (xs : List (Entry K V))
      → Fresh i xs
      → All (λ e. get_elem? (set s i x) e.0 ≡ get_elem? s e.0) xs
  All-set s i x [] f = tt
  All-set s i x (e ∷ r) f = (get_elem?-set_ne s i e.0 x (λ h. f.0 (sym h)), All-set s i x r f.1)

  pub Apart-Fresh : (e : Entry K V) (xs : List (Entry K V)) → Apart e xs → Fresh e.0 xs
  Apart-Fresh e [] h = tt
  Apart-Fresh e (d ∷ r) h = (h.0.0, Apart-Fresh e r h.1)

  -- A write through a link leaves every other slot.
  pub link_next_frame :
      (q n : Option ℕ) (s : List (Slot K V)) (i : ℕ)
      → q ≢ some i
      → get_elem? (link_next q n s) i ≡ get_elem? s i
  unfolding link_next
  link_next_frame none n s i h = refl
  link_next_frame (some j) n s i h = go (get_elem? s j)
    where
      go : (o : Option (Slot K V)) → get_elem? (with_next o s j n) i ≡ get_elem? s i
      go none = refl
      go (some (free _)) = refl
      go (some (occupied k v p m)) = get_elem?-set_ne s j i _ (λ e. h (cc))

  pub link_prev_frame :
      (q p : Option ℕ) (s : List (Slot K V)) (i : ℕ)
      → q ≢ some i
      → get_elem? (link_prev q p s) i ≡ get_elem? s i
  unfolding link_prev
  link_prev_frame none p s i h = refl
  link_prev_frame (some j) p s i h = go (get_elem? s j)
    where
      go : (o : Option (Slot K V)) → get_elem? (with_prev o s j p) i ≡ get_elem? s i
      go none = refl
      go (some (free _)) = refl
      go (some (occupied k v m n)) = get_elem?-set_ne s j i _ (λ e. h (cc))

  pub link_next_self :
      (i : ℕ) (n : Option ℕ) (s : List (Slot K V)) {k : K} {v : V} {p m : Option ℕ}
      → get_elem? s i ≡ some (occupied k v p m)
      → get_elem? (link_next (some i) n s) i ≡ some (occupied k v p n)
  unfolding link_next
  link_next_self i n s h = rw (h, with_next) (get_elem?-set_self s i _ (lt_of_get_elem? s i h))

  pub link_prev_self :
      (i : ℕ) (p : Option ℕ) (s : List (Slot K V)) {k : K} {v : V} {q n : Option ℕ}
      → get_elem? s i ≡ some (occupied k v q n)
      → get_elem? (link_prev (some i) p s) i ≡ some (occupied k v p n)
  unfolding link_prev
  link_prev_self i p s h = rw (h, with_prev) (get_elem?-set_self s i _ (lt_of_get_elem? s i h))

  pub last-ne :
      (p : Option ℕ) (d : Entry K V) (r : List (Entry K V)) (i : ℕ)
      → Fresh i (d ∷ r)
      → last p (d ∷ r) ≢ some i
  last-ne p d [] i f = λ h. f.0 (cc)
  last-ne p d (c ∷ r) i f = last-ne (some d.0) c r i f.1

  pub All-link_next :
      (q n : Option ℕ) (s : List (Slot K V)) (xs : List (Entry K V))
      → All (λ e. q ≢ some e.0) xs
      → All (λ e. get_elem? (link_next q n s) e.0 ≡ get_elem? s e.0) xs
  All-link_next q n s [] f = tt
  All-link_next q n s (e ∷ r) f = (link_next_frame q n s e.0 f.0, All-link_next q n s r f.1)

  pub All-link_prev :
      (q p : Option ℕ) (s : List (Slot K V)) (xs : List (Entry K V))
      → All (λ e. q ≢ some e.0) xs
      → All (λ e. get_elem? (link_prev q p s) e.0 ≡ get_elem? s e.0) xs
  All-link_prev q p s [] f = tt
  All-link_prev q p s (e ∷ r) f = (link_prev_frame q p s e.0 f.0, All-link_prev q p s r f.1)

  -- A new link behind the last entry.
  pub Seg-link_next :
      (s : List (Slot K V)) (p : Option ℕ) (xs : List (Entry K V)) (n m : Option ℕ)
      → Unique xs
      → Seg s p xs n
      → Seg (link_next (last p xs) m s) p xs m
  Seg-link_next s p [] n m u a = tt
  Seg-link_next s p (e ∷ []) n m u a = (link_next_self e.0 m s a.0, tt)
  Seg-link_next s p (e ∷ d ∷ r) n m u a = (
    link_next_frame (last (some e.0) (d ∷ r)) m s e.0
          (last-ne (some e.0) d r e.0 (Apart-Fresh e (d ∷ r) u.0))
        ∙ a.0,
    Seg-link_next s (some e.0) (d ∷ r) n m u.1 a.1,
  )

  -- A new link before the first entry.
  pub Seg-link_prev :
      (s : List (Slot K V)) (p q : Option ℕ) (xs : List (Entry K V)) (n : Option ℕ)
      → Unique xs
      → Seg s p xs n
      → Seg (link_prev (first xs none) q s) q xs n
  Seg-link_prev s p q [] n u a = tt
  Seg-link_prev s p q (e ∷ r) n u a = (
    link_prev_self e.0 q s a.0,
    Seg-frame s _ (some e.0) r n
        (All-link_prev (some e.0) q s r (some_ne e.0 r (Apart-Fresh e r u.0))) a.1,
  )
    where
      some_ne : (i : ℕ) (ys : List (Entry K V)) → Fresh i ys → All (λ d. some i ≢ some d.0) ys
      some_ne i [] f = tt
      some_ne i (d ∷ ys) f = ((λ h. f.0 (cc)), some_ne i ys f.1)
