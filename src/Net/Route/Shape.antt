-- ===== src/Net/Route/Shape.antt =====
-- The shape of a route of src/net.rs: what its method, its specificity and a path that it matches tell
-- of it.
use mux_runtime.Common.{
  ℕ, ◌≡◌, refl, arith, Bool, true, false, ◌&&◌, ◌||◌, ◌==◌, if◌then◌else◌, some, List, [], ◌∷◌,
}
use mux_runtime.Common.Text.{Text, eqb_text, eq_ignore_ascii_case, to_ascii_uppercase, lower, upper}
use mux_runtime.Net.Route.{Segment, literal, parameter, catch_all, is_catch_all, weight}
use mux_runtime.Net.Route.Match.{Captures, match_loop, eqb_specificity, same_shape}

-- the specificity of a pattern, with whether a catch-all was seen before
abbrev pub specificity_of : List Segment → Bool → List ℕ
specificity_of [] seen = if seen then [] else 3 ∷ []
specificity_of (s ∷ ss) seen = weight s ∷ specificity_of ss (seen || is_catch_all s)

-- bytes
lower-upper : (b : ℕ) → lower (upper b) ≡ lower b
lower-upper b = ground arith

eqb_text-join : (s t u : Text) → eqb_text u s ≡ true → eqb_text u t ≡ true → eqb_text s t ≡ true
eqb_text-join [] [] u h k = refl
eqb_text-join [] (b ∷ t) [] h k = cc
eqb_text-join [] (b ∷ t) (c ∷ u) h k = cc
eqb_text-join (a ∷ s) [] [] h k = cc
eqb_text-join (a ∷ s) [] (c ∷ u) h k = cc
eqb_text-join (a ∷ s) (b ∷ t) [] h k = cc
eqb_text-join (a ∷ s) (b ∷ t) (c ∷ u) h k = ground (arith, eqb_text-join s t u)

-- a method that was stored in upper case, and a request's
pub eq_ignore-join :
    (s t u : Text)
    → eq_ignore_ascii_case s u ≡ true
    → eq_ignore_ascii_case (to_ascii_uppercase t) u ≡ true
    → eq_ignore_ascii_case s t ≡ true
eq_ignore-join [] [] u h k = refl
eq_ignore-join [] (b ∷ t) [] h k = cc
eq_ignore-join [] (b ∷ t) (c ∷ u) h k = cc
eq_ignore-join (a ∷ s) [] [] h k = cc
eq_ignore-join (a ∷ s) [] (c ∷ u) h k = cc
eq_ignore-join (a ∷ s) (b ∷ t) [] h k = cc
eq_ignore-join (a ∷ s) (b ∷ t) (c ∷ u) h k =
    both (lower a) (lower b) (lower c) (lower (upper b)) (lower-upper b) h k (eq_ignore-join s t u)
  where
    both :
        (x y z w : ℕ) {p q r : Bool}
        → w ≡ y
        → ((x == z) && p) ≡ true
        → ((w == z) && q) ≡ true
        → (p ≡ true → q ≡ true → r ≡ true)
        → ((x == y) && r) ≡ true
    both x y z w e h k f = ground (arith, f)

pub eqb_specificity-sym : (s t : List ℕ) → eqb_specificity s t ≡ eqb_specificity t s
unfolding eqb_specificity
eqb_specificity-sym [] [] = refl
eqb_specificity-sym [] (b ∷ t) = refl
eqb_specificity-sym (a ∷ s) [] = refl
eqb_specificity-sym (a ∷ s) (b ∷ t) = ground (arith, eqb_specificity-sym s t)

-- Two patterns of one specificity that match one path have one shape.
pub match_loop-same_shape :
    (s t : List Segment) (path : List Text) (c d e f : Captures) (b : Bool)
    → match_loop s path c ≡ some d
    → match_loop t path e ≡ some f
    → eqb_specificity (specificity_of s b) (specificity_of t b) ≡ true
    → same_shape s t ≡ true
unfolding match_loop eqb_specificity same_shape
match_loop-same_shape [] t path c d e f b h k q = refl
match_loop-same_shape (literal x ∷ s) [] path c d e f b h k q = refl
match_loop-same_shape (parameter x ∷ s) [] path c d e f b h k q = refl
match_loop-same_shape (catch_all x ∷ s) [] path c d e f b h k q = refl
match_loop-same_shape (literal x ∷ s) (literal y ∷ t) [] c d e f b h k q = cc
match_loop-same_shape (literal x ∷ s) (literal y ∷ t) (p ∷ path) c d e f b h k q =
    ground (arith, eqb_text-join x y p, match_loop-same_shape s t path c d e f b)
match_loop-same_shape (literal x ∷ s) (parameter y ∷ t) path c d e f b h k q = ground arith
match_loop-same_shape (literal x ∷ s) (catch_all y ∷ t) path c d e f b h k q = ground arith
match_loop-same_shape (parameter x ∷ s) (literal y ∷ t) path c d e f b h k q = ground arith
match_loop-same_shape (parameter x ∷ s) (parameter y ∷ t) [] c d e f b h k q = cc
match_loop-same_shape (parameter x ∷ s) (parameter y ∷ t) (p ∷ path) c d e f b h k q =
    match_loop-same_shape s t path _ d _ f (b || false) h k q
match_loop-same_shape (parameter x ∷ s) (catch_all y ∷ t) path c d e f b h k q = ground arith
match_loop-same_shape (catch_all x ∷ s) (literal y ∷ t) path c d e f b h k q = ground arith
match_loop-same_shape (catch_all x ∷ s) (parameter y ∷ t) path c d e f b h k q = ground arith
match_loop-same_shape (catch_all x ∷ s) (catch_all y ∷ t) path c d e f b h k q =
    match_loop-same_shape s t [] _ d _ f (b || true) h k q
