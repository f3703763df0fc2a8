-- ===== src/Net/Route/Choice.antt =====
-- Which route src/net.rs chooses for a request.
use mux_runtime.Common.{
  ℕ, zero, suc, ◌+◌, ◌≡◌, refl, sym, ◌∙◌, subst, arith, ◌⊎◌, inl, inr, Bool, true, false,
  Bool-cases, not, if◌then◌else◌, Option, none, some, List, [], ◌∷◌, get_elem?,
}
use mux_runtime.Common.Text.{Text, eq_ignore_ascii_case}
use mux_runtime.Net.Route.Match.{
  Route, Captures, Chosen, http_route_match, more_specific, better, consider, choose_from,
}

-- A route is for a request if its method is the request's and its pattern matches the path.
abbrev pub Applies : Text → List Text → Route → Captures → Type 0
Applies method path route captures =
    (eq_ignore_ascii_case route.method method ≡ true)
    × (http_route_match route path ≡ some captures)

-- It was considered, and is not more specific than the one chosen.
abbrev pub Yields : Text → List Text → Route → Chosen → Type 0
Yields method path route none = (c : Captures) → ¬ Applies method path route c
Yields method path route (some (i, best, k)) =
    (c : Captures)
    → Applies method path route c
    → more_specific route.specificity best.specificity ≡ false

more_specific_trans :
    (r s t : List ℕ)
    → more_specific r s ≡ true
    → more_specific s t ≡ true
    → more_specific r t ≡ true
unfolding more_specific
more_specific_trans [] s t h k = cc
more_specific_trans (a ∷ r) [] t h k = cc
more_specific_trans (a ∷ r) (b ∷ s) [] h k = refl
more_specific_trans (a ∷ r) (b ∷ s) (c ∷ t) h k = ground (arith, more_specific_trans r s t)

more_specific_irrefl : (s : List ℕ) → more_specific s s ≡ false
unfolding more_specific
more_specific_irrefl [] = refl
more_specific_irrefl (a ∷ s) = ground (arith, more_specific_irrefl s)

module _ (method : Text) (path : List Text) where
  -- a round keeps the choice, since the route does not apply or is not better, or takes the route
  abbrev Round : ℕ → Route → Chosen → Chosen → Type 0
  Round index route chosen after =
      ((after ≡ chosen) × ((c : Captures) → ¬ Applies method path route c))
      ⊎ ((after ≡ chosen) × (better route chosen ≡ false))
      ⊎ ((c : Captures) × (after ≡ some (index, route, c))
          × Applies method path route c
          × (better route chosen ≡ true))

  consider-Round :
      (index : ℕ) (route : Route) (chosen : Chosen)
      → Round index route chosen (consider method path index route chosen)
  unfolding consider
  consider-Round index route chosen = elim (Bool-cases (eq_ignore_ascii_case route.method method)) [
    | inr f ↦ rw f (inl (refl, λ c (a, b). cc))
    | inl t ↦
        subst
          (λ b. Round index route chosen (
            if not b then chosen else elim (http_route_match route path) as (λ _. Chosen) [
              | none ↦ chosen
              | some captures ↦
                  if better route chosen then some (index, route, captures) else chosen
            ]))
          (sym t) (at_match (http_route_match route path) refl t)
  ]
    where
      at_match :
          (m : Option Captures)
          → http_route_match route path ≡ m
          → eq_ignore_ascii_case route.method method ≡ true
          → Round index route chosen (elim m [
            | none ↦ chosen
            | some captures ↦ if better route chosen then some (index, route, captures) else chosen
          ])
      at_match none e t = inl (refl, λ c (a, b). cc)
      at_match (some k) e t = elim (Bool-cases (better route chosen)) [
        | inl b ↦ rw b (inr (inr (k, refl, (t, e), refl)))
        | inr b ↦ rw b (inr (inl (refl, refl)))
      ]

  Round-Yields_self :
      (index : ℕ) (route : Route) (chosen after : Chosen)
      → Round index route chosen after
      → Yields method path route after
  unfolding better
  Round-Yields_self index route none after (inl (e, n)) = subst (Yields method path route) (sym e) n
  Round-Yields_self index route (some (i, best, k)) after (inl (e, n)) =
      subst (Yields method path route) (sym e) (λ c a. absurd (n c a))
  Round-Yields_self index route none after (inr (inl (e, b))) = cc
  Round-Yields_self index route (some (i, best, k)) after (inr (inl (e, b))) =
      subst (Yields method path route) (sym e) (λ c a. b)
  Round-Yields_self index route chosen after (inr (inr (k, e, a, b))) =
      subst (Yields method path route) (sym e) (λ c x. more_specific_irrefl route.specificity)

  Round-Yields :
      (index : ℕ) (route other : Route) (chosen after : Chosen)
      → Round index route chosen after
      → Yields method path other chosen
      → Yields method path other after
  unfolding better
  Round-Yields index route other chosen after (inl (e, n)) y =
      subst (Yields method path other) (sym e) y
  Round-Yields index route other chosen after (inr (inl (e, b))) y =
      subst (Yields method path other) (sym e) y
  Round-Yields index route other none after (inr (inr (k, e, a, b))) y =
      subst (Yields method path other) (sym e) (λ c x. absurd (y c x))
  Round-Yields index route other (some (i, best, l)) after (inr (inr (k, e, a, b))) y =
      subst (Yields method path other) (sym e) (λ c x.
        elim (Bool-cases (more_specific other.specificity route.specificity)) [
          | inr f ↦ f
          | inl t ↦ absurd (
              clash (y c x)
                (more_specific_trans other.specificity route.specificity best.specificity t b))
        ])
    where
      clash : {b : Bool} → b ≡ false → b ≡ true → ⊥
      clash h k = cc

  -- the choice is the route at its place in the list, from an index on, and applies
  abbrev pub Stands : ℕ → List Route → Chosen → Type 0
  Stands index routes none = Unit
  Stands index routes (some (i, best, k)) =
      Applies method path best k × ((j : ℕ) × (i ≡ index + j) × (get_elem? routes j ≡ some best))

  choose_from-keeps :
      (index : ℕ) (routes : List Route) (other : Route) (chosen : Chosen)
      → Yields method path other chosen
      → Yields method path other (choose_from method path index routes chosen)
  unfolding choose_from
  choose_from-keeps index [] other chosen y = y
  choose_from-keeps index (route ∷ routes) other chosen y =
      choose_from-keeps (suc index) routes other _
        (Round-Yields index route other chosen _ (consider-Round index route chosen) y)

  choose_from-Yields :
      (index : ℕ) (routes : List Route) (chosen : Chosen) (j : ℕ) (route : Route)
      → get_elem? routes j ≡ some route
      → Yields method path route (choose_from method path index routes chosen)
  unfolding choose_from
  choose_from-Yields index [] chosen j route h = cc
  choose_from-Yields index (r ∷ routes) chosen zero route h =
      subst (λ z. Yields method path z (choose_from method path index (r ∷ routes) chosen))
        (some_inj h)
        (choose_from-keeps (suc index) routes r _
          (Round-Yields_self index r chosen _ (consider-Round index r chosen)))
    where
      some_inj : {a b : Route} → some a ≡ some b → a ≡ b
      some_inj h = cc
  choose_from-Yields index (r ∷ routes) chosen (suc j) route h =
      choose_from-Yields (suc index) routes _ j route h

  choose_from-from :
      (index : ℕ) (routes : List Route) (chosen : Chosen)
      → (choose_from method path index routes chosen ≡ chosen)
        ⊎ Stands index routes (choose_from method path index routes chosen)
  unfolding choose_from
  choose_from-from index [] chosen = inl refl
  choose_from-from index (r ∷ routes) chosen =
      first (consider-Round index r chosen) (choose_from-from (suc index) routes _)
    where
      deeper : (end : Chosen) → Stands (suc index) routes end → Stands index (r ∷ routes) end
      deeper none h = tt
      deeper (some (i, best, k)) (a, (j, e, g)) = (a, (suc j, omega (arith, e), g))

      first :
          {after end : Chosen}
          → Round index r chosen after
          → (end ≡ after) ⊎ Stands (suc index) routes end
          → (end ≡ chosen) ⊎ Stands index (r ∷ routes) end
      first d (inr s) = inr (deeper _ s)
      first (inl (e, n)) (inl k) = inl (k ∙ e)
      first (inr (inl (e, b))) (inl k) = inl (k ∙ e)
      first (inr (inr (c, e, a, b))) (inl k) =
          inr (subst (Stands index (r ∷ routes)) (sym (k ∙ e)) (a, (0, omega arith, refl)))

  -- The route chosen is one of the routes at the place that is named, its method is the request's and
  -- its pattern matches the path with the captures that are given; no route that does so is more specific
  -- than it, and where none is chosen none does so.
  pub choose_from-best :
      (routes : List Route)
      → Stands 0 routes (choose_from method path 0 routes none)
        × ((j : ℕ) (route : Route)
            → get_elem? routes j ≡ some route
            → Yields method path route (choose_from method path 0 routes none))
  choose_from-best routes = (
    place (choose_from-from 0 routes none),
    λ j route h. choose_from-Yields 0 routes none j route h,
  )
    where
      place : {end : Chosen} → (end ≡ none) ⊎ Stands 0 routes end → Stands 0 routes end
      place (inl e) = subst (Stands 0 routes) (sym e) tt
      place (inr s) = s
