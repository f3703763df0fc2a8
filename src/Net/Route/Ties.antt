-- ===== src/Net/Route/Ties.antt =====
-- The routes that a router of src/net.rs has taken in, at one request.
use mux_runtime.Common.{
  ℕ, zero, suc, ◌≡◌, refl, sym, ap, ◌∙◌, subst, arith, ◌⊎◌, inl, inr, Bool, true, false, ◌||◌, not,
  if◌then◌else◌, Option, none, some, List, [], ◌∷◌, ◌++◌, length, get_elem?, ok, err, >>=-eq-ok,
}
use mux_runtime.Common.Text.{Text, has_byte, eq_ignore_ascii_case, to_ascii_uppercase}
use mux_runtime.Net.Route.{
  RouteError, query_in_pattern, method_not_token, no_handler, ambiguous_route, Routed, Segment,
  is_catch_all, is_nil, weight, compile_segment, compile_loop, compile_http_route,
  route_path_segments,
}
use mux_runtime.Net.Route.Match.{
  Route, Captures, http_route_match, eqb_specificity, ambiguous, any_ambiguous, is_http_token,
  add_route,
}
use mux_runtime.Net.Route.Choice.{Applies}
use mux_runtime.Net.Route.Shape.{
  specificity_of, eq_ignore-join, eqb_specificity-sym, match_loop-same_shape,
}

module _ {A : Type 0} where
  -- what lies behind a check
  passed :
      (b : Bool) (e : RouteError) (rest : Routed A) (v : A)
      → (if b then err e else rest) ≡ ok v
      → (b ≡ false) × (rest ≡ ok v)
  passed true e rest v h = cc
  passed false e rest v h = (refl, h)

  abbrev routed : A → Routed A
  routed a = ok a

  routed_inj : {a b : A} → routed a ≡ routed b → a ≡ b
  routed_inj h = cc

module _ (utf8 : Text → Bool) where
  compile_loop-specificity :
      (raws : List Text) (names : List Text) (seen : Bool) (segments : List Segment)
      (specificity : List ℕ)
      → compile_loop utf8 raws names seen ≡ ok (segments, specificity)
      → specificity ≡ specificity_of segments seen
  unfolding compile_loop
  compile_loop-specificity [] names seen segments specificity h = cc
  compile_loop-specificity (raw ∷ raws) names seen segments specificity h =
      let ((x, names'), first, h1) = >>=-eq-ok (compile_segment utf8 raw names (is_nil raws)) _ h in
      let ((xs, w), rest, h2) =
        >>=-eq-ok (compile_loop utf8 raws names' (seen || is_catch_all x)) _ h1 in
      parts x xs w h2 (compile_loop-specificity raws names' (seen || is_catch_all x) xs w rest)
    where
      parts :
          (x : Segment) (xs : List Segment) (w : List ℕ)
          → routed {A = List Segment × List ℕ} (x ∷ xs, weight x ∷ w)
            ≡ routed (segments, specificity)
          → w ≡ specificity_of xs (seen || is_catch_all x)
          → specificity ≡ specificity_of segments seen
      parts x xs w h e =
          let k = routed_inj h in
          subst (λ z. z.1 ≡ specificity_of z.0 seen) k (ap (λ z. weight x ∷ z) e)

  compile_http_route-specificity :
      (path : Text) (segments : List Segment) (specificity : List ℕ)
      → compile_http_route utf8 path ≡ ok (segments, specificity)
      → specificity ≡ specificity_of segments false
  unfolding compile_http_route
  compile_http_route-specificity path segments specificity h =
      let (_, h1) = passed (has_byte 63 path) query_in_pattern _ _ h in
      let (raws, _, h2) = >>=-eq-ok (route_path_segments path) _ h1 in
      compile_loop-specificity raws [] false segments specificity h2

  -- the routes of a router: each was added to those before
  pub data Registered : List Route → Type 0 where
    start : Registered []
    later :
        {routes end : List Route} (method path : Text) (handler : Option ℕ)
        → Registered routes
        → add_route utf8 method path handler routes ≡ ok end
        → Registered end

  -- what an addition that is accepted leaves
  abbrev Added : Text → List Route → List Route → Type 0
  Added method routes end =
      (new : Route) × (end ≡ routes ++ new ∷ [])
      × (new.method ≡ to_ascii_uppercase method)
      × (new.specificity ≡ specificity_of new.segments false)
      × (any_ambiguous method new.specificity new.segments routes ≡ false)

  add_route-Added :
      (method path : Text) (handler : Option ℕ) (routes end : List Route)
      → add_route utf8 method path handler routes ≡ ok end
      → Added method routes end
  unfolding add_route
  add_route-Added [] path handler routes end h = cc
  add_route-Added (m ∷ ms) path handler routes end h =
      let (_, h1) = passed (not (is_http_token (m ∷ ms))) method_not_token _ _ h in
      let ((segments, specificity), compiled, h2) = >>=-eq-ok (compile_http_route utf8 path) _ h1 in
      with_handler segments specificity handler
        (compile_http_route-specificity path segments specificity compiled) h2
    where
      with_handler :
          (segments : List Segment) (specificity : List ℕ) (handler : Option ℕ)
          → specificity ≡ specificity_of segments false
          → elim handler [
            | none ↦ err no_handler
            | some h ↦
                if any_ambiguous (m ∷ ms) specificity segments routes
                then err ambiguous_route
                else ok (
                    routes
                    ++ record {
                      method = to_ascii_uppercase (m ∷ ms);
                      segments = segments;
                      specificity = specificity;
                      handler = h;
                    }
                      ∷ [])
          ]
            ≡ routed end
          → Added (m ∷ ms) routes end
      with_handler segments specificity none e k = cc
      with_handler segments specificity (some h) e k =
          let (free, k1) =
            passed (any_ambiguous (m ∷ ms) specificity segments routes) ambiguous_route _ _ k in
          (
            record {
              method = to_ascii_uppercase (m ∷ ms);
              segments = segments;
              specificity = specificity;
              handler = h;
            },
            sym (routed_inj k1),
            refl,
            e,
            free,
          )

  any_ambiguous-false :
      (method : Text) (w : List ℕ) (segments : List Segment) (routes : List Route) (i : ℕ)
      (r : Route)
      → any_ambiguous method w segments routes ≡ false
      → get_elem? routes i ≡ some r
      → ambiguous method w segments r ≡ false
  unfolding any_ambiguous
  any_ambiguous-false method w segments [] i r h k = cc
  any_ambiguous-false method w segments (x ∷ routes) zero r h k =
      subst (λ z. ambiguous method w segments z ≡ false) (some_inj k) (ground arith)
    where
      some_inj : {a b : Route} → some a ≡ some b → a ≡ b
      some_inj h = cc
  any_ambiguous-false method w segments (x ∷ routes) (suc i) r h k =
      any_ambiguous-false method w segments routes i r (ground arith) k

  get_elem?-added :
      (routes : List Route) (new : Route) (i : ℕ) (r : Route)
      → get_elem? (routes ++ new ∷ []) i ≡ some r
      → (get_elem? routes i ≡ some r) ⊎ ((i ≡ length routes) × (r ≡ new))
  get_elem?-added [] new zero r h = inr (refl, cc)
  get_elem?-added [] new (suc i) r h = cc
  get_elem?-added (x ∷ routes) new zero r h = inl h
  get_elem?-added (x ∷ routes) new (suc i) r h = elim (get_elem?-added routes new i r h) [
    | inl k ↦ inl k
    | inr (e, k) ↦ inr (ap suc e, k)
  ]

  Registered-specificity :
      {routes : List Route} (i : ℕ) (r : Route)
      → Registered routes
      → get_elem? routes i ≡ some r
      → r.specificity ≡ specificity_of r.segments false
  Registered-specificity i r start h = cc
  Registered-specificity i r (later {routes} {end} method path handler g a) h =
      let (new, e, _, w, _) = add_route-Added method path handler routes end a in
      elim (get_elem?-added routes new i r (subst (λ z. get_elem? z i ≡ some r) e h)) [
        | inl k ↦ Registered-specificity i r g k
        | inr (_, k) ↦ subst (λ z. z.specificity ≡ specificity_of z.segments false) (sym k) w
      ]

  -- A new route and an old one cannot both apply with one specificity.
  new_apart :
      {routes : List Route} (m method : Text) (path : List Text) (i : ℕ) (r new : Route)
      (c d : Captures)
      → Registered routes
      → get_elem? routes i ≡ some r
      → new.method ≡ to_ascii_uppercase m
      → new.specificity ≡ specificity_of new.segments false
      → any_ambiguous m new.specificity new.segments routes ≡ false
      → Applies method path r c
      → Applies method path new d
      → eqb_specificity r.specificity new.specificity ≡ true
      → ⊥
  unfolding ambiguous http_route_match
  new_apart {routes} m method path i r new c d g h named weights free (x, a) (y, b) w =
      let apart = any_ambiguous-false m new.specificity new.segments routes i r free h in
      let methods =
        eq_ignore-join r.method m method x
          (subst (λ z. eq_ignore_ascii_case z method ≡ true) named y) in
      let shapes = match_loop-same_shape r.segments new.segments path [] c [] d false a b (
        subst (λ z. eqb_specificity z (specificity_of new.segments false) ≡ true)
          (Registered-specificity i r g h)
          (subst (λ z. eqb_specificity r.specificity z ≡ true) weights w)) in
      ground arith

  -- Two routes of one router that both apply to a request and are equally specific are the same route, so
  -- that the most specific route is the only one of its specificity, and the order of registration does
  -- not decide.
  pub no_tie :
      {routes : List Route} (method : Text) (path : List Text) (i j : ℕ) (r q : Route)
      (c d : Captures)
      → Registered routes
      → get_elem? routes i ≡ some r
      → get_elem? routes j ≡ some q
      → Applies method path r c
      → Applies method path q d
      → eqb_specificity r.specificity q.specificity ≡ true
      → i ≡ j
  no_tie method path i j r q c d start h k a b w = cc
  no_tie method path i j r q c d (later {routes} {end} m p handler g added) h k a b w =
      let (new, e, named, weights, free) = add_route-Added m p handler routes end added in
      elim (get_elem?-added routes new i r (subst (λ z. get_elem? z i ≡ some r) e h)) [
        | inl old ↦
            elim (get_elem?-added routes new j q (subst (λ z. get_elem? z j ≡ some q) e k)) [
              | inl old' ↦ no_tie method path i j r q c d g old old' a b w
              | inr (at, same) ↦ absurd (
                  new_apart m method path i r new c d g old named weights free a
                    (subst (λ z. Applies method path z d) same b)
                    (subst (λ z. eqb_specificity r.specificity z.specificity ≡ true) same w))
            ]
        | inr (at, same) ↦
            elim (get_elem?-added routes new j q (subst (λ z. get_elem? z j ≡ some q) e k)) [
              | inl old ↦ absurd (
                  new_apart m method path j q new d c g old named weights free b
                    (subst (λ z. Applies method path z c) same a)
                    (eqb_specificity-sym q.specificity new.specificity
                      ∙ subst (λ z. eqb_specificity z.specificity q.specificity ≡ true) same w))
              | inr (at', same') ↦ at ∙ sym at'
            ]
      ]
