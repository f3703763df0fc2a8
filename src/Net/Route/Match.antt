-- ===== src/Net/Route/Match.antt =====
-- Matching, registering and choosing routes in src/net.rs. The captures are a list of names and values,
-- the newest first, for the hash map; a route keeps its handler as a number.
use mux_runtime.Common.{
  ℕ, suc, Bool, true, false, ◌&&◌, ◌||◌, not, ltb, ◌==◌, if◌then◌else◌, Option, none, some, List,
  [], ◌∷◌, ◌++◌, ok, err, ◌>>=◌,
}
use mux_runtime.Common.Text.{
  Text, eqb_text, has_byte, is_alphanumeric, to_ascii_uppercase, eq_ignore_ascii_case,
}
use mux_runtime.Net.Route.{
  method_empty, method_not_token, no_handler, ambiguous_route, Routed, Segment, literal, parameter,
  catch_all, compile_http_route, request_path_segments,
}

-- `HttpRouteEntry`
pub record Route : Type 0 where
  pub method : Text
  pub segments : List Segment
  pub specificity : List ℕ
  pub handler : ℕ

abbrev pub Captures : Type 0
Captures = List (Text × Text)

-- `[..].join("/")`
unfoldable pub join : List Text → Text
join [] = []
join (t ∷ []) = t
join (t ∷ u ∷ ts) = t ++ 47 ∷ join (u ∷ ts)

-- The loop of `http_route_match`, over the segments of the path that are left
unfoldable pub match_loop : List Segment → List Text → Captures → Option Captures
unfolding join
match_loop [] [] captures = some captures
match_loop [] (t ∷ ts) captures = none
match_loop (literal expected ∷ segments) [] captures = none
match_loop (literal expected ∷ segments) (t ∷ ts) captures =
    let rest = match_loop segments ts captures in if eqb_text t expected then rest else none
match_loop (parameter name ∷ segments) [] captures = none
match_loop (parameter name ∷ segments) (t ∷ ts) captures =
    match_loop segments ts ((name, t) ∷ captures)
match_loop (catch_all name ∷ segments) ts captures =
    match_loop segments [] ((name, join ts) ∷ captures)

unfoldable pub http_route_match : Route → List Text → Option Captures
unfolding match_loop
http_route_match route path = match_loop route.segments path []

-- `>` and `==` of vectors, the first place with a difference deciding
unfoldable pub more_specific : List ℕ → List ℕ → Bool
more_specific [] t = false
more_specific (a ∷ s) [] = true
more_specific (a ∷ s) (b ∷ t) = ltb b a || (a == b) && more_specific s t

unfoldable pub eqb_specificity : List ℕ → List ℕ → Bool
eqb_specificity [] [] = true
eqb_specificity [] (b ∷ t) = false
eqb_specificity (a ∷ s) [] = false
eqb_specificity (a ∷ s) (b ∷ t) = (a == b) && eqb_specificity s t

-- the route chosen so far, with its place and its captures
abbrev pub Chosen : Type 0
Chosen = Option (ℕ × Route × Captures)

-- `is_better`
unfoldable pub better : Route → Chosen → Bool
unfolding more_specific
better route none = true
better route (some (i, best, c)) = more_specific route.specificity best.specificity

-- one round of the loop of `http_router_route_match`
unfoldable pub consider : Text → List Text → ℕ → Route → Chosen → Chosen
unfolding http_route_match better
consider method path index route chosen =
    if not (eq_ignore_ascii_case route.method method)
    then chosen
    else elim (http_route_match route path) [
      | none ↦ chosen
      | some captures ↦ if better route chosen then some (index, route, captures) else chosen
    ]

unfoldable pub choose_from : Text → List Text → ℕ → List Route → Chosen → Chosen
unfolding consider
choose_from method path index [] chosen = chosen
choose_from method path index (route ∷ routes) chosen =
    choose_from method path (suc index) routes (consider method path index route chosen)

-- the test of a new route against one that is there, segment by segment as far as both go
unfoldable pub same_shape : List Segment → List Segment → Bool
same_shape (literal s ∷ a) (literal t ∷ b) = eqb_text s t && same_shape a b
same_shape (parameter s ∷ a) (parameter t ∷ b) = same_shape a b
same_shape (catch_all s ∷ a) (catch_all t ∷ b) = same_shape a b
same_shape (s ∷ a) (t ∷ b) = false
same_shape a b = true

unfoldable pub ambiguous : Text → List ℕ → List Segment → Route → Bool
unfolding eqb_specificity same_shape
ambiguous method specificity segments route =
    eq_ignore_ascii_case route.method method
    && eqb_specificity route.specificity specificity
    && same_shape route.segments segments

unfoldable pub any_ambiguous : Text → List ℕ → List Segment → List Route → Bool
unfolding ambiguous
any_ambiguous method specificity segments [] = false
any_ambiguous method specificity segments (route ∷ routes) =
    ambiguous method specificity segments route || any_ambiguous method specificity segments routes

abbrev pub token_bytes : Text → Bool
token_bytes [] = true
token_bytes (b ∷ t) =
    (is_alphanumeric b
      || has_byte b
          (33 ∷ 35 ∷ 36 ∷ 37 ∷ 38 ∷ 39 ∷ 42 ∷ 43 ∷ 45 ∷ 46 ∷ 94 ∷ 95 ∷ 96 ∷ 124 ∷ 126 ∷ []))
    && token_bytes t

unfoldable pub is_http_token : Text → Bool
is_http_token [] = false
is_http_token (b ∷ t) = token_bytes (b ∷ t)

module _ (utf8 : Text → Bool) where
  -- `mux_net_http_router_route`, where `none` is a handler that cannot be called
  unfoldable pub add_route : Text → Text → Option ℕ → List Route → Routed (List Route)
  unfolding is_http_token compile_http_route any_ambiguous
  add_route [] path handler routes = err method_empty
  add_route (m ∷ ms) path handler routes =
      if not (is_http_token (m ∷ ms)) then err method_not_token else (do
        (segments, specificity) ← compile_http_route utf8 path
        elim handler [
          | none ↦ err no_handler
          | some h ↦
              if any_ambiguous (m ∷ ms) specificity segments routes
              then err ambiguous_route
              else ok (
                  routes
                  ++ record {
                    method = to_ascii_uppercase (m ∷ ms);
                    segments = segments;
                    specificity = specificity;
                    handler = h;
                  }
                    ∷ [])
        ])

  -- `http_router_route_match` with the routes of the router
  unfoldable pub route_match : List Route → Text → Text → Routed Chosen
  unfolding request_path_segments choose_from
  route_match routes method url = do
    path ← request_path_segments utf8 url
    ok (choose_from method path 0 routes none)
