-- ===== src/Net/Route.antt =====
-- The routes of an HTTP router in src/net.rs: patterns, the segments of a request's path, the match and
-- the choice of a route. A string is the list of its bytes, which the operations on ASCII characters
-- read as they read its characters; UTF-8 validity is a parameter.
pub mod Match
pub mod Choice
pub mod Shape
pub mod Ties
use mux_runtime.Common.{
  ℕ, zero, suc, ◌+◌, ◌*◌, ◌-◌, Bool, true, false, ◌&&◌, ◌||◌, not, ltb, leb, ◌==◌, if◌then◌else◌,
  Option, none, some, List, [], ◌∷◌, ◌++◌, length, Result, ok, err, ◌>>=◌,
}
use mux_runtime.Common.Text.{
  Text, eqb_text, has_byte, is_upper, is_alphabetic, is_alphanumeric, lower, upper,
  to_ascii_uppercase, eq_ignore_ascii_case, split_at, mem_text,
}

pub data RouteError : Type 0 where
  no_leading_slash : RouteError
  malformed_percent : RouteError
  invalid_utf8 : RouteError
  query_in_pattern : RouteError
  invalid_braces : RouteError
  invalid_name : RouteError
  duplicate_name : RouteError
  catch_all_not_last : RouteError
  unmatched_brace : RouteError
  method_empty : RouteError
  method_not_token : RouteError
  no_handler : RouteError
  ambiguous_route : RouteError

abbrev pub Routed : Type 0 → Type 0
Routed A = Result RouteError A

-- `HttpRouteSegment`
pub data Segment : Type 0 where
  literal : Text → Segment
  parameter : Text → Segment
  catch_all : Text → Segment

abbrev pub name_rest : Text → Bool
name_rest [] = true
name_rest (b ∷ t) = (b == 95 || is_alphanumeric b) && name_rest t

unfoldable pub valid_route_capture_name : Text → Bool
valid_route_capture_name [] = false
valid_route_capture_name (b ∷ t) = (b == 95 || is_alphabetic b) && name_rest t

unfoldable pub route_path_segments : Text → Routed (List Text)
unfolding split_at
route_path_segments [] = err no_leading_slash
route_path_segments (b ∷ []) = if b == 47 then ok [] else err no_leading_slash
route_path_segments (b ∷ c ∷ t) =
    let (part, parts) = split_at 47 (c ∷ t) in
    if b == 47 then ok (part ∷ parts) else err no_leading_slash

-- `char::to_digit(16)`
unfoldable pub hex_digit : ℕ → Option ℕ
hex_digit b =
    if leb 48 b && leb b 57
    then some (b - 48)
    else if leb 65 b && leb b 70
    then some (b - 55)
    else if leb 97 b && leb b 102
    then some (b - 87)
    else none

-- the byte that two digits stand for, before the rest
unfoldable pub decoded : Option ℕ → Option ℕ → Routed Text → Routed Text
decoded (some high) (some low) (ok t) = ok ((high * 16 + low) ∷ t)
decoded (some high) (some low) (err e) = err e
decoded _ _ rest = err malformed_percent

-- The loop of `percent_decode_route_segment`
unfoldable pub percent_decode : Text → Routed Text
unfolding hex_digit decoded
percent_decode [] = ok []
percent_decode (b ∷ []) = if b == 37 then err malformed_percent else ok (b ∷ [])
percent_decode (b ∷ h ∷ []) =
    let rest = percent_decode (h ∷ []) in
    if b == 37 then err malformed_percent else (do t ← rest; ok (b ∷ t))
percent_decode (b ∷ h ∷ l ∷ s) =
    let next = percent_decode (h ∷ l ∷ s) in
    let behind = percent_decode s in
    if b == 37 then decoded (hex_digit h) (hex_digit l) behind else (do t ← next; ok (b ∷ t))

-- the last byte, and the text before it
abbrev pub last_byte : ℕ → Text → ℕ
last_byte b [] = b
last_byte b (c ∷ t) = last_byte c t

abbrev pub but_last : ℕ → Text → Text
but_last b [] = []
but_last b (c ∷ t) = b ∷ but_last c t

-- `strip_prefix("...")`
unfoldable pub strip_dots : Text → Bool × Text
strip_dots (a ∷ b ∷ c ∷ t) =
    if a == 46 && b == 46 && c == 46 then (true, t) else (false, a ∷ b ∷ c ∷ t)
strip_dots t = (false, t)

-- does a segment of a pattern begin or end with a brace, and does it do both?
abbrev pub opens : Text → Bool
opens [] = false
opens (b ∷ t) = b == 123

abbrev pub shuts : Text → Bool
shuts [] = false
shuts (b ∷ t) = last_byte b t == 125

-- `&raw[1..raw.len() - 1]`
abbrev pub inner : Text → Text
inner [] = []
inner (b ∷ []) = []
inner (b ∷ c ∷ t) = but_last c t

-- a capture with a valid name, and the names with it
unfoldable pub compile_capture : Text → List Text → Bool → Routed (Segment × List Text)
unfolding strip_dots valid_route_capture_name
compile_capture raw names last =
    let (is_catch_all, name) = strip_dots (inner raw) in
    if not (opens raw) || not (shuts raw) || ltb (length raw) 3
    then err invalid_braces
    else if not (valid_route_capture_name name)
    then err invalid_name
    else if mem_text name names
    then err duplicate_name
    else if is_catch_all && not last
    then err catch_all_not_last
    else if is_catch_all
    then ok (catch_all name, name ∷ names)
    else ok (parameter name, name ∷ names)

abbrev pub is_catch_all : Segment → Bool
is_catch_all (literal t) = false
is_catch_all (parameter n) = false
is_catch_all (catch_all n) = true

-- what a segment adds to the specificity
abbrev pub weight : Segment → ℕ
weight (literal t) = 2
weight (parameter n) = 1
weight (catch_all n) = 0

abbrev pub is_nil : List Text → Bool
is_nil [] = true
is_nil (r ∷ rs) = false

module _ (utf8 : Text → Bool) where
  unfoldable pub percent_decode_route_segment : Text → Routed Text
  unfolding percent_decode
  percent_decode_route_segment s = do
    t ← percent_decode s
    if utf8 t then ok t else err invalid_utf8

  -- one segment of a pattern
  unfoldable pub compile_segment : Text → List Text → Bool → Routed (Segment × List Text)
  unfolding compile_capture percent_decode_route_segment
  compile_segment raw names last =
      if opens raw || shuts raw
      then compile_capture raw names last
      else if has_byte 123 raw || has_byte 125 raw
      then err unmatched_brace
      else (do t ← percent_decode_route_segment raw; ok (literal t, names))

  -- The loop of `compile_http_route`, from the names so far and whether a catch-all was seen on
  unfoldable pub compile_loop : List Text → List Text → Bool → Routed (List Segment × List ℕ)
  unfolding compile_segment
  compile_loop [] names seen = ok ([], if seen then [] else 3 ∷ [])
  compile_loop (raw ∷ raws) names seen = do
    (segment, names') ← compile_segment raw names (is_nil raws)
    (segments, specificity) ← compile_loop raws names' (seen || is_catch_all segment)
    ok (segment ∷ segments, weight segment ∷ specificity)

  unfoldable pub compile_http_route : Text → Routed (List Segment × List ℕ)
  unfolding route_path_segments compile_loop
  compile_http_route path =
      if has_byte 63 path
      then err query_in_pattern
      else (do raws ← route_path_segments path; compile_loop raws [] false)

  unfoldable pub decode_all : List Text → Routed (List Text)
  unfolding percent_decode_route_segment
  decode_all [] = ok []
  decode_all (raw ∷ raws) = do
    t ← percent_decode_route_segment raw
    ts ← decode_all raws
    ok (t ∷ ts)

  unfoldable pub request_path_segments : Text → Routed (List Text)
  unfolding split_at route_path_segments decode_all
  request_path_segments url = do raws ← route_path_segments (split_at 63 url).0; decode_all raws
