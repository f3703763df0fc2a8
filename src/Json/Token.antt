-- ===== src/Json/Token.antt =====
-- The text of a JSON Pointer in src/json.rs: its tokens, and a token as an index of an array. A
-- message is a constructor of `JsonError`.
pub mod Escape
pub mod RoundTrip
use Prim.Native.Nat.{ℕ, zero, suc, ◌+◌, ◌-◌, ◌*◌, ◌^◌}
use mathlib.Core.Bool.{Bool, true, false, ◌&&◌, ◌||◌, not}
use mathlib.Core.Option.{Option, none, some}
use mathlib.Core.List.{List, [], ◌∷◌}
use mux_runtime.Common.{ltb, leb, ◌==◌, if◌then◌else◌, Result, ok, err, ◌>>=◌, length}
use mux_runtime.Common.Text.{Text, eqb_text, parse_usize}

-- Who steps into a document: the messages are worded for the asker.
pub data Purpose : Type 0 where
  reads : Purpose
  sets : Purpose
  adds : Purpose
  removes : Purpose

-- The messages of the pointer functions, the patches and the conversions
pub data JsonError : Type 0 where
  too_long : JsonError
  too_many_tokens : JsonError
  no_slash : JsonError
  bad_escape : JsonError
  not_canonical : JsonError
  bad_index : JsonError
  out_of_bounds : JsonError
  patch_not_canonical : JsonError
  patch_bad_index : JsonError
  patch_out_of_bounds : JsonError
  missing : Purpose → Text → JsonError
  no_append : Purpose → JsonError
  not_container : Purpose → JsonError
  root_removal : JsonError
  not_an_operation : JsonError
  operation_lacks : Text → JsonError
  not_a_string : Text → JsonError
  into_own_child : JsonError
  test_failed : JsonError
  unsupported : Text → JsonError
  null_document : JsonError
  null_pointer : JsonError
  null_argument : JsonError
  not_utf8 : JsonError
  patch_not_list : JsonError
  not_representable : JsonError
  not_an_array : JsonError
  not_an_object : JsonError
  nan : JsonError
  infinity : JsonError
  non_string_key : JsonError
  unsupported_value : JsonError

abbrev pub max_json_input_bytes : ℕ
max_json_input_bytes = 16 * 1024 * 1024

abbrev pub max_json_tokens : ℕ
max_json_tokens = 1000000

-- One token, its `~0` and `~1` undone
unfoldable pub unescape : Text → Result JsonError Text
unescape [] = ok []
unescape (c ∷ []) = if c == b'~' then err bad_escape else ok (c ∷ [])
unescape (c ∷ d ∷ rest) =
    if c == b'~'
    then (if d == b'0'
        then (unescape rest >>= λ token. ok (b'~' ∷ token))
        else if d == b'1'
        then (unescape rest >>= λ token. ok (b'/' ∷ token))
        else err bad_escape)
    else (unescape (d ∷ rest) >>= λ token. ok (c ∷ token))

-- The loop over the raw tokens, of which `read` came before
unfoldable pub unescape_all : ℕ → List Text → Result JsonError (List Text)
unescape_all read [] = ok []
unescape_all read (raw ∷ raws) =
    if leb max_json_tokens read
    then err too_many_tokens
    else (unescape raw >>= λ token. unescape_all (suc read) raws >>= λ tokens. ok (token ∷ tokens))

-- `split('/')`
unfoldable pub split_slashes : Text → List Text
split_slashes [] = [] ∷ []
split_slashes (c ∷ text) =
    if c == b'/'
    then [] ∷ split_slashes text
    else (elim (split_slashes text) [ [] ↦ (c ∷ []) ∷ [] | part ∷ parts ↦ (c ∷ part) ∷ parts ])

unfoldable pub decode_pointer_text : Text → Result JsonError (List Text)
decode_pointer_text text =
    if ltb max_json_input_bytes (length text) then err too_long else elim text [
      | [] ↦ ok []
      | c ∷ rest ↦ if c == b'/' then unescape_all 0 (split_slashes rest) else err no_slash
    ]

abbrev pub is_dash : Text → Bool
is_dash token = eqb_text token (b'-' ∷ [])

-- `token.is_empty() || (token.len() > 1 && token.starts_with('0'))`
abbrev pub is_padded : Text → Bool
is_padded [] = true
is_padded (c ∷ rest) = (c == b'0') && ltb 0 (length rest)

-- The place a token names in an array of `length` items: none is the one behind the last.
unfoldable pub pointer_index : Text → ℕ → Bool → Result JsonError (Option ℕ)
pointer_index token length allow_append =
    if allow_append && is_dash token
    then ok none
    else if is_padded token
    then err not_canonical
    else elim (parse_usize token) [
      | none ↦ err bad_index
      | some index ↦ if leb length index then err out_of_bounds else ok (some index)
    ]
