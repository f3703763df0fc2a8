-- ===== src/Json/Patch.antt =====
-- JSON Patch (`apply_json_patch_operation`, `mux_json_apply_patch`) and the calls on one pointer, of
-- src/json.rs. A call on a document returns the document as it leaves it beside its result.
pub mod Atomic
pub mod Carry
use Prim.Native.Nat.{ℕ}
use mathlib.Core.Bool.{Bool, true, false, ◌&&◌, not}
use mathlib.Core.Option.{Option, none, some}
use mathlib.Core.List.{List, [], ◌∷◌}
use mux_runtime.Common.{ltb, if◌then◌else◌, Result, ok, err, ◌>>=◌, length}
use mux_runtime.Common.Text.{Text, eqb_text}
use mux_runtime.Json.Token.{
  JsonError, decode_pointer_text, operation_lacks, not_a_string, not_an_operation, into_own_child,
  test_failed, unsupported, null_document, null_pointer, null_argument, not_utf8, patch_not_list,
  not_representable, not_an_array, not_an_object,
}
use mux_runtime.Json.Value.{
  Value, Items, Fields, unit, string, map, list, nil, item, get_field, insert_field, push_item,
}
use mux_runtime.Json.Equality.{Host, eq_value}
use mux_runtime.Json.Convert.{value_to_json}
use mux_runtime.Json.Pointer.{found_or, pointer_get, pointer_set, pointer_add, pointer_remove}

abbrev pub op_key : Text
op_key = b'o' ∷ b'p' ∷ []

abbrev pub path_key : Text
path_key = b'p' ∷ b'a' ∷ b't' ∷ b'h' ∷ []

abbrev pub value_key : Text
value_key = b'v' ∷ b'a' ∷ b'l' ∷ b'u' ∷ b'e' ∷ []

abbrev pub from_key : Text
from_key = b'f' ∷ b'r' ∷ b'o' ∷ b'm' ∷ []

abbrev pub add_op : Text
add_op = b'a' ∷ b'd' ∷ b'd' ∷ []

abbrev pub remove_op : Text
remove_op = b'r' ∷ b'e' ∷ b'm' ∷ b'o' ∷ b'v' ∷ b'e' ∷ []

abbrev pub replace_op : Text
replace_op = b'r' ∷ b'e' ∷ b'p' ∷ b'l' ∷ b'a' ∷ b'c' ∷ b'e' ∷ []

abbrev pub copy_op : Text
copy_op = b'c' ∷ b'o' ∷ b'p' ∷ b'y' ∷ []

abbrev pub move_op : Text
move_op = b'm' ∷ b'o' ∷ b'v' ∷ b'e' ∷ []

abbrev pub test_op : Text
test_op = b't' ∷ b'e' ∷ b's' ∷ b't' ∷ []

abbrev pub as_string : Text → Value → Result JsonError Text
as_string name (string text) = ok text
as_string name _ = err (not_a_string name)

-- `field(name)?`, and the same where a string is wanted
abbrev pub operation_field : Fields → Text → Result JsonError Value
operation_field fields name = found_or (operation_lacks name) (get_field name fields)

abbrev pub string_field : Fields → Text → Result JsonError Text
string_field fields name = operation_field fields name >>= λ value. as_string name value

-- `starts_with` of two lists of tokens
abbrev pub starts_with : List Text → List Text → Bool
starts_with tokens [] = true
starts_with [] (t ∷ ts) = false
starts_with (u ∷ us) (t ∷ ts) = eqb_text u t && starts_with us ts

-- The six operations, each at the tokens of its path
unfoldable pub patch_add : Fields → Value → List Text → Result JsonError Value
patch_add fields document tokens =
    operation_field fields value_key >>= λ value. pointer_add document tokens value

unfoldable pub patch_remove : Value → List Text → Result JsonError Value
patch_remove document tokens = pointer_remove document tokens >>= λ result. ok result.1

unfoldable pub patch_replace : Fields → Value → List Text → Result JsonError Value
patch_replace fields document tokens = pointer_get document tokens >>= λ old.
    operation_field fields value_key >>= λ value. pointer_set document tokens value

unfoldable pub patch_copy : Fields → Value → List Text → Result JsonError Value
patch_copy fields document tokens = string_field fields from_key >>= λ from.
    decode_pointer_text from >>= λ from_tokens.
    pointer_get document from_tokens >>= λ source. pointer_add document tokens source

unfoldable pub patch_move : Fields → Value → List Text → Result JsonError Value
patch_move fields document tokens = string_field fields from_key >>= λ from.
    decode_pointer_text from >>= λ from_tokens.
    if ltb (length from_tokens) (length tokens) && starts_with tokens from_tokens
    then err into_own_child
    else (pointer_get document from_tokens >>= λ source.
        pointer_remove document from_tokens >>= λ result. pointer_add result.1 tokens source)

-- A document and what a call on it answers
abbrev pub Answer : Type 0
Answer = Option Value × Result JsonError Value

-- `json_ok`: the call returns the unit value
abbrev pub written_or_kept : Value → Result JsonError Value → Answer
written_or_kept document (ok changed) = (some changed, ok unit)
written_or_kept document (err e) = (some document, err e)

abbrev pub removed_or_kept : Value → Result JsonError (Value × Value) → Answer
removed_or_kept document (ok result) = (some result.1, ok result.0)
removed_or_kept document (err e) = (some document, err e)

module _ (host : Host) where
  unfoldable pub patch_test : Fields → Value → List Text → Result JsonError Value
  patch_test fields document tokens = pointer_get document tokens >>= λ found.
      operation_field fields value_key >>= λ value.
      if eq_value host found value then ok document else err test_failed

  -- `match op.as_str()`
  unfoldable pub perform_operation : Text → Fields → Value → List Text → Result JsonError Value
  perform_operation op fields document tokens =
      if eqb_text op add_op
      then patch_add fields document tokens
      else if eqb_text op remove_op
      then patch_remove document tokens
      else if eqb_text op replace_op
      then patch_replace fields document tokens
      else if eqb_text op copy_op
      then patch_copy fields document tokens
      else if eqb_text op move_op
      then patch_move fields document tokens
      else if eqb_text op test_op
      then patch_test fields document tokens
      else err (unsupported op)

  unfoldable pub apply_json_patch_operation : Value → Value → Result JsonError Value
  apply_json_patch_operation document operation = elim operation [
    | map fields ↦ string_field fields op_key >>= λ op. string_field fields path_key >>= λ path.
        decode_pointer_text path >>= λ tokens. perform_operation op fields document tokens
    | _ ↦ err not_an_operation
  ]

  -- The loop over the operations, on the candidate
  unfoldable pub apply_operations : Value → Items → Result JsonError Value
  apply_operations candidate nil = ok candidate
  apply_operations candidate (item operation rest) =
      apply_json_patch_operation candidate operation >>= λ changed. apply_operations changed rest

  unfoldable pub is_representable : Value → Bool
  is_representable value = elim (value_to_json host value) [ ok j ↦ true | err e ↦ false ]

  unfoldable pub all_representable : Items → Bool
  all_representable nil = true
  all_representable (item value rest) = is_representable value && all_representable rest

  unfoldable pub mux_json_apply_patch : Option Value → Option Value → Answer
  mux_json_apply_patch none patch = (none, err null_document)
  mux_json_apply_patch (some document) none = (some document, err patch_not_list)
  mux_json_apply_patch (some document) (some patch) = elim patch [
    | list operations ↦
        if not (all_representable operations)
        then (some document, err not_representable)
        else written_or_kept document (apply_operations document operations)
    | _ ↦ (some document, err patch_not_list)
  ]

  unfoldable pub decode_pointer_tokens : Option Text → Result JsonError (List Text)
  decode_pointer_tokens none = err null_pointer
  decode_pointer_tokens (some text) =
      if host.valid_utf8 text then decode_pointer_text text else err not_utf8

  unfoldable pub mux_json_at_pointer : Option Value → Option Text → Result JsonError Value
  mux_json_at_pointer none pointer = err null_document
  mux_json_at_pointer (some value) pointer =
      decode_pointer_tokens pointer >>= λ tokens. pointer_get value tokens

  unfoldable pub mux_json_set_pointer : Option Value → Option Text → Option Value → Answer
  mux_json_set_pointer none pointer replacement = (none, err null_document)
  mux_json_set_pointer (some document) pointer none = (some document, err null_argument)
  mux_json_set_pointer (some document) pointer (some replacement) =
      if not (is_representable replacement)
      then (some document, err not_representable)
      else written_or_kept document
          (decode_pointer_tokens pointer >>= λ tokens. pointer_set document tokens replacement)

  unfoldable pub mux_json_remove_pointer : Option Value → Option Text → Answer
  mux_json_remove_pointer none pointer = (none, err null_document)
  mux_json_remove_pointer (some document) pointer =
      removed_or_kept document
        (decode_pointer_tokens pointer >>= λ tokens. pointer_remove document tokens)

  unfoldable pub mux_json_set_field : Option Value → Option Value → Option Value → Answer
  mux_json_set_field none key value = (none, err null_argument)
  mux_json_set_field (some document) none value = (some document, err null_argument)
  mux_json_set_field (some document) (some key) none = (some document, err null_argument)
  mux_json_set_field (some document) (some key) (some value) = elim key [
    | string name ↦
        if not (is_representable value)
        then (some document, err not_representable)
        else (elim document [
          | map entries ↦ (some (map (insert_field name value entries)), ok unit)
          | other ↦ (some other, err not_an_object)
        ])
    | other ↦ (some document, err (not_a_string []))
  ]

  unfoldable pub mux_json_push : Option Value → Option Value → Answer
  mux_json_push none value = (none, err null_argument)
  mux_json_push (some document) none = (some document, err null_argument)
  mux_json_push (some document) (some value) =
      if not (is_representable value)
      then (some document, err not_representable)
      else (elim document [
        | list items ↦ (some (list (push_item items value)), ok unit)
        | other ↦ (some other, err not_an_array)
      ])

-- `mux_json_field`: none for a document or key that is null, for what is no object, for a missing key
unfoldable pub mux_json_field : Option Value → Option Text → Option Value
mux_json_field document none = none
mux_json_field none (some name) = none
mux_json_field (some value) (some name) = elim value [
  | map entries ↦ get_field name entries
  | _ ↦ none
]
