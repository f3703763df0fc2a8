-- ===== src/Json/Tests.antt =====
-- The pointers, patches and merges of src/json.rs at concrete documents.
use Prim.Native.Nat.{ℕ}
use mathlib.Core.Path.{◌≡◌, refl}
use mathlib.Core.Logic.{◌⊎◌, ◌↔◌}
use mathlib.Core.Bool.{true, false}
use mathlib.Core.Option.{none, some}
use mathlib.Core.List.{List, [], ◌∷◌}
use native.Mathlib.Omega.{arith}
use mux_runtime.Common.{if◌then◌else◌, ◌==◌, ok, err}
use mux_runtime.Common.Int.{pos}
use mux_runtime.Common.Text.{Text, eqb_text}
use mux_runtime.Json.Value.{
  Json, JsonMap, json_null, json_int, json_number, json_array, json_object, json_nil, json_item,
  json_end, json_entry, Value, Fields, unit, int, string, list, map, object, nil, item, end, field,
  container, get_field, insert_field, remove_field, item_count, get_item, set_item, insert_item,
  push_item, remove_item,
}
use mux_runtime.Json.Equality.{Host}
use mux_runtime.Json.Numbers
use mux_runtime.Json.Numbers.{Numbers, Allocation, allocated, json_number_raw, json_number_value}
use mux_runtime.Json.Token.{
  JsonError, decode_pointer_text, unescape, unescape_all, split_slashes, pointer_index,
}
use mux_runtime.Common.Text.{parse_usize, parse_unsigned, parse_digits}
use mux_runtime.Json.Token.RoundTrip.{decode_pointer_text_iff, encode_pointer}
use mux_runtime.Json.Convert.{value_to_json, fields_to_json, json_to_value}
use mux_runtime.Json.Convert.RoundTrip.{value_to_json-json_to_value, InsertsLast, with_numbers}
use mux_runtime.Json.Pointer.{
  found_or, get_child, put_child, set_child, add_child, remove_child, pointer_get, pointer_set,
  pointer_add, pointer_remove,
}
use mux_runtime.Json.Pointer.Replace.{pointer_set-undo, pointer_get-pointer_set, ends_in_dash}
use mux_runtime.Json.Pointer.Elsewhere.{pointer_set-elsewhere, part}
use mux_runtime.Json.Pointer.Undo.{pointer_remove-pointer_add, displaces}
use mux_runtime.Json.Patch.{
  patch_move, apply_json_patch_operation, apply_operations, mux_json_apply_patch, all_representable,
  is_representable, op_key, path_key, from_key, move_op, perform_operation,
}
use mux_runtime.Json.Patch.Carry.{patch_move-carries, source_tokens, into_child}
use mux_runtime.Json.Patch.Atomic.{mux_json_apply_patch-atomic, Applies}
use mux_runtime.Json.Merge.{
  mux_json_merge_patch, apply_merge_patch, merge_entries, merge_entry, target_entries,
}
use mux_runtime.Json.Merge.Reference.{
  mux_json_merge_patch-reference, merge_patch, merge_members, Settled,
}

abbrev a_key : Text
a_key = b'a' ∷ []

abbrev b_key : Text
b_key = b'b' ∷ []

abbrev c_key : Text
c_key = b'c' ∷ []

abbrev first : Text
first = b'0' ∷ []

abbrev second : Text
second = b'1' ∷ []

abbrev number : ℕ → Value
number n = int (pos n)

-- {"a": [1, 2], "b": null}
abbrev pair : Value
pair = list (item (number 1) (item (number 2) nil))

abbrev document : Value
document = map (field (string a_key) pair (field (string b_key) unit end))

-- The map of the indexmap crate, as it is documented: a known key keeps its place.
abbrev index_insert : Text → Json → JsonMap → JsonMap
index_insert name new json_end = json_entry name new json_end
index_insert name new (json_entry key value rest) =
    if eqb_text key name
    then json_entry key new rest
    else json_entry key value (index_insert name new rest)

-- the number 1.0, under the handle 1, held by the first object
abbrev one_number : Numbers
one_number = record {
  entries = (1, record { raw = b'1' ∷ b'.' ∷ b'0' ∷ []; names = 1 }) ∷ [];
  next = 2;
  objects = (0, 1) ∷ [];
  next_object = 1;
}

abbrev host : Host
host = record {
  eq_float = λ a b. a == b;
  eq_object = λ a b. a == b;
  eq_enum = λ a b. a == b;
  valid_utf8 = λ text. true;
  index_insert = λ name j m. index_insert name j m;
  numbers = one_number;
}

abbrev in_pair : List Text
in_pair = a_key ∷ second ∷ []

-- The document with another second number
abbrev with_second : ℕ → Value
with_second n = map (
    field (string a_key) (list (item (number 1) (item (number n) nil)))
      (field (string b_key) unit end))

pointer_get_test : pointer_get document in_pair ≡ ok (number 2)
unfolding pointer_get pointer_set pointer_add pointer_remove get_child put_child set_child add_child
    remove_child container found_or get_field insert_field remove_field item_count get_item set_item
    insert_item remove_item push_item pointer_index parse_usize parse_unsigned parse_digits
pointer_get_test = refl

pointer_set_test : pointer_set document in_pair (number 7) ≡ ok (with_second 7)
unfolding pointer_get pointer_set pointer_add pointer_remove get_child put_child set_child add_child
    remove_child container found_or get_field insert_field remove_field item_count get_item set_item
    insert_item remove_item push_item pointer_index parse_usize parse_unsigned parse_digits
pointer_set_test = refl

-- A sign before the digits is taken, as `parse` takes it.
signed_index_test : pointer_get document (a_key ∷ (b'+' ∷ b'1' ∷ []) ∷ []) ≡ ok (number 2)
unfolding pointer_get pointer_set pointer_add pointer_remove get_child put_child set_child add_child
    remove_child container found_or get_field insert_field remove_field item_count get_item set_item
    insert_item remove_item push_item pointer_index parse_usize parse_unsigned parse_digits
signed_index_test = refl

pointer_set-undo_example :
    (changed : Value) × (pointer_set document in_pair (number 7) ≡ ok changed)
    × (pointer_get changed in_pair ≡ ok (number 7))
    × (pointer_set changed in_pair (number 2) ≡ ok document)
pointer_set-undo_example = pointer_set-undo document in_pair (number 7) pointer_get_test

pointer_get-pointer_set_example : pointer_get (with_second 7) in_pair ≡ ok (number 7)
pointer_get-pointer_set_example =
    pointer_get-pointer_set document in_pair (number 7) refl pointer_set_test

parted_test : part in_pair (a_key ∷ first ∷ []) ≡ true
unfolding pointer_get pointer_set pointer_add pointer_remove get_child put_child set_child add_child
    remove_child container found_or get_field insert_field remove_field item_count get_item set_item
    insert_item remove_item push_item pointer_index parse_usize parse_unsigned parse_digits
parted_test = refl

pointer_set-elsewhere_example :
    pointer_get (with_second 7) (a_key ∷ first ∷ []) ≡ pointer_get document (a_key ∷ first ∷ [])
pointer_set-elsewhere_example =
    pointer_set-elsewhere document in_pair (a_key ∷ first ∷ []) (number 7) parted_test refl
      pointer_set_test

abbrev inserted : Value
inserted = map (
    field (string a_key) (list (item (number 1) (item (number 9) (item (number 2) nil))))
      (field (string b_key) unit end))

pointer_add_test : pointer_add document in_pair (number 9) ≡ ok inserted
unfolding pointer_get pointer_set pointer_add pointer_remove get_child put_child set_child add_child
    remove_child container found_or get_field insert_field remove_field item_count get_item set_item
    insert_item remove_item push_item pointer_index parse_usize parse_unsigned parse_digits
pointer_add_test = refl

displaces_test : displaces document in_pair ≡ false
unfolding pointer_get pointer_set pointer_add pointer_remove get_child put_child set_child add_child
    remove_child container found_or get_field insert_field remove_field item_count get_item set_item
    insert_item remove_item push_item pointer_index parse_usize parse_unsigned parse_digits
displaces_test = refl

pointer_remove-pointer_add_example : pointer_remove inserted in_pair ≡ ok (number 9, document)
pointer_remove-pointer_add_example =
    pointer_remove-pointer_add document in_pair (number 9) displaces_test pointer_add_test

-- "/a~1b/m~0n"
abbrev escaped : Text
escaped = b'/' ∷ b'a' ∷ b'~' ∷ b'1' ∷ b'b' ∷ b'/' ∷ b'm' ∷ b'~' ∷ b'0' ∷ b'n' ∷ []

abbrev slash_and_tilde : List Text
slash_and_tilde = (b'a' ∷ b'/' ∷ b'b' ∷ []) ∷ (b'm' ∷ b'~' ∷ b'n' ∷ []) ∷ []

decode_pointer_text_iff_example :
    (decode_pointer_text escaped ≡ ok slash_and_tilde) ↔ (encode_pointer slash_and_tilde ≡ escaped)
decode_pointer_text_iff_example =
    decode_pointer_text_iff escaped slash_and_tilde (omega arith) (omega arith)

decode_pointer_text_test : decode_pointer_text escaped ≡ ok slash_and_tilde
unfolding decode_pointer_text unescape_all unescape split_slashes
decode_pointer_text_test = refl

-- {"a": [1, 1.0], "b": null}
abbrev json_document : Json
json_document = json_object (
    json_entry a_key
      (json_array
        (json_item (json_int (pos 1)) (json_item (json_number (b'1' ∷ b'.' ∷ b'0' ∷ [])) json_nil)))
      (json_entry b_key json_null json_end))

abbrev always : ℕ → Allocation
always k = allocated

-- The object of the new number is the second, under the handle 2.
json_to_value_test : json_to_value always json_document one_number ≡ (
  map (
      field
        (string a_key)
        (list (item (int (pos 1)) (item (object 1) nil)))
        (field (string b_key) unit end)),
  record {
    entries =
        (2, record { raw = b'1' ∷ b'.' ∷ b'0' ∷ []; names = 1 })
        ∷ (1, record { raw = b'1' ∷ b'.' ∷ b'0' ∷ []; names = 1 })
        ∷ [];
    next = 3;
    objects = (1, 2) ∷ (0, 1) ∷ [];
    next_object = 2;
  },
)
unfolding json_to_value json_number_value Numbers.register Numbers.store_handle Numbers.insert_key
    Numbers.remove_key Numbers.advance insert_field
json_to_value_test = refl

-- A second name of the number keeps it when the first is dropped.
names_test :
    json_number_raw (Numbers.drop_json_number 0 (Numbers.copy_json_number 0 5 one_number)) 5
    ≡ some (b'1' ∷ b'.' ∷ b'0' ∷ [])
unfolding json_number_raw Numbers.json_number_handle Numbers.drop_json_number
    Numbers.copy_json_number Numbers.lookup Numbers.insert_key Numbers.remove_key
names_test = refl

inserts_last : InsertsLast host
inserts_last = (λ key j. refl, λ key name j new rest apart. rw apart refl)

value_to_json-json_to_value_example :
    (value_to_json
        (with_numbers host (json_to_value always json_document one_number).1)
        (json_to_value always json_document one_number).0
      ≡ ok json_document)
    × ((json_number_raw one_number 0 ≡ none)
        ⊎ (json_number_raw (json_to_value always json_document one_number).1 0
            ≡ json_number_raw one_number 0))
value_to_json-json_to_value_example =
    value_to_json-json_to_value always (λ k. refl) host inserts_last json_document one_number 0
      (refl, (tt, (tt, tt)), (refl, tt, tt)) ((omega arith, tt), (omega arith, tt)) (omega arith)

-- {"from": "/b"}
abbrev from_b : Fields
from_b = field (string from_key) (string (b'/' ∷ b'b' ∷ [])) end

-- {"a": [1, null, 2]}
abbrev moved : Value
moved = map (field (string a_key) (list (item (number 1) (item unit (item (number 2) nil)))) end)

patch_move_test : patch_move from_b document in_pair ≡ ok moved
unfolding pointer_get pointer_set pointer_add pointer_remove get_child put_child set_child add_child
    remove_child container found_or get_field insert_field remove_field item_count get_item set_item
    insert_item remove_item push_item pointer_index parse_usize parse_unsigned parse_digits
    patch_move decode_pointer_text unescape_all unescape split_slashes
patch_move_test = refl

patch_move-carries_example :
    (from_tokens : List Text) × (removed between : Value) × (source_tokens from_b ≡ ok from_tokens)
    × (into_child in_pair from_tokens ≡ false)
    × (pointer_remove document from_tokens ≡ ok (removed, between))
    × (pointer_add between in_pair removed ≡ ok moved)
    × ((ends_in_dash in_pair ≡ true)
        ⊎ (pointer_get moved in_pair ≡ pointer_get document from_tokens))
patch_move-carries_example = patch_move-carries from_b document in_pair patch_move_test

-- [{"op": "move", "path": "/a/1", "from": "/b"}]
abbrev move_patch : Value
move_patch = list (
    item
      (map (
        field (string op_key) (string move_op)
          (field (string path_key) (string (b'/' ∷ b'a' ∷ b'/' ∷ b'1' ∷ [])) from_b)))
      nil)

mux_json_apply_patch_test :
    mux_json_apply_patch host (some document) (some move_patch) ≡ (some moved, ok unit)
unfolding pointer_get pointer_set pointer_add pointer_remove get_child put_child set_child add_child
    remove_child container found_or get_field insert_field remove_field item_count get_item set_item
    insert_item remove_item push_item pointer_index parse_usize parse_unsigned parse_digits
    patch_move decode_pointer_text unescape_all unescape split_slashes mux_json_apply_patch
    apply_operations apply_json_patch_operation perform_operation all_representable is_representable
    value_to_json fields_to_json
mux_json_apply_patch_test = refl

mux_json_apply_patch-atomic_example :
    ((end : Value) × Applies host document move_patch end
      × (mux_json_apply_patch host (some document) (some move_patch) ≡ (some end, ok unit)))
    ⊎ ((e : JsonError) × ((end : Value) → ¬ Applies host document move_patch end)
        × (mux_json_apply_patch host (some document) (some move_patch) ≡ (some document, err e)))
mux_json_apply_patch-atomic_example = mux_json_apply_patch-atomic host document move_patch

-- {"a": null, "c": 3}
abbrev merge_patch_of_c : Value
merge_patch_of_c = map (field (string a_key) unit (field (string c_key) (number 3) end))

apply_merge_patch_test :
    apply_merge_patch document merge_patch_of_c
    ≡ map (field (string b_key) unit (field (string c_key) (number 3) end))
unfolding apply_merge_patch merge_entries merge_entry target_entries get_field insert_field
    remove_field
apply_merge_patch_test = refl

c_patch-Settled : Settled document merge_patch_of_c
unfolding apply_merge_patch merge_entries merge_entry target_entries get_field insert_field
    remove_field
c_patch-Settled = (tt, (tt, tt))

c_patch_fine : is_representable host merge_patch_of_c ≡ true
unfolding is_representable value_to_json fields_to_json
c_patch_fine = refl

mux_json_merge_patch-reference_example :
    mux_json_merge_patch host (some document) (some merge_patch_of_c)
    ≡ (some (merge_patch (some document) merge_patch_of_c), ok unit)
mux_json_merge_patch-reference_example =
    mux_json_merge_patch-reference host document merge_patch_of_c c_patch_fine c_patch-Settled

-- {"a": {"b": null}}
abbrev nested_null : Value
nested_null = map (field (string a_key) (map (field (string b_key) unit end)) end)

-- Into an empty object the null is written; RFC 7396 drops it.
nested_null_test : apply_merge_patch (map end) nested_null ≡ nested_null
unfolding apply_merge_patch merge_entries merge_entry target_entries get_field insert_field
nested_null_test = refl

nested_null_reference_test :
    merge_patch (some (map end)) nested_null ≡ map (field (string a_key) (map end) end)
unfolding merge_patch merge_members target_entries get_field insert_field remove_field
nested_null_reference_test = refl
