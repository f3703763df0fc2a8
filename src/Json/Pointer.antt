-- ===== src/Json/Pointer.antt =====
-- What a JSON Pointer reads, sets, adds and removes in a document (src/json.rs). An operation through
-- `&mut Value` returns the document as it leaves it, `remove` also the value taken out; one that fails
-- has not written anything.
pub mod Child
pub mod Replace
pub mod Elsewhere
pub mod Undo
use Prim.Native.Nat.{ℕ, ◌+◌}
use mathlib.Core.Bool.{Bool, true, false}
use mathlib.Core.Option.{Option, none, some}
use mathlib.Core.List.{List, [], ◌∷◌}
use mux_runtime.Common.{leb, ltb, if◌then◌else◌, Result, ok, err, ◌>>=◌}
use mux_runtime.Common.Text.{Text}
use mux_runtime.Json.Token.{
  Purpose, JsonError, missing, no_append, not_container, root_removal, patch_bad_index,
  patch_not_canonical, patch_out_of_bounds, is_dash, is_padded, pointer_index, reads, sets, adds,
  removes,
}
use mux_runtime.Common.Text.{parse_usize}
use mux_runtime.Json.Value.{
  Value, Items, Container, fields_of, items_of, leaf, container, get_field, insert_field,
  remove_field, item_count, get_item, set_item, insert_item, push_item, remove_item,
}

unfoldable pub found_or {ℓ κ} : {E : Type ℓ} {A : Type κ} → E → Option A → Result E A
found_or failure none = err failure
found_or failure (some value) = ok value

-- The child that a token names, which `get_mut` and `&mut items[index]` borrow
unfoldable pub get_child : Purpose → Text → Value → Result JsonError Value
get_child purpose token value = elim (container value) [
  | fields_of entries ↦ found_or (missing purpose token) (get_field token entries)
  | items_of items ↦ elim (pointer_index token (item_count items) false) [
    | err e ↦ err e
    | ok none ↦ err (no_append purpose)
    | ok (some index) ↦ found_or (no_append purpose) (get_item items index)
  ]
  | leaf ↦ err (not_container purpose)
]

-- What a write through that borrow leaves of the parent
unfoldable pub put_child : Text → Value → Value → Value
put_child token child value = elim (container value) [
  | fields_of entries ↦ Value.map (insert_field token child entries)
  | items_of items ↦ elim (parse_usize token) [
    | none ↦ value
    | some index ↦ Value.list (set_item items index child)
  ]
  | leaf ↦ value
]

unfoldable pub pointer_get : Value → List Text → Result JsonError Value
pointer_get value [] = ok value
pointer_get value (token ∷ rest) = get_child reads token value >>= λ child. pointer_get child rest

-- The last token of `pointer_set`
unfoldable pub set_child : Text → Value → Value → Result JsonError Value
set_child token value replacement = elim (container value) [
  | fields_of entries ↦ ok (Value.map (insert_field token replacement entries))
  | items_of items ↦ elim (pointer_index token (item_count items) true) [
    | err e ↦ err e
    | ok none ↦ ok (Value.list (push_item items replacement))
    | ok (some index) ↦ ok (Value.list (set_item items index replacement))
  ]
  | leaf ↦ err (not_container sets)
]

unfoldable pub pointer_set : Value → List Text → Value → Result JsonError Value
pointer_set value [] replacement = ok replacement
pointer_set value (token ∷ []) replacement = set_child token value replacement
pointer_set value (token ∷ next ∷ rest) replacement = get_child sets token value >>= λ child.
    pointer_set child (next ∷ rest) replacement >>= λ changed. ok (put_child token changed value)

-- The last token of `pointer_add`
unfoldable pub add_child : Text → Value → Value → Result JsonError Value
add_child token value addition = elim (container value) [
  | fields_of entries ↦ ok (Value.map (insert_field token addition entries))
  | items_of items ↦
      if is_dash token
      then ok (Value.list (push_item items addition))
      else (elim (parse_usize token) [
        | none ↦ err patch_bad_index
        | some index ↦
            if is_padded token
            then err patch_not_canonical
            else if ltb (item_count items) index
            then err patch_out_of_bounds
            else ok (Value.list (insert_item items index addition))
      ])
  | leaf ↦ err (not_container adds)
]

unfoldable pub pointer_add : Value → List Text → Value → Result JsonError Value
pointer_add value [] addition = ok addition
pointer_add value (token ∷ []) addition = add_child token value addition
pointer_add value (token ∷ next ∷ rest) addition = get_child adds token value >>= λ child.
    pointer_add child (next ∷ rest) addition >>= λ changed. ok (put_child token changed value)

-- The last token of `pointer_remove`
unfoldable pub remove_child : Text → Value → Result JsonError (Value × Value)
remove_child token value = elim (container value) [
  | fields_of entries ↦ found_or (missing removes token) (get_field token entries) >>= λ removed.
      ok (removed, Value.map (remove_field token entries))
  | items_of items ↦ elim (pointer_index token (item_count items) false) [
    | err e ↦ err e
    | ok none ↦ err (no_append removes)
    | ok (some index) ↦ found_or (no_append removes) (get_item items index) >>= λ removed.
        ok (removed, Value.list (remove_item items index))
  ]
  | leaf ↦ err (not_container removes)
]

unfoldable pub pointer_remove : Value → List Text → Result JsonError (Value × Value)
pointer_remove value [] = err root_removal
pointer_remove value (token ∷ []) = remove_child token value
pointer_remove value (token ∷ next ∷ rest) = get_child removes token value >>= λ child.
    pointer_remove child (next ∷ rest) >>= λ result. ok (result.0, put_child token result.1 value)
