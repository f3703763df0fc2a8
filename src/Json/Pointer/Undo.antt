-- ===== src/Json/Pointer/Undo.antt =====
-- `pointer_remove` of src/json.rs beside `pointer_get`, and after `pointer_add`.
use mathlib.Core.Path.{◌≡◌, refl, sym, ap, ◌∙◌}
use mathlib.Core.Logic.{inl, inr}
use mathlib.Core.Bool.{Bool, true, false}
use mathlib.Core.Option.{Option, none, some}
use mathlib.Core.List.{List, [], ◌∷◌}
use native.Mathlib.Omega.{arith}
use mux_runtime.Common.{ok_inj, Option-cases, ok, err, >>=-eq-ok}
use mux_runtime.Common.Text.{Text}
use mux_runtime.Json.Token.{adds, reads, removes, is_dash, pointer_index}
use mux_runtime.Common.Text.{parse_usize}
use mux_runtime.Json.Value.{Value, map, list, container, fields_of, items_of, leaf, get_field}
use mux_runtime.Json.Value.Laws.{
  get_field-insert_field, remove_field-insert_field, item_count-insert_item, get_item-insert_item,
  remove_item-insert_item,
}
use mux_runtime.Json.Pointer.{
  found_or, get_child, add_child, remove_child, pointer_get, pointer_add, pointer_remove,
}
use mux_runtime.Json.Pointer.Child.{
  get_child-any, get_child-put_child, put_child-same, put_child-put_child,
}
use mux_runtime.Json.Pointer.Replace.{ends_in_dash}

abbrev pub holds : Option Value → Bool
holds none = false
holds (some value) = true

-- Does an addition there overwrite a value, or name the place behind the last item by `-`?
abbrev pub displaces : Value → List Text → Bool
displaces value [] = true
displaces value (token ∷ []) = elim (container value) [
  | fields_of entries ↦ holds (get_field token entries)
  | items_of items ↦ is_dash token
  | leaf ↦ false
]
displaces value (token ∷ next ∷ rest) = elim (get_child adds token value) [
  | ok child ↦ displaces child (next ∷ rest)
  | err e ↦ false
]

pub get_child-remove_child :
    (token : Text) (value : Value) {removed rest : Value}
    → remove_child token value ≡ ok (removed, rest)
    → get_child reads token value ≡ ok removed
unfolding container remove_child get_child found_or pointer_index
get_child-remove_child token (map entries) h = ground arith
get_child-remove_child token (list items) h = ground arith
get_child-remove_child token _ h = cc

-- What `pointer_remove` returns is what the pointer read.
pub pointer_get-pointer_remove :
    (value : Value) (tokens : List Text) {removed rest : Value}
    → pointer_remove value tokens ≡ ok (removed, rest)
    → pointer_get value tokens ≡ ok removed
unfolding pointer_remove pointer_get
pointer_get-pointer_remove value [] h = cc
pointer_get-pointer_remove value (token ∷ []) h = rw (get_child-remove_child token value h) refl
pointer_get-pointer_remove value (token ∷ next ∷ rest) h =
    let (child, at, after) = >>=-eq-ok (get_child removes token value) _ h in
    let (inner, removed_there, written) = >>=-eq-ok (pointer_remove child (next ∷ rest)) _ after in
    rw (get_child-any removes reads token value at) (
      pointer_get-pointer_remove child (next ∷ rest) removed_there
      ∙ ap ok (ap (λ r. r.0) (ok_inj written)))

pub remove_child-add_child :
    (token : Text) (value addition : Value) {changed : Value}
    → displaces value (token ∷ []) ≡ false
    → add_child token value addition ≡ ok changed
    → remove_child token changed ≡ ok (addition, value)
unfolding container add_child remove_child found_or pointer_index
remove_child-add_child token (map entries) addition fresh h = ground (
  arith,
  get_field-insert_field token addition entries,
  remove_field-insert_field token addition entries,
)
remove_child-add_child token (list items) addition fresh h =
    elim (Option-cases (parse_usize token)) [
      | inl none_parsed ↦ absurd (ground arith)
      | inr (index, parsed) ↦ ground (
        arith,
        item_count-insert_item items index addition,
        get_item-insert_item items index addition,
        remove_item-insert_item items index addition,
      )
    ]
remove_child-add_child token _ addition fresh h = cc

-- After an addition that displaces nothing, `pointer_remove` takes out the added value and leaves the
-- document as it was before.
pub pointer_remove-pointer_add :
    (value : Value) (tokens : List Text) (addition : Value) {changed : Value}
    → displaces value tokens ≡ false
    → pointer_add value tokens addition ≡ ok changed
    → pointer_remove changed tokens ≡ ok (addition, value)
unfolding pointer_add pointer_remove
pointer_remove-pointer_add value [] addition fresh h = cc
pointer_remove-pointer_add value (token ∷ []) addition fresh h =
    remove_child-add_child token value addition fresh h
pointer_remove-pointer_add value (token ∷ next ∷ rest) addition fresh h =
    let (child, at, after) = >>=-eq-ok (get_child adds token value) _ h in
    let (inner, added_there, written) =
      >>=-eq-ok (pointer_add child (next ∷ rest) addition) _ after in
    let undone =
      pointer_remove-pointer_add child (next ∷ rest) addition (ground arith) added_there in
    rw (sym (ok_inj written), get_child-put_child adds removes token value inner at, undone)
      (ap (λ v. ok (addition, v))
        (put_child-put_child token value inner child ∙ put_child-same adds token value at))

pub get_child-add_child :
    (token : Text) (value addition : Value) {changed : Value}
    → is_dash token ≡ false
    → add_child token value addition ≡ ok changed
    → get_child reads token changed ≡ ok addition
unfolding container add_child get_child found_or pointer_index
get_child-add_child token (map entries) addition other h =
    ground (arith, get_field-insert_field token addition entries)
get_child-add_child token (list items) addition other h = elim (Option-cases (parse_usize token)) [
  | inl none_parsed ↦ absurd (ground arith)
  | inr (index, parsed) ↦ ground (
    arith,
    item_count-insert_item items index addition,
    get_item-insert_item items index addition,
  )
]
get_child-add_child token _ addition other h = cc

-- After an addition the pointer reads the added value, unless it ends in `-`.
pub pointer_get-pointer_add :
    (value : Value) (tokens : List Text) (addition : Value) {changed : Value}
    → ends_in_dash tokens ≡ false
    → pointer_add value tokens addition ≡ ok changed
    → pointer_get changed tokens ≡ ok addition
unfolding pointer_add pointer_get
pointer_get-pointer_add value [] addition other h = sym h
pointer_get-pointer_add value (token ∷ []) addition other h =
    rw (get_child-add_child token value addition other h) refl
pointer_get-pointer_add value (token ∷ next ∷ rest) addition other h =
    let (child, at, after) = >>=-eq-ok (get_child adds token value) _ h in
    let (inner, added_there, written) =
      >>=-eq-ok (pointer_add child (next ∷ rest) addition) _ after in
    rw (sym (ok_inj written), get_child-put_child adds reads token value inner at)
      (pointer_get-pointer_add child (next ∷ rest) addition other added_there)
