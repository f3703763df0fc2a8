-- ===== src/Json/Pointer/Child.antt =====
-- One step into a document and the write through it (src/json.rs): lemmas on `get_child` and
-- `put_child`.
use Prim.Native.Nat.{ℕ, ◌<◌}
use mathlib.Core.Path.{◌≡◌, refl, ap, sym, ◌∙◌}
use mathlib.Core.Logic.{◌≢◌}
use mathlib.Core.Bool.{Bool, false}
use mathlib.Core.Option.{none, some}
use native.Mathlib.Omega.{arith}
use mathlib.Core.Logic.{inl, inr}
use mux_runtime.Common.{Option-cases, ok}
use mux_runtime.Common.Text.{Text}
use mux_runtime.Json.Token.{Purpose, is_padded, pointer_index}
use mux_runtime.Common.Text.{parse_usize}
use mux_runtime.Json.Value.{Value, Items, map, list, container, item_count, get_item, set_item}
use mux_runtime.Json.Value.Laws.{
  get_field-insert_field, insert_field-same, insert_field-insert_field, item_count-set_item,
  get_item-set_item, set_item-same, set_item-set_item, get_item_lt,
}
use mux_runtime.Json.Pointer.{found_or, get_child, put_child}

-- An index that is accepted is the number in the token, and it lies in the array.
pub pointer_index-eq_some :
    (token : Text) (length : ℕ) (append : Bool) {index : ℕ}
    → pointer_index token length append ≡ ok (some index)
    → (parse_usize token ≡ some index) × (index < length)
unfolding pointer_index
pointer_index-eq_some token length append h = ground arith

pub pointer_index-ne_none : (token : Text) (length : ℕ) → pointer_index token length false ≢ ok none
unfolding pointer_index
pointer_index-ne_none token length = ground arith

-- The token names a place of an array.
abbrev pub Names : Text → ℕ → Items → Type 0
Names token index items =
    (parse_usize token ≡ some index) × (is_padded token ≡ false) × (index < item_count items)

pub pointer_index-Names :
    (token : Text) (index : ℕ) (items : Items)
    → Names token index items
    → pointer_index token (item_count items) false ≡ ok (some index)
unfolding pointer_index
pointer_index-Names token index items (parsed, canonical, low) = ground arith

pub get_child-list :
    (p : Purpose) (token : Text) (items : Items) {child : Value}
    → get_child p token (list items) ≡ ok child
    → (index : ℕ) × Names token index items × (get_item items index ≡ some child)
unfolding container get_child pointer_index found_or
get_child-list p token items h = elim (Option-cases (parse_usize token)) [
  | inl none_parsed ↦ absurd (ground arith)
  | inr (index, parsed) ↦
      (index, (parsed, ground arith, ground arith), ground (arith, get_item_lt items index))
]

pub list-get_child :
    (p : Purpose) (token : Text) (items : Items) (index : ℕ) {child : Value}
    → Names token index items
    → get_item items index ≡ some child
    → get_child p token (list items) ≡ ok child
unfolding container get_child found_or
list-get_child p token items index names found =
    ground (arith, pointer_index-Names token index items names)

pub put_child-list :
    (token : Text) (items : Items) (index : ℕ) (new : Value)
    → parse_usize token ≡ some index
    → put_child token new (list items) ≡ list (set_item items index new)
unfolding container put_child
put_child-list token items index new parsed = ground arith

pub Names-set_item :
    (token : Text) (items : Items) (index place : ℕ) (new : Value)
    → Names token index items
    → Names token index (set_item items place new)
Names-set_item token items index place new (parsed, canonical, low) =
    (parsed, canonical, omega (arith, item_count-set_item items place new))

-- What was written through a borrow is read there.
pub get_child-put_child :
    (p q : Purpose) (token : Text) (value new : Value) {child : Value}
    → get_child p token value ≡ ok child
    → get_child q token (put_child token new value) ≡ ok new
unfolding container get_child put_child found_or
get_child-put_child p q token (map entries) new h =
    ground (arith, get_field-insert_field token new entries)
get_child-put_child p q token (list items) new h =
    let (index, names, found) = get_child-list p token items h in
    rw (put_child-list token items index new names.0) (
      list-get_child q token (set_item items index new) index
        (Names-set_item token items index index new names)
        (get_item-set_item items index new names.2))
get_child-put_child p q token _ new h = cc

-- Writing back what was read changes nothing.
pub put_child-same :
    (p : Purpose) (token : Text) (value : Value) {child : Value}
    → get_child p token value ≡ ok child
    → put_child token child value ≡ value
unfolding container get_child put_child found_or
put_child-same p token (map entries) {child} h =
    ground (arith, insert_field-same token child entries)
put_child-same p token (list items) {child} h =
    let (index, names, found) = get_child-list p token items h in
    put_child-list token items index child names.0
    ∙ ap (λ i. list i) (set_item-same items index child found)
put_child-same p token _ h = cc

-- The last write counts.
pub put_child-put_child :
    (token : Text) (value first second : Value)
    → put_child token second (put_child token first value) ≡ put_child token second value
unfolding container put_child
put_child-put_child token (map entries) first second =
    ap (λ f. map f) (insert_field-insert_field token first second entries)
put_child-put_child token (list items) first second = elim (Option-cases (parse_usize token)) [
  | inl none_parsed ↦ ground arith
  | inr (index, parsed) ↦ rw (put_child-list token items index first parsed) (
      put_child-list token (set_item items index first) index second parsed
      ∙ ap (λ i. list i) (set_item-set_item items index first second)
      ∙ sym (put_child-list token items index second parsed))
]
put_child-put_child token _ first second = refl

-- A child is there whoever asks.
pub get_child-any :
    (p q : Purpose) (token : Text) (value : Value) {child : Value}
    → get_child p token value ≡ ok child
    → get_child q token value ≡ ok child
unfolding container get_child found_or
get_child-any p q token (map entries) h = ground arith
get_child-any p q token (list items) h =
    let (index, names, found) = get_child-list p token items h in
    list-get_child q token items index names found
get_child-any p q token _ h = cc
