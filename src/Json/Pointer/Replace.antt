-- ===== src/Json/Pointer/Replace.antt =====
-- `pointer_set` and `pointer_get` of src/json.rs along one pointer, and along two that part.
use mathlib.Core.Path.{◌≡◌, refl, ap, sym, ◌∙◌}
use mathlib.Core.Bool.{Bool, true, false}
use mathlib.Core.Option.{some}
use mathlib.Core.List.{List, [], ◌∷◌}
use native.Mathlib.Omega.{arith}
use Prim.Native.Nat.{ℕ}
use mathlib.Core.Path.{subst}
use mathlib.Core.Logic.{inl, inr}
use mux_runtime.Common.{ok_inj, Bool-cases, Option-cases, ok, >>=-eq-ok}
use mux_runtime.Common.Text.{Text}
use mux_runtime.Json.Token.{Purpose, reads, sets, is_dash, pointer_index}
use mux_runtime.Common.Text.{parse_usize, parse_digits}
use mux_runtime.Json.Value.{Value, map, list, container, item_count, Items, set_item}
use mux_runtime.Json.Value.Laws.{get_item-set_item, eqb_text_eq, get_field-insert_field}
use mux_runtime.Json.Pointer.{get_child, put_child, set_child, found_or, pointer_get, pointer_set}
use mux_runtime.Json.Pointer.Child.{
  get_child-any, get_child-put_child, put_child-same, put_child-put_child, get_child-list,
  list-get_child, Names, Names-set_item,
}

-- The token `-` is no number.
pub parse_usize-dash :
    (token : Text) {index : ℕ} → parse_usize token ≡ some index → is_dash token ≡ false
unfolding parse_usize parse_digits
parse_usize-dash token {index} h = elim (Bool-cases (is_dash token)) [
  | inl dash ↦
      absurd (cc (subst (λ t. parse_usize t ≡ some index) (eqb_text_eq token (b'-' ∷ []) dash) h))
  | inr other ↦ other
]

pub pointer_index-append :
    (token : Text) (index : ℕ) (items : Items)
    → Names token index items
    → pointer_index token (item_count items) true ≡ ok (some index)
unfolding pointer_index
pointer_index-append token index items (parsed, canonical, low) =
    ground (arith, parse_usize-dash token parsed)

-- Where a child is, the last token of `pointer_set` writes as an inner one does.
pub set_child-put_child :
    (p : Purpose) (token : Text) (value new : Value) {child : Value}
    → get_child p token value ≡ ok child
    → set_child token value new ≡ ok (put_child token new value)
unfolding container set_child put_child get_child
set_child-put_child p token (map entries) new h = refl
set_child-put_child p token (list items) new h =
    let (index, names, found) = get_child-list p token items h in
    let parsed = names.0 in ground (arith, pointer_index-append token index items names)
set_child-put_child p token _ new h = cc

-- Does the pointer end in `-`, the place behind the last item?
abbrev pub ends_in_dash : List Text → Bool
ends_in_dash [] = false
ends_in_dash (token ∷ []) = is_dash token
ends_in_dash (token ∷ next ∷ rest) = ends_in_dash (next ∷ rest)

pub set_child-list :
    (token : Text) (items : Items) (new : Value) {changed : Value}
    → is_dash token ≡ false
    → set_child token (list items) new ≡ ok changed
    → (index : ℕ) × Names token index items × (changed ≡ list (set_item items index new))
unfolding container set_child pointer_index
set_child-list token items new other h = elim (Option-cases (parse_usize token)) [
  | inl none_parsed ↦ absurd (ground arith)
  | inr (index, parsed) ↦ (index, (parsed, ground arith, ground arith), ground arith)
]

pub get_child-set_child :
    (p : Purpose) (token : Text) (value new : Value) {changed : Value}
    → is_dash token ≡ false
    → set_child token value new ≡ ok changed
    → get_child p token changed ≡ ok new
unfolding container set_child get_child found_or
get_child-set_child p token (map entries) new other h =
    ground (arith, get_field-insert_field token new entries)
get_child-set_child p token (list items) new other h =
    let (index, names, written) = set_child-list token items new other h in
    rw written (
      list-get_child p token (set_item items index new) index
        (Names-set_item token items index index new names)
        (get_item-set_item items index new names.2))
get_child-set_child p token _ new other h = cc

-- After `pointer_set` the pointer reads the replacement, whether or not there was a value at it, unless
-- it ends in `-`.
pub pointer_get-pointer_set :
    (value : Value) (tokens : List Text) (replacement : Value) {changed : Value}
    → ends_in_dash tokens ≡ false
    → pointer_set value tokens replacement ≡ ok changed
    → pointer_get changed tokens ≡ ok replacement
unfolding pointer_set pointer_get
pointer_get-pointer_set value [] replacement other h = sym h
pointer_get-pointer_set value (token ∷ []) replacement other h =
    rw (get_child-set_child reads token value replacement other h) refl
pointer_get-pointer_set value (token ∷ next ∷ rest) replacement other h =
    let (child, at, after) = >>=-eq-ok (get_child sets token value) _ h in
    let (inner, set_there, written) =
      >>=-eq-ok (pointer_set child (next ∷ rest) replacement) _ after in
    rw (sym (ok_inj written), get_child-put_child sets reads token value inner at)
      (pointer_get-pointer_set child (next ∷ rest) replacement other set_there)

-- Where the pointer reads a value, `pointer_set` succeeds, the pointer then reads the replacement, and
-- setting the old value again gives back the whole document.
pub pointer_set-undo :
    (value : Value) (tokens : List Text) (replacement : Value) {old : Value}
    → pointer_get value tokens ≡ ok old
    → (changed : Value) × (pointer_set value tokens replacement ≡ ok changed)
      × (pointer_get changed tokens ≡ ok replacement)
      × (pointer_set changed tokens old ≡ ok value)
unfolding pointer_set pointer_get
pointer_set-undo value [] replacement h = (replacement, refl, refl, sym h)
pointer_set-undo value (token ∷ []) replacement {old} h =
    let (child, at, same) = >>=-eq-ok (get_child reads token value) _ h in
    let back = get_child-put_child reads reads token value replacement at in
    (
      put_child token replacement value,
      set_child-put_child reads token value replacement at,
      rw back refl,
      set_child-put_child reads token (put_child token replacement value) old back
          ∙ ap ok (
              put_child-put_child token value replacement old
              ∙ put_child-same reads token value (at ∙ same)),
    )
pointer_set-undo value (token ∷ next ∷ rest) replacement {old} h =
    let (child, at, after) = >>=-eq-ok (get_child reads token value) _ h in
    let (inner, set_there, read_there, undone) =
      pointer_set-undo child (next ∷ rest) replacement after in
    (
      put_child token inner value,
      rw (get_child-any reads sets token value at, set_there) refl,
      rw (get_child-put_child reads reads token value inner at) read_there,
      rw (get_child-put_child reads sets token value inner at, undone)
          (ap ok
            (put_child-put_child token value inner child ∙ put_child-same reads token value at)),
    )
