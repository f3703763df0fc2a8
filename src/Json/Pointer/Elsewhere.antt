-- ===== src/Json/Pointer/Elsewhere.antt =====
-- What `pointer_set` of src/json.rs does to the values at other pointers.
use Prim.Native.Nat.{ℕ}
use mathlib.Core.Path.{◌≡◌, refl, sym, subst, ap}
use mathlib.Core.Logic.{inl, inr}
use mathlib.Core.Bool.{Bool, true, false, not}
use mathlib.Core.Option.{none, some}
use mathlib.Core.List.{List, [], ◌∷◌}
use native.Mathlib.Omega.{arith}
use mux_runtime.Common.{ok_inj, Bool-cases, Option-cases, if◌then◌else◌, ◌==◌, ok, >>=-eq-ok}
use mux_runtime.Common.Text.{Text, eqb_text}
use mux_runtime.Json.Token.{Purpose, missing, reads, sets, is_dash, pointer_index}
use mux_runtime.Common.Text.{parse_usize}
use mux_runtime.Json.Value.{Value, Items, map, list, container, set_item}
use mux_runtime.Json.Value.Laws.{
  eqb_text_eq, eqb_text_flip, get_field-insert_field_apart, get_item-set_item_ne,
  item_count-set_item,
}
use mux_runtime.Json.Pointer.{found_or, get_child, put_child, set_child, pointer_get, pointer_set}
use mux_runtime.Json.Pointer.Child.{get_child-any, get_child-put_child, put_child-list}
use mux_runtime.Json.Pointer.Replace.{ends_in_dash, set_child-list}

-- Do two tokens name one place of an array, as `+1` and `1` do?
abbrev pub same_index : Text → Text → Bool
same_index t u = elim (parse_usize t) [
  | none ↦ false
  | some i ↦ elim (parse_usize u) [ none ↦ false | some j ↦ i == j ]
]

-- Do two pointers part at some token, so that neither leads through the other?
abbrev pub part : List Text → List Text → Bool
part [] us = false
part (t ∷ ts) [] = false
part (t ∷ ts) (u ∷ us) = if eqb_text t u then part ts us else not (same_index t u)

-- Another item than the one written is read as before.
pub list-elsewhere :
    (p : Purpose) (t u : Text) (items : Items) (index : ℕ) (new : Value)
    → parse_usize t ≡ some index
    → same_index t u ≡ false
    → get_child p u (list (set_item items index new)) ≡ get_child p u (list items)
unfolding container get_child pointer_index
list-elsewhere p t u items index new parsed other = elim (Option-cases (parse_usize u)) [
  | inl none_parsed ↦ ground (arith, item_count-set_item items index new)
  | inr (place, named) ↦ ground (
    arith,
    item_count-set_item items index new,
    get_item-set_item_ne items index place new (ground arith),
  )
]

pub get_child-put_child_part :
    (p : Purpose) (t u : Text) (value new : Value)
    → eqb_text t u ≡ false
    → same_index t u ≡ false
    → get_child p u (put_child t new value) ≡ get_child p u value
unfolding container get_child put_child
get_child-put_child_part p t u (map entries) new apart other =
    ap (λ o. found_or (missing p u) o)
      (get_field-insert_field_apart u t new entries (eqb_text_flip t u apart) apart)
get_child-put_child_part p t u (list items) new apart other = elim (Option-cases (parse_usize t)) [
  | inl none_parsed ↦ ground arith
  | inr (index, parsed) ↦
      rw (put_child-list t items index new parsed)
        (list-elsewhere p t u items index new parsed other)
]
get_child-put_child_part p t u _ new apart other = refl

pub get_child-set_child_part :
    (p : Purpose) (t u : Text) (value new : Value) {changed : Value}
    → is_dash t ≡ false
    → eqb_text t u ≡ false
    → same_index t u ≡ false
    → set_child t value new ≡ ok changed
    → get_child p u changed ≡ get_child p u value
unfolding container get_child set_child
get_child-set_child_part p t u (map entries) new no_dash apart other h = rw (sym (ok_inj h)) (
    ap (λ o. found_or (missing p u) o)
      (get_field-insert_field_apart u t new entries (eqb_text_flip t u apart) apart))
get_child-set_child_part p t u (list items) new no_dash apart other h =
    let (index, names, written) = set_child-list t items new no_dash h in
    rw written (list-elsewhere p t u items index new names.0 other)
get_child-set_child_part p t u _ new no_dash apart other h = cc

-- A pointer that parts from the one written reads what it read before, and fails where it failed.
pub pointer_set-elsewhere :
    (value : Value) (ts us : List Text) (replacement : Value) {changed : Value}
    → part ts us ≡ true
    → ends_in_dash ts ≡ false
    → pointer_set value ts replacement ≡ ok changed
    → pointer_get changed us ≡ pointer_get value us
unfolding pointer_set pointer_get
pointer_set-elsewhere value [] us replacement parted no_dash h = cc
pointer_set-elsewhere value (t ∷ ts) [] replacement parted no_dash h = cc
pointer_set-elsewhere value (t ∷ []) (u ∷ us) replacement parted no_dash h =
    rw
      (get_child-set_child_part reads t u value replacement no_dash (ground arith) (ground arith) h)
      refl
pointer_set-elsewhere value (t ∷ next ∷ ts) (u ∷ us) replacement {changed} parted no_dash h =
    let (child, at, after) = >>=-eq-ok (get_child sets t value) _ h in
    let (inner, set_there, written) =
      >>=-eq-ok (pointer_set child (next ∷ ts) replacement) _ after in
    elim (Bool-cases (eqb_text t u)) [
      | inl same ↦
          let t_at : get_child reads u (put_child t inner value) ≡ ok inner =
            subst (λ z. get_child reads z (put_child t inner value) ≡ ok inner)
              (eqb_text_eq t u same) (get_child-put_child sets reads t value inner at) in
          let u_at : get_child reads u value ≡ ok child =
            subst (λ z. get_child reads z value ≡ ok child) (eqb_text_eq t u same)
              (get_child-any sets reads t value at) in
          rw (sym (ok_inj written), t_at, u_at)
            (pointer_set-elsewhere child (next ∷ ts) us replacement (ground arith) no_dash
              set_there)
      | inr apart ↦
          rw
            (
              sym (ok_inj written),
              get_child-put_child_part reads t u value inner apart (ground arith),
            )
            refl
    ]
