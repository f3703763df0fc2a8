-- ===== src/Json/Value/Abstract.antt =====
-- The fields of an object beside the abstract view of the ordered map (Ordered.Spec), for whatever
-- equality of the keys.
use mathlib.Core.Path.{◌≡◌, refl, sym, ap, ◌∙◌, subst}
use mathlib.Core.Logic.{inl, inr}
use mathlib.Core.Bool.{true}
use mathlib.Core.List.{List, [], ◌∷◌}
use native.Mathlib.Omega.{arith}
use mux_runtime.Common.{Eq, Bool-cases}
use mux_runtime.Common.Text.{Text}
use mux_runtime.Ordered.Spec.{lookup, assign, erase}
use mux_runtime.Json.Value.{
  Value, Fields, string, end, field, is_named, get_field, insert_field, remove_field,
}
use mux_runtime.Json.Value.Laws.{eqb_text_refl, eqb_text_eq}

abbrev pub pairs : Fields → List (Value × Value)
pairs end = []
pairs (field key value rest) = (key, value) ∷ pairs rest

pub is_named_eq : (name : Text) (key : Value) → is_named name key ≡ true → key ≡ string name
is_named_eq name (string text) h = ap (λ t. string t) (eqb_text_eq text name h)
is_named_eq name _ h = cc

module _ ⦃q : Eq Value⦄ where
  pub beq-is_named : (name : Text) (key : Value) → q.beq key (string name) ≡ is_named name key
  beq-is_named name key = elim (Bool-cases (is_named name key)) [
    | inl named ↦ (q.beq_iff key (string name)).1 (is_named_eq name key named) ∙ sym named
    | inr other ↦ elim (Bool-cases (q.beq key (string name))) [
      | inl same ↦
          same
          ∙ sym (
              subst (λ k. is_named name k ≡ true) (sym ((q.beq_iff key (string name)).0 same))
                (eqb_text_refl name))
      | inr apart ↦ apart ∙ sym other
    ]
  ]

  pub get_field-lookup :
      (name : Text) (entries : Fields)
      → get_field name entries ≡ lookup (string name) (pairs entries)
  unfolding get_field
  get_field-lookup name end = refl
  get_field-lookup name (field key value rest) =
      rw (beq-is_named name key, get_field-lookup name rest) refl

  pub insert_field-assign :
      (name : Text) (new : Value) (entries : Fields)
      → pairs (insert_field name new entries) ≡ assign (string name) new (pairs entries)
  unfolding insert_field
  insert_field-assign name new end = refl
  insert_field-assign name new (field key value rest) =
      ground (arith, beq-is_named name key, insert_field-assign name new rest)

  pub remove_field-erase :
      (name : Text) (entries : Fields)
      → pairs (remove_field name entries) ≡ erase (string name) (pairs entries)
  unfolding remove_field
  remove_field-erase name end = refl
  remove_field-erase name (field key value rest) =
      ground (arith, beq-is_named name key, remove_field-erase name rest)
