-- ===== src/Json/Patch/Carry.antt =====
-- The operations `copy` and `move` of a JSON Patch (src/json.rs): the value that they carry.
use mathlib.Core.Path.{◌≡◌, refl, sym, ap, ◌∙◌}
use mathlib.Core.Bool.{Bool, true, false, ◌&&◌}
use mathlib.Core.List.{List}
use mux_runtime.Common.{
  ok_inj, ◌⊎◌, inl, inr, Bool-cases, if◌then◌else◌, ltb, length, Result, ok, err, ◌>>=◌, >>=-eq-ok,
}
use mux_runtime.Common.Text.{Text}
use mux_runtime.Json.Token.{JsonError, into_own_child, decode_pointer_text}
use mux_runtime.Json.Value.{Value, Fields}
use mux_runtime.Json.Pointer.{pointer_get, pointer_add, pointer_remove}
use mux_runtime.Json.Pointer.Replace.{ends_in_dash}
use mux_runtime.Json.Pointer.Undo.{pointer_get-pointer_add, pointer_get-pointer_remove}
use mux_runtime.Json.Patch.{string_field, from_key, starts_with, patch_copy, patch_move}

abbrev pub into_child : List Text → List Text → Bool
into_child tokens from_tokens =
    ltb (length from_tokens) (length tokens) && starts_with tokens from_tokens

-- The member `from` of the operation, decoded
abbrev pub source_tokens : Fields → Result JsonError (List Text)
source_tokens fields = string_field fields from_key >>= λ from. decode_pointer_text from

-- A copy that succeeds leaves at the path what it read at `from`, unless the path ends in `-`.
pub patch_copy-carries :
    (fields : Fields) (document : Value) (tokens : List Text) {changed : Value}
    → ends_in_dash tokens ≡ false
    → patch_copy fields document tokens ≡ ok changed
    → (from_tokens : List Text) × (source_tokens fields ≡ ok from_tokens)
      × (pointer_get changed tokens ≡ pointer_get document from_tokens)
unfolding patch_copy
patch_copy-carries fields document tokens other h =
    let (from, named, h1) = >>=-eq-ok (string_field fields from_key) _ h in
    let (from_tokens, decoded, h2) = >>=-eq-ok (decode_pointer_text from) _ h1 in
    let (source, read, h3) = >>=-eq-ok (pointer_get document from_tokens) _ h2 in
    (
      from_tokens,
      ap (λ r. r >>= λ from. decode_pointer_text from) named ∙ decoded,
      pointer_get-pointer_add document tokens source other h3 ∙ sym read,
    )

pub passed :
    (b : Bool) (e : JsonError) (rest : Result JsonError Value) {changed : Value}
    → (if b then err e else rest) ≡ ok changed
    → (b ≡ false) × (rest ≡ ok changed)
passed true e rest h = cc
passed false e rest h = (refl, h)

-- A move that succeeds, to any path, is not into a child of its source and is the removal at `from`
-- followed by the addition of the removed value; where the path does not end in `-`, the value found at
-- the path afterwards is what was at `from`.
pub patch_move-carries :
    (fields : Fields) (document : Value) (tokens : List Text) {changed : Value}
    → patch_move fields document tokens ≡ ok changed
    → (from_tokens : List Text) × (removed between : Value) × (source_tokens fields
        ≡ ok from_tokens)
      × (into_child tokens from_tokens ≡ false)
      × (pointer_remove document from_tokens ≡ ok (removed, between))
      × (pointer_add between tokens removed ≡ ok changed)
      × ((ends_in_dash tokens ≡ true)
          ⊎ (pointer_get changed tokens ≡ pointer_get document from_tokens))
unfolding patch_move
patch_move-carries fields document tokens {changed} h =
    let (from, named, h1) = >>=-eq-ok (string_field fields from_key) _ h in
    let (from_tokens, decoded, h2) = >>=-eq-ok (decode_pointer_text from) _ h1 in
    let (outside, h3) = passed (into_child tokens from_tokens) into_own_child _ h2 in
    let (source, read, h4) = >>=-eq-ok (pointer_get document from_tokens) _ h3 in
    let ((removed, between), taken, h5) = >>=-eq-ok (pointer_remove document from_tokens) _ h4 in
    let same : removed ≡ source =
      ok_inj (sym (pointer_get-pointer_remove document from_tokens taken) ∙ read) in
    let added : pointer_add between tokens removed ≡ ok changed =
      ap (λ v. pointer_add between tokens v) same ∙ h5 in
    (
      from_tokens,
      removed,
      between,
      ap (λ r. r >>= λ from. decode_pointer_text from) named ∙ decoded,
      outside,
      taken,
      added,
      elim (Bool-cases (ends_in_dash tokens)) [
        | inl dash ↦ inl dash
        | inr other ↦ inr (
            pointer_get-pointer_add between tokens removed other added
            ∙ sym (pointer_get-pointer_remove document from_tokens taken))
      ],
    )
