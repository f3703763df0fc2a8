-- ===== src/Json/Merge/Reference.antt =====
-- `apply_merge_patch` of src/json.rs beside the pseudocode of RFC 7396.
use mathlib.Core.Path.{◌≡◌, refl, sym, ap, ◌∙◌}
use mathlib.Core.Bool.{Bool, true, false}
use mathlib.Core.Option.{Option, none, some}
use native.Mathlib.Omega.{arith}
use mux_runtime.Common.{if◌then◌else◌}
use mux_runtime.Common.Text.{Text, eqb_text}
use mux_runtime.Json.Value.{
  unit, Value, Fields, string, map, end, field, get_field, insert_field, remove_field,
}
use mux_runtime.Json.Value.Laws.{eqb_text_flip}
use mux_runtime.Json.Equality.{Host}
use mux_runtime.Json.Patch.{is_representable}
use mux_runtime.Common.{ok}
use mux_runtime.Json.Merge.{
  mux_json_merge_patch, is_unit, target_entries, merge_entry, merge_entries, apply_merge_patch,
}

-- The target may be undefined, as that of a member that is not there.
abbrev pub entries_of : Option Value → Fields
entries_of none = end
entries_of (some value) = target_entries value

abbrev pub reference_entry : Text → Value → (Option Value → Value) → Fields → Fields
reference_entry name patch_value merge entries =
    if is_unit patch_value
    then remove_field name entries
    else insert_field name (merge (get_field name entries)) entries

unfoldable mutual
  pub merge_patch : Option Value → Value → Value
  merge_patch target (map patch_entries) = map (merge_members (entries_of target) patch_entries)
  merge_patch target patch = patch

  pub merge_members : Fields → Fields → Fields
  merge_members entries end = entries
  merge_members entries (field (string name) patch_value rest) =
      merge_members
        (reference_entry name patch_value (λ target. merge_patch target patch_value) entries) rest
  merge_members entries (field _ patch_value rest) = merge_members entries rest

-- A value without a null in an object of its own, whose objects have each name once
abbrev mutual
  pub IsClean : Value → Type 0
  IsClean (map entries) = IsCleanFields entries
  IsClean _ = Unit

  pub IsCleanFields : Fields → Type 0
  IsCleanFields end = Unit
  IsCleanFields (field (string name) value rest) =
      (is_unit value ≡ false) × (get_field name rest ≡ none) × IsClean value × IsCleanFields rest
  IsCleanFields (field _ value rest) = true ≡ false

-- What a patch sets at a name that the target lacks is clean; at a name that is there, the same holds
-- for the value there.
abbrev pub SettledEntry : Text → Value → (Value → Type 0) → Fields → Type 0
SettledEntry name patch_value settled entries =
    if is_unit patch_value then Unit else (elim (get_field name entries) [
      | some existing ↦ settled existing
      | none ↦ IsClean patch_value
    ])

abbrev mutual
  pub Settled : Value → Value → Type 0
  Settled target (map patch_entries) = SettledEntries (target_entries target) patch_entries
  Settled target _ = Unit

  pub SettledEntries : Fields → Fields → Type 0
  SettledEntries entries end = Unit
  SettledEntries entries (field (string name) patch_value rest) =
      SettledEntry name patch_value (λ existing. Settled existing patch_value) entries
      × SettledEntries
          (merge_entry name patch_value (λ existing. apply_merge_patch existing patch_value)
            entries)
          rest
  SettledEntries entries (field _ patch_value rest) = SettledEntries entries rest

pub get_field-first :
    (name other : Text) (value : Value) (entries : Fields)
    → eqb_text name other ≡ false
    → get_field other (field (string name) value entries) ≡ get_field other entries
unfolding get_field
get_field-first name other value entries apart = rw apart refl

pub reference_entry-first :
    (name other : Text) (value patch_value : Value) (merge : Option Value → Value)
    (entries : Fields)
    → eqb_text other name ≡ false
    → reference_entry other patch_value merge (field (string name) value entries)
      ≡ field (string name) value (reference_entry other patch_value merge entries)
unfolding insert_field remove_field
reference_entry-first name other value patch_value merge entries apart = ground (
  arith,
  eqb_text_flip other name apart,
  get_field-first name other value entries (eqb_text_flip other name apart),
)

-- A first field that the patch does not name stays first.
pub merge_members-first :
    (name : Text) (value : Value) (entries patch : Fields)
    → get_field name patch ≡ none
    → merge_members (field (string name) value entries) patch
      ≡ field (string name) value (merge_members entries patch)
unfolding merge_members get_field
merge_members-first name value entries end new = refl
merge_members-first name value entries (field (string other) patch_value rest) new =
    let merge : Option Value → Value = λ target. merge_patch target patch_value in
    rw (reference_entry-first name other value patch_value merge entries (ground arith)) (
      merge_members-first name value (reference_entry other patch_value merge entries) rest
        (ground arith))
merge_members-first name value entries (field _ patch_value rest) new =
    merge_members-first name value entries rest new

mutual
  unfolding merge_patch merge_members get_field insert_field

  -- A clean value is what it makes of nothing.
  pub merge_patch-clean : (value : Value) → IsClean value → merge_patch none value ≡ value
  merge_patch-clean (map entries) clean = ap (λ f. map f) (merge_members-clean entries clean)
  merge_patch-clean _ clean = refl

  pub merge_members-clean :
      (entries : Fields) → IsCleanFields entries → merge_members end entries ≡ entries
  merge_members-clean end clean = refl
  merge_members-clean (field (string name) value rest) (some_value, new, clean, cleans) =
      rw (some_value, merge_patch-clean value clean)
        (merge_members-first name value end rest new
          ∙ ap (λ f. field (string name) value f) (merge_members-clean rest cleans))
  merge_members-clean (field _ value rest) clean = cc

-- One entry, given that the values are merged alike
pub merge_entry-reference :
    (name : Text) (patch_value : Value) (entries : Fields)
    → ((existing : Value)
        → Settled existing patch_value
        → apply_merge_patch existing patch_value ≡ merge_patch (some existing) patch_value)
    → SettledEntry name patch_value (λ existing. Settled existing patch_value) entries
    → merge_entry name patch_value (λ existing. apply_merge_patch existing patch_value) entries
      ≡ reference_entry name patch_value (λ target. merge_patch target patch_value) entries
unfolding merge_entry
merge_entry-reference name patch_value entries same settled =
    step name patch_value entries same (is_unit patch_value) (get_field name entries) settled
  where
    step :
        (name : Text) (patch_value : Value) (entries : Fields)
        (same : (existing : Value)
          → Settled existing patch_value
          → apply_merge_patch existing patch_value ≡ merge_patch (some existing) patch_value)
        (null : Bool) (old : Option Value)
        → (if null then Unit else (elim old [
          | some existing ↦ Settled existing patch_value
          | none ↦ IsClean patch_value
        ]))
        → (if null then remove_field name entries else (elim old [
          | some existing ↦ insert_field name (apply_merge_patch existing patch_value) entries
          | none ↦ insert_field name patch_value entries
        ]))
          ≡ (if null
              then remove_field name entries
              else insert_field name (merge_patch old patch_value) entries)
    step name patch_value entries same true old settled = refl
    step name patch_value entries same false none settled =
        ap (λ v. insert_field name v entries) (sym (merge_patch-clean patch_value settled))
    step name patch_value entries same false (some existing) settled =
        ap (λ v. insert_field name v entries) (same existing settled)

mutual
  unfolding apply_merge_patch merge_entries merge_patch merge_members

  pub apply_merge_patch-reference :
      (target patch : Value)
      → Settled target patch
      → apply_merge_patch target patch ≡ merge_patch (some target) patch
  apply_merge_patch-reference target (map entries) settled =
      ap (λ f. map f) (merge_entries-reference (target_entries target) entries settled)
  apply_merge_patch-reference target _ settled = refl

  pub merge_entries-reference :
      (entries patch : Fields)
      → SettledEntries entries patch
      → merge_entries entries patch ≡ merge_members entries patch
  merge_entries-reference entries end settled = refl
  merge_entries-reference entries (field (string name) patch_value rest) (here, settled) =
      merge_entries-reference
        (merge_entry name patch_value (λ existing. apply_merge_patch existing patch_value) entries)
        rest settled
      ∙ ap (λ f. merge_members f rest)
          (merge_entry-reference name patch_value entries
            (λ existing. apply_merge_patch-reference existing patch_value) here)
  merge_entries-reference entries (field _ patch_value rest) settled =
      merge_entries-reference entries rest settled

-- A representable patch is merged as RFC 7396 has it, wherever it sets only clean values at names that
-- the target lacks: a null inside such a value would be written, not dropped.
pub mux_json_merge_patch-reference :
    (host : Host) (target patch : Value)
    → is_representable host patch ≡ true
    → Settled target patch
    → mux_json_merge_patch host (some target) (some patch)
      ≡ (some (merge_patch (some target) patch), ok unit)
unfolding mux_json_merge_patch
mux_json_merge_patch-reference host target patch representable settled =
    rw (representable, apply_merge_patch-reference target patch settled) refl
