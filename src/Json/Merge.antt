-- ===== src/Json/Merge.antt =====
-- JSON Merge Patch (`apply_merge_patch`, `mux_json_merge_patch`) of src/json.rs.
pub mod Reference
use mathlib.Core.Bool.{Bool, true, false, not}
use mathlib.Core.Option.{Option, none, some}
use mux_runtime.Common.{if◌then◌else◌, Result, ok, err}
use mux_runtime.Common.Text.{Text}
use mux_runtime.Json.Token.{JsonError, null_document, null_argument, not_representable}
use mux_runtime.Json.Value.{
  Value, Fields, unit, string, map, end, field, get_field, insert_field, remove_field,
}
use mux_runtime.Json.Equality.{Host}
use mux_runtime.Json.Patch.{Answer, is_representable}

-- `matches!(value, Value::Unit)`
abbrev pub is_unit : Value → Bool
is_unit unit = true
is_unit _ = false

-- The entries of the target, which becomes an empty object where it is none
unfoldable pub target_entries : Value → Fields
target_entries (map entries) = entries
target_entries _ = end

-- One entry of the patch, given how its value is merged into an existing one
unfoldable pub merge_entry : Text → Value → (Value → Value) → Fields → Fields
merge_entry name patch_value merge entries =
    if is_unit patch_value then remove_field name entries else (elim (get_field name entries) [
      | some existing ↦ insert_field name (merge existing) entries
      | none ↦ insert_field name patch_value entries
    ])

unfoldable mutual
  pub apply_merge_patch : Value → Value → Value
  apply_merge_patch target (map patch_entries) =
      map (merge_entries (target_entries target) patch_entries)
  apply_merge_patch target patch = patch

  pub merge_entries : Fields → Fields → Fields
  merge_entries entries end = entries
  merge_entries entries (field (string name) patch_value rest) =
      merge_entries
        (merge_entry name patch_value (λ existing. apply_merge_patch existing patch_value) entries)
        rest
  merge_entries entries (field _ patch_value rest) = merge_entries entries rest

module _ (host : Host) where
  unfoldable pub mux_json_merge_patch : Option Value → Option Value → Answer
  mux_json_merge_patch none patch = (none, err null_document)
  mux_json_merge_patch (some document) none = (some document, err null_argument)
  mux_json_merge_patch (some document) (some patch) =
      if not (is_representable host patch)
      then (some document, err not_representable)
      else (some (apply_merge_patch document patch), ok unit)
