-- ===== src/Json/Convert.antt =====
-- `value_to_json` and `json_to_value` of src/json.rs. The one reads the table of the numbers, the other
-- adds to it. The map of the indexmap crate is as the host has it.
pub mod Growth
pub mod RoundTrip
use Prim.Native.Nat.{ℕ}
use mathlib.Core.Bool.{Bool, true, false}
use mathlib.Core.Option.{Option, none, some}
use mux_runtime.Common.{if◌then◌else◌, Result, ok, err, ◌>>=◌}
use mux_runtime.Common.Int.{ℤ}
use mux_runtime.Common.Text.{Text, eqb_text}
use mux_runtime.Json.Token.{JsonError, nan, infinity, non_string_key, unsupported_value}
use mux_runtime.Json.Value.{
  Json, JsonItems, JsonMap, json_null, json_bool, json_int, json_float, json_number, json_string,
  json_array, json_object, json_nil, json_item, json_end, json_entry, Value, Items, Fields, unit,
  bool, int, float, string, list, map, object, nil, item, end, field, insert_field, is_finite,
  is_nan,
}
use mux_runtime.Json.Equality.{Host}
use mux_runtime.Json.Numbers.{Numbers, Allocation, json_number_raw, json_number_value}

module _ (host : Host) where
  unfoldable mutual
    unfolding json_number_raw

    pub value_to_json : Value → Result JsonError Json
    value_to_json unit = ok json_null
    value_to_json (bool b) = ok (json_bool b)
    value_to_json (int i) = ok (json_int i)
    value_to_json (float f) =
        if is_finite f then ok (json_float f) else if is_nan f then err nan else err infinity
    value_to_json (string text) = ok (json_string text)
    value_to_json (list items) = items_to_json items >>= λ array. ok (json_array array)
    value_to_json (map entries) = fields_to_json json_end entries >>= λ m. ok (json_object m)
    value_to_json (object handle) = elim (json_number_raw host.numbers handle) [
      | some raw ↦ ok (json_number raw)
      | none ↦ err unsupported_value
    ]
    value_to_json _ = err unsupported_value

    pub items_to_json : Items → Result JsonError JsonItems
    items_to_json nil = ok json_nil
    items_to_json (item value rest) =
        value_to_json value >>= λ j. items_to_json rest >>= λ js. ok (json_item j js)

    -- The loop over the entries, with the map made so far
    pub fields_to_json : JsonMap → Fields → Result JsonError JsonMap
    fields_to_json m end = ok m
    fields_to_json m (field (string key) value rest) =
        value_to_json value >>= λ j. fields_to_json (host.index_insert key j m) rest
    fields_to_json m (field _ value rest) = err non_string_key

-- `allocates` is what the allocation of an object answers.
module _ (allocates : ℕ → Allocation) where
  unfoldable mutual
    unfolding json_number_value

    pub json_to_value : Json → Numbers → Value × Numbers
    json_to_value json_null n = (unit, n)
    json_to_value (json_bool b) n = (bool b, n)
    json_to_value (json_int i) n = (int i, n)
    json_to_value (json_float f) n = (float f, n)
    json_to_value (json_number raw) n = json_number_value allocates raw n
    json_to_value (json_string text) n = (string text, n)
    json_to_value (json_array items) n = let r = items_to_value items n in (list r.0, r.1)
    json_to_value (json_object m) n = let r = fields_to_value end m n in (map r.0, r.1)

    pub items_to_value : JsonItems → Numbers → Items × Numbers
    items_to_value json_nil n = (nil, n)
    items_to_value (json_item j js) n =
        let r = json_to_value j n in let rs = items_to_value js r.1 in (item r.0 rs.0, rs.1)

    -- The loop over the entries, with the map made so far
    pub fields_to_value : Fields → JsonMap → Numbers → Fields × Numbers
    fields_to_value entries json_end n = (entries, n)
    fields_to_value entries (json_entry key j rest) n =
        let r = json_to_value j n in fields_to_value (insert_field key r.0 entries) rest r.1
