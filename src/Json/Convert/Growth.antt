-- ===== src/Json/Convert/Growth.antt =====
-- What `json_to_value` of src/json.rs leaves of the table of the numbers, and its maps entry by entry.
use Prim.Native.Nat.{ℕ, ◌+◌, ◌≤◌}
use mathlib.Core.Path.{◌≡◌, refl, sym, ap, ◌∙◌, subst}
use mathlib.Core.Bool.{Bool, true, ◌&&◌, not}
use native.Mathlib.Omega.{arith}
use mux_runtime.Common.Text.{Text, eqb_text}
use mux_runtime.Json.Value.{
  Json, JsonItems, JsonMap, json_null, json_bool, json_int, json_float, json_number, json_string,
  json_array, json_object, json_nil, json_item, json_end, json_entry, Value, Fields, string, end,
  field, insert_field, is_finite,
}
use mux_runtime.Json.Value.Laws.{eqb_text_flip, insert_field-first}
use mux_runtime.Json.Numbers.{Numbers, Allocation, allocated, i64_top, json_number_value}
use mux_runtime.Json.Numbers.Laws.{
  IsFresh, Keeps, added-IsFresh, added-Keeps, next_added, json_number_value-allocated,
}
use mux_runtime.Json.Convert.{json_to_value, items_to_value, fields_to_value}

-- Is the name none of the keys?
abbrev pub is_new : Text → JsonMap → Bool
is_new name json_end = true
is_new name (json_entry key j rest) = not (eqb_text key name) && is_new name rest

-- A document whose floats are finite and whose objects have each key once
abbrev mutual
  pub IsSound : Json → Type 0
  IsSound (json_float f) = is_finite f ≡ true
  IsSound (json_array items) = IsSoundItems items
  IsSound (json_object m) = IsSoundMap m
  IsSound _ = Unit

  pub IsSoundItems : JsonItems → Type 0
  IsSoundItems json_nil = Unit
  IsSoundItems (json_item j js) = IsSound j × IsSoundItems js

  pub IsSoundMap : JsonMap → Type 0
  IsSoundMap json_end = Unit
  IsSoundMap (json_entry key j rest) = (is_new key rest ≡ true) × IsSound j × IsSoundMap rest

-- how many numbers of a document keep their spelling
abbrev mutual
  pub number_count : Json → ℕ
  number_count (json_number raw) = 1
  number_count (json_array items) = number_count_items items
  number_count (json_object m) = number_count_map m
  number_count _ = 0

  pub number_count_items : JsonItems → ℕ
  number_count_items json_nil = 0
  number_count_items (json_item j js) = number_count j + number_count_items js

  pub number_count_map : JsonMap → ℕ
  number_count_map json_end = 0
  number_count_map (json_entry key j rest) = number_count j + number_count_map rest

-- A table after `k` numbers were added to it
abbrev pub Grown : Numbers → ℕ → Numbers → Type 0
Grown n k m = IsFresh m × (m.next ≡ n.next + k) × Keeps n m

refl-Grown : (n : Numbers) → IsFresh n → Grown n 0 n
refl-Grown n fresh = (fresh, omega arith, λ r raw h. h)

trans-Grown : (n m l : Numbers) (j k : ℕ) → Grown n j m → Grown m k l → Grown n (j + k) l
trans-Grown n m l j k (fresh, e, keeps) (fresh', e', keeps') =
    (fresh', omega (arith, e, e'), λ r raw h. keeps' r raw (keeps r raw h))

module _ (allocates : ℕ → Allocation) (fine : (k : ℕ) → allocates k ≡ allocated) where
  json_number_value-Grown :
      (raw : Text) (n : Numbers)
      → IsFresh n
      → n.next + 1 ≤ i64_top
      → Grown n 1 (json_number_value allocates raw n).1
  json_number_value-Grown raw n fresh le =
      subst (λ z. Grown n 1 z.1)
        (sym (json_number_value-allocated allocates raw n (fine n.next_object)))
        (
          added-IsFresh raw n (omega (arith, le)) fresh,
          next_added raw n (omega (arith, le)),
          added-Keeps raw n fresh,
        )

  mutual
    unfolding json_to_value items_to_value fields_to_value

    pub json_to_value-Grown :
        (j : Json) (n : Numbers)
        → IsFresh n
        → n.next + number_count j ≤ i64_top
        → Grown n (number_count j) (json_to_value allocates j n).1
    json_to_value-Grown json_null n fresh le = refl-Grown n fresh
    json_to_value-Grown (json_bool b) n fresh le = refl-Grown n fresh
    json_to_value-Grown (json_int i) n fresh le = refl-Grown n fresh
    json_to_value-Grown (json_float f) n fresh le = refl-Grown n fresh
    json_to_value-Grown (json_number raw) n fresh le = json_number_value-Grown raw n fresh le
    json_to_value-Grown (json_string text) n fresh le = refl-Grown n fresh
    json_to_value-Grown (json_array items) n fresh le = items_to_value-Grown items n fresh le
    json_to_value-Grown (json_object m) n fresh le = fields_to_value-Grown end m n fresh le

    pub items_to_value-Grown :
        (items : JsonItems) (n : Numbers)
        → IsFresh n
        → n.next + number_count_items items ≤ i64_top
        → Grown n (number_count_items items) (items_to_value allocates items n).1
    items_to_value-Grown json_nil n fresh le = refl-Grown n fresh
    items_to_value-Grown (json_item j js) n fresh le =
        let m = (json_to_value allocates j n).1 in
        let first = json_to_value-Grown j n fresh (omega (arith, le)) in
        let next = first.1 in
        let rest = items_to_value-Grown js m first.0 (omega (arith, le, next)) in
        trans-Grown n m (items_to_value allocates js m).1 (number_count j) (number_count_items js)
          first rest

    pub fields_to_value-Grown :
        (entries : Fields) (m : JsonMap) (n : Numbers)
        → IsFresh n
        → n.next + number_count_map m ≤ i64_top
        → Grown n (number_count_map m) (fields_to_value allocates entries m n).1
    fields_to_value-Grown entries json_end n fresh le = refl-Grown n fresh
    fields_to_value-Grown entries (json_entry key j rest) n fresh le =
        let r = json_to_value allocates j n in
        let first = json_to_value-Grown j n fresh (omega (arith, le)) in
        let next = first.1 in
        let later =
          fields_to_value-Grown (insert_field key r.0 entries) rest r.1 first.0
            (omega (arith, le, next)) in
        trans-Grown n r.1 (fields_to_value allocates (insert_field key r.0 entries) rest r.1).1
          (number_count j) (number_count_map rest) first later

  -- The entries one by one
  abbrev pub entries_to_value : JsonMap → Numbers → Fields × Numbers
  entries_to_value json_end n = (end, n)
  entries_to_value (json_entry key j rest) n =
      let r = json_to_value allocates j n in
      let rs = entries_to_value rest r.1 in (field (string key) r.0 rs.0, rs.1)

  -- A first field whose key is no later key stays first.
  fields_to_value-first :
      (key : Text) (value : Value) (entries : Fields) (m : JsonMap) (n : Numbers)
      → is_new key m ≡ true
      → fields_to_value allocates (field (string key) value entries) m n ≡ (
        field (string key) value (fields_to_value allocates entries m n).0,
        (fields_to_value allocates entries m n).1,
      )
  unfolding fields_to_value
  fields_to_value-first key value entries json_end n new = refl
  fields_to_value-first key value entries (json_entry other j rest) n new =
      let r = json_to_value allocates j n in
      ap (λ z. fields_to_value allocates z rest r.1)
        (insert_field-first key other value r.0 entries (eqb_text_flip other key (ground arith)))
      ∙ fields_to_value-first key value (insert_field other r.0 entries) rest r.1 (ground arith)

  pub fields_to_value-entries :
      (m : JsonMap) (n : Numbers)
      → IsSoundMap m
      → fields_to_value allocates end m n ≡ entries_to_value m n
  unfolding fields_to_value insert_field
  fields_to_value-entries json_end n sound = refl
  fields_to_value-entries (json_entry key j rest) n (new, sound_j, sound) =
      let r = json_to_value allocates j n in
      fields_to_value-first key r.0 end rest r.1 new
      ∙ ap (λ f. (field (string key) r.0 f.0, f.1)) (fields_to_value-entries rest r.1 sound)

  pub entries_to_value-Grown :
      (m : JsonMap) (n : Numbers)
      → IsSoundMap m
      → IsFresh n
      → n.next + number_count_map m ≤ i64_top
      → Grown n (number_count_map m) (entries_to_value m n).1
  entries_to_value-Grown m n sound fresh le =
      subst (λ z. Grown n (number_count_map m) z.1) (fields_to_value-entries m n sound)
        (fields_to_value-Grown end m n fresh le)
