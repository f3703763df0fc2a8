-- ===== src/Json/Convert/RoundTrip.antt =====
-- `value_to_json` after `json_to_value` (src/json.rs).
use Prim.Native.Nat.{ℕ, ◌+◌, ◌≤◌}
use mathlib.Core.Path.{◌≡◌, refl, sym, ap, ◌∙◌, subst}
use mathlib.Core.Option.{none}
use mathlib.Core.Bool.{false, true}
use native.Mathlib.Omega.{arith}
use mux_runtime.Common.{◌⊎◌, inl, inr, Option-cases, ok_inj, ok, >>=-eq-ok}
use mux_runtime.Common.Text.{Text, eqb_text}
use mux_runtime.Json.Value.{
  Json, JsonItems, JsonMap, json_null, json_bool, json_int, json_float, json_number, json_string,
  json_array, json_object, json_nil, json_item, json_end, json_entry, map,
}
use mux_runtime.Json.Value.Laws.{eqb_text_flip}
use mux_runtime.Json.Equality.{Host}
use mux_runtime.Json.Numbers.{Numbers, Allocation, allocated, i64_top, json_number_raw}
use mux_runtime.Json.Numbers.Laws.{IsFresh, Keeps, raw_added, json_number_value-allocated}
use mux_runtime.Json.Convert.{
  value_to_json, items_to_json, fields_to_json, json_to_value, items_to_value,
}
use mux_runtime.Json.Convert.Growth.{
  is_new, IsSound, IsSoundItems, IsSoundMap, number_count, number_count_items, number_count_map,
  json_to_value-Grown, items_to_value-Grown, fields_to_value-entries, entries_to_value,
  entries_to_value-Grown,
}

-- A new key of the map goes behind those it has.
abbrev pub InsertsLast : Host → Type 0
InsertsLast host =
    ((key : Text) (j : Json) → host.index_insert key j json_end ≡ json_entry key j json_end)
    × ((key name : Text) (j new : Json) (rest : JsonMap)
        → eqb_text key name ≡ false
        → host.index_insert name new (json_entry key j rest)
          ≡ json_entry key j (host.index_insert name new rest))

-- the host at a table
abbrev pub with_numbers : Host → Numbers → Host
with_numbers host m = record host { numbers = m }

module _ (allocates : ℕ → Allocation) (fine : (k : ℕ) → allocates k ≡ allocated) where
  module _ (host : Host) (inserts : InsertsLast host) where
    -- A first key that is no later key stays first on the way back.
    fields_to_json-first :
        (key : Text) (j : Json) (made rest : JsonMap) (n m : Numbers) {whole : JsonMap}
        → is_new key rest ≡ true
        → fields_to_json (with_numbers host m) made (entries_to_value allocates fine rest n).0
          ≡ ok whole
        → fields_to_json
            (with_numbers host m)
            (json_entry key j made)
            (entries_to_value allocates fine rest n).0
          ≡ ok (json_entry key j whole)
    unfolding fields_to_json
    fields_to_json-first key j made json_end n m new h =
        ap (λ w. ok (json_entry key j w)) (ok_inj h)
    fields_to_json-first key j made (json_entry other k rest) n m new h =
        let r = json_to_value allocates k n in
        let (v, converted, after) = >>=-eq-ok (value_to_json (with_numbers host m) r.0) _ h in
        rw (converted, inserts.1 key other j v made (eqb_text_flip other key (ground arith)))
          (fields_to_json-first key j (host.index_insert other v made) rest r.1 m (ground arith)
            after)

    mutual
      unfolding value_to_json json_to_value items_to_json items_to_value fields_to_json

      value_to_json-inverse :
          (j : Json) (n m : Numbers)
          → IsSound j
          → IsFresh n
          → n.next + number_count j ≤ i64_top
          → Keeps (json_to_value allocates j n).1 m
          → value_to_json (with_numbers host m) (json_to_value allocates j n).0 ≡ ok j
      value_to_json-inverse json_null n m sound fresh le keeps = refl
      value_to_json-inverse (json_bool b) n m sound fresh le keeps = refl
      value_to_json-inverse (json_int i) n m sound fresh le keeps = refl
      value_to_json-inverse (json_float f) n m sound fresh le keeps = rw sound refl
      value_to_json-inverse (json_number raw) n m sound fresh le keeps =
          let made = json_number_value-allocated allocates raw n (fine n.next_object) in
          let kept = subst (λ z. Keeps z.1 m) made keeps n.next_object raw (raw_added raw n) in
          subst (λ z. value_to_json (with_numbers host m) z.0 ≡ ok (json_number raw)) (sym made)
            (rw kept refl)
      value_to_json-inverse (json_string text) n m sound fresh le keeps = refl
      value_to_json-inverse (json_array items) n m sound fresh le keeps =
          rw (items_to_json-items_to_value items n m sound fresh le keeps) refl
      value_to_json-inverse (json_object entries) n m sound fresh le keeps =
          let by_entries = fields_to_value-entries allocates fine entries n sound in
          subst (λ z. value_to_json (with_numbers host m) (map z.0) ≡ ok (json_object entries))
            (sym by_entries)
            (rw
              (fields_to_json-entries entries n m sound fresh le
                (subst (λ z. Keeps z.1 m) by_entries keeps))
              refl)

      items_to_json-items_to_value :
          (items : JsonItems) (n m : Numbers)
          → IsSoundItems items
          → IsFresh n
          → n.next + number_count_items items ≤ i64_top
          → Keeps (items_to_value allocates items n).1 m
          → items_to_json (with_numbers host m) (items_to_value allocates items n).0 ≡ ok items
      items_to_json-items_to_value json_nil n m sound fresh le keeps = refl
      items_to_json-items_to_value (json_item j js) n m (sound_j, sound) fresh le keeps =
          let r = json_to_value allocates j n in
          let (fresh', next, keeps') =
            json_to_value-Grown allocates fine j n fresh (omega (arith, le)) in
          let below : r.1.next + number_count_items js ≤ i64_top = omega (arith, le, next) in
          let later = items_to_value-Grown allocates fine js r.1 fresh' below in
          rw
            (
              value_to_json-inverse j n m sound_j fresh (omega (arith, le))
                  (λ o raw h. keeps o raw (later.2 o raw h)),
              items_to_json-items_to_value js r.1 m sound fresh' below keeps,
            )
            refl

      fields_to_json-entries :
          (entries : JsonMap) (n m : Numbers)
          → IsSoundMap entries
          → IsFresh n
          → n.next + number_count_map entries ≤ i64_top
          → Keeps (entries_to_value allocates fine entries n).1 m
          → fields_to_json
              (with_numbers host m)
              json_end
              (entries_to_value allocates fine entries n).0
            ≡ ok entries
      fields_to_json-entries json_end n m sound fresh le keeps = refl
      fields_to_json-entries (json_entry key j rest) n m (new, sound_j, sound) fresh le keeps =
          let r = json_to_value allocates j n in
          let (fresh', next, keeps') =
            json_to_value-Grown allocates fine j n fresh (omega (arith, le)) in
          let below : r.1.next + number_count_map rest ≤ i64_top = omega (arith, le, next) in
          let later = entries_to_value-Grown allocates fine rest r.1 sound fresh' below in
          rw
            (
              value_to_json-inverse j n m sound_j fresh (omega (arith, le))
                  (λ o raw h. keeps o raw (later.2 o raw h)),
              inserts.0 key j,
            )
            (fields_to_json-first key j json_end rest r.1 m new
              (fields_to_json-entries rest r.1 m sound fresh' below keeps))

    -- A document that was made a value is read back as it was from the table that this leaves, when its
    -- floats are finite, its objects have each key once, no handle and no object of the table before is
    -- still to come, the handles left are enough for its numbers, no allocation fails, and the map of a
    -- document takes a new key behind those it has. Each object that read as a spelling before reads as
    -- the same one after.
    pub value_to_json-json_to_value :
        (j : Json) (n : Numbers) (reference : ℕ)
        → IsSound j
        → IsFresh n
        → n.next + number_count j ≤ i64_top
        → (value_to_json
              (with_numbers host (json_to_value allocates j n).1)
              (json_to_value allocates j n).0
            ≡ ok j)
          × ((json_number_raw n reference ≡ none)
              ⊎ (json_number_raw (json_to_value allocates j n).1 reference
                  ≡ json_number_raw n reference))
    value_to_json-json_to_value j n reference sound fresh le = (
      value_to_json-inverse j n (json_to_value allocates j n).1 sound fresh le (λ o raw h. h),
      elim (Option-cases (json_number_raw n reference)) [
        | inl e ↦ inl e
        | inr (raw, e) ↦
            inr ((json_to_value-Grown allocates fine j n fresh le).2 reference raw e ∙ sym e)
      ],
    )
