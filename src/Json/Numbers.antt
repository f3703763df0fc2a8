-- ===== src/Json/Numbers.antt =====
-- The table of the numbers of src/json.rs that keep their spelling (`JSON_NUMBERS`), the counter of its
-- handles (`NEXT_JSON_NUMBER`), and the objects that hold a handle. Objects are numbered in the order
-- in which they are allocated.
pub mod Laws
use Prim.Native.Nat.{ℕ, zero, suc, ◌+◌, ◌-◌, ◌^◌, ◌≤◌, ◌<◌}
use mathlib.Core.Bool.{Bool, true, false}
use mathlib.Core.Option.{Option, none, some}
use mathlib.Core.List.{List, [], ◌∷◌}
use mux_runtime.Common.{◌==◌, if◌then◌else◌}
use mux_runtime.Common.Text.{Text}
use mux_runtime.Json.Value.{Value, unit, object}

-- A `HashMap` with such keys
module _ {A : Type 0} where
  unfoldable pub lookup : ℕ → List (ℕ × A) → Option A
  lookup key [] = none
  lookup key ((k, a) ∷ rest) = if k == key then some a else lookup key rest

  unfoldable pub remove_key : ℕ → List (ℕ × A) → List (ℕ × A)
  remove_key key [] = []
  remove_key key ((k, a) ∷ rest) =
      let below = remove_key key rest in if k == key then below else (k, a) ∷ below

  unfoldable pub insert_key : ℕ → A → List (ℕ × A) → List (ℕ × A)
  unfolding remove_key
  insert_key key a entries = (key, a) ∷ remove_key key entries

-- `JsonNumberEntry`
pub record NumberEntry : Type 0 where
  pub raw : Text
  pub names : ℕ

-- The table, the counter, the payload of each object of the type `JsonNumber`, and the number of the
-- next object
pub record Numbers : Type 0 where
  pub entries : List (ℕ × NumberEntry)
  pub next : ℕ
  pub objects : List (ℕ × ℕ)
  pub next_object : ℕ

-- what `alloc_object` and `get_object_ptr` answer: no object, an object without data, or one with data
pub data Allocation : Type 0 where
  no_object : Allocation
  no_data : Allocation
  allocated : Allocation

abbrev pub i64_top : ℕ
i64_top = 2 ^ 63 - 1

-- `next.checked_add(1).unwrap_or(1)`
unfoldable pub advance : ℕ → ℕ
advance next = if next == i64_top then 1 else next + 1

unfoldable pub json_number_handle : Numbers → ℕ → Option ℕ
unfolding lookup
json_number_handle n reference = elim (lookup reference n.objects) [
  | none ↦ none
  | some handle ↦ elim (lookup handle n.entries) [ none ↦ none | some entry ↦ some handle ]
]

unfoldable pub json_number_raw : Numbers → ℕ → Option Text
unfolding json_number_handle lookup
json_number_raw n reference = elim (json_number_handle n reference) [
  | none ↦ none
  | some handle ↦ elim (lookup handle n.entries) [ none ↦ none | some entry ↦ some entry.raw ]
]

-- the table with a new entry for a spelling, and the counter moved on
unfoldable pub register : Text → Numbers → Numbers
unfolding insert_key advance
register raw n = record n {
  entries = insert_key n.next (record { raw = raw; names = 1 }) n.entries;
  next = advance n.next;
}

-- the end of `json_number_value` at what the allocation answered, for a handle
unfoldable pub store_handle : Allocation → ℕ → Numbers → Value × Numbers
unfolding remove_key
store_handle no_object handle n = (unit, record n { entries = remove_key handle n.entries })
store_handle no_data handle n =
    (unit, record n { entries = remove_key handle n.entries; next_object = n.next_object + 1 })
store_handle allocated handle n = (
  object n.next_object,
  record n { objects = (n.next_object, handle) ∷ n.objects; next_object = n.next_object + 1 },
)

-- `allocates` is what an allocation answers, by the number of the next object.
unfoldable pub json_number_value : (ℕ → Allocation) → Text → Numbers → Value × Numbers
unfolding register store_handle
json_number_value allocates raw n = store_handle (allocates n.next_object) n.next (register raw n)

-- `copy_json_number` from the payload of one object to that of another
unfoldable pub copy_json_number : ℕ → ℕ → Numbers → Numbers
unfolding lookup insert_key
copy_json_number source dest n = elim (lookup source n.objects) [
  | none ↦ n
  | some handle ↦ elim (lookup handle n.entries) [
    | none ↦ record n { objects = insert_key dest 0 n.objects }
    | some entry ↦ record n {
      entries = insert_key handle (record entry { names = entry.names + 1 }) n.entries;
      objects = insert_key dest handle n.objects;
    }
  ]
]

-- `drop_json_number` at the payload of an object
unfoldable pub drop_json_number : ℕ → Numbers → Numbers
unfolding lookup insert_key remove_key
drop_json_number dropped n = elim (lookup dropped n.objects) [
  | none ↦ n
  | some handle ↦ elim (lookup handle n.entries) [
    | none ↦ n
    | some entry ↦
        if entry.names - 1 == 0
        then record n { entries = remove_key handle n.entries }
        else record n {
          entries = insert_key handle (record entry { names = entry.names - 1 }) n.entries;
        }
  ]
]
