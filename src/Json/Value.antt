-- ===== src/Json/Value.antt =====
-- `Value` of src/lib.rs as src/json.rs reads and writes it. `Vec<Value>` and the ordered map of
-- values are lists of their own in one block with it, since they hold values; a map keeps the order
-- in which its keys were first inserted (ordered.rs). A float is its bits, an object and a boxed enum
-- its handle.
pub mod Laws
pub mod Abstract
use Prim.Native.Nat.{ℕ, zero, suc, ◌+◌, ◌-◌, ◌*◌, ◌/◌, ◌%◌, ◌^◌}
use mathlib.Core.Bool.{Bool, true, false, ◌&&◌, ◌||◌, not}
use mathlib.Core.Option.{Option, none, some}
use mux_runtime.Common.{leb, ◌==◌, if◌then◌else◌}
use mux_runtime.Common.Int.{ℤ}
use mux_runtime.Common.Text.{Text, eqb_text}

mutual
  pub data Value : Type 0 where
    unit : Value
    bool : Bool → Value
    int : ℤ → Value
    float : ℕ → Value
    string : Text → Value
    list : Items → Value
    bytes : Text → Value
    map : Fields → Value
    set : Items → Value
    tuple : Value → Value → Value
    absent : Value
    present : Value → Value
    success : Value → Value
    failure : Value → Value
    object : ℕ → Value
    opaque : Text → Value
    boxed_enum : ℕ → Value

  pub data Items : Type 0 where
    nil : Items
    item : Value → Items → Items

  pub data Fields : Type 0 where
    end : Fields
    field : Value → Value → Fields → Fields

-- `Json` and `JsonMap` of src/json.rs. A `JsonMap` (`IndexMap<String, Json>`) is seen as its entries in
-- their order.
mutual
  pub data Json : Type 0 where
    json_null : Json
    json_bool : Bool → Json
    json_int : ℤ → Json
    json_float : ℕ → Json
    json_number : Text → Json
    json_string : Text → Json
    json_array : JsonItems → Json
    json_object : JsonMap → Json

  pub data JsonItems : Type 0 where
    json_nil : JsonItems
    json_item : Json → JsonItems → JsonItems

  pub data JsonMap : Type 0 where
    json_end : JsonMap
    json_entry : Text → Json → JsonMap → JsonMap

-- What a pointer can step into.
pub data Container : Type 0 where
  fields_of : Fields → Container
  items_of : Items → Container
  leaf : Container

unfoldable pub container : Value → Container
container (map entries) = fields_of entries
container (list items) = items_of items
container _ = leaf

-- The key `Value::String(name)`.
abbrev pub is_named : Text → Value → Bool
is_named name (string text) = eqb_text text name
is_named name _ = false

-- `get` of the ordered map
unfoldable pub get_field : Text → Fields → Option Value
get_field name end = none
get_field name (field key value rest) =
    if is_named name key then some value else get_field name rest

-- `insert`: a known key keeps its place, a new one goes last.
unfoldable pub insert_field : Text → Value → Fields → Fields
insert_field name new end = field (string name) new end
insert_field name new (field key value rest) =
    if is_named name key then field key new rest else field key value (insert_field name new rest)

-- `remove`, which keeps the order of the others
unfoldable pub remove_field : Text → Fields → Fields
remove_field name end = end
remove_field name (field key value rest) =
    if is_named name key then rest else field key value (remove_field name rest)

-- `len`, and the other operations of a vector
unfoldable pub item_count : Items → ℕ
item_count nil = 0
item_count (item value rest) = suc (item_count rest)

unfoldable pub get_item : Items → ℕ → Option Value
get_item nil i = none
get_item (item value rest) zero = some value
get_item (item value rest) (suc i) = get_item rest i

unfoldable pub set_item : Items → ℕ → Value → Items
set_item nil i new = nil
set_item (item value rest) zero new = item new rest
set_item (item value rest) (suc i) new = item value (set_item rest i new)

-- `insert(index, value)`; `push` is the insertion behind the last.
unfoldable pub insert_item : Items → ℕ → Value → Items
insert_item items zero new = item new items
insert_item nil (suc i) new = item new nil
insert_item (item value rest) (suc i) new = item value (insert_item rest i new)

unfoldable pub push_item : Items → Value → Items
push_item nil new = item new nil
push_item (item value rest) new = item value (push_item rest new)

unfoldable pub remove_item : Items → ℕ → Items
remove_item nil i = nil
remove_item (item value rest) zero = rest
remove_item (item value rest) (suc i) = item value (remove_item rest i)

-- `is_finite` and `is_nan` of an `f64`, on its bits
abbrev pub exponent_bits : ℕ → ℕ
exponent_bits f = (f / 2 ^ 52) % 2048

abbrev pub is_finite : ℕ → Bool
is_finite f = not (exponent_bits f == 2047)

abbrev pub is_nan : ℕ → Bool
is_nan f = (exponent_bits f == 2047) && not (f % 2 ^ 52 == 0)
