-- ===== src/Json/Equality.antt =====
-- `==` of two values (`PartialEq for Value`, src/lib.rs, with that of the ordered map and set).
use Prim.Native.Nat.{ℕ, suc}
use mathlib.Core.Bool.{Bool, true, false, ◌&&◌, ◌||◌}
use mux_runtime.Common.{◌==◌, if◌then◌else◌}
use mux_runtime.Common.Int.{ℤ, pos, negsuc}
use mux_runtime.Common.Text.{Text, eqb_text}
use mux_runtime.Json.Numbers.{Numbers}
use mux_runtime.Json.Value.{
  Json, JsonMap, Value, Items, Fields, unit, bool, int, float, string, list, bytes, map, set, tuple,
  absent, present, success, failure, object, opaque, boxed_enum, nil, item, end, field, item_count,
}

-- What the rest of the program answers: `==` of `OrderedFloat`, of two objects and of two boxed enums,
-- whether bytes are UTF-8, and `insert` of the indexmap crate; and the table of the JSON numbers at the
-- time of the call.
pub record Host : Type 0 where
  pub eq_float : ℕ → ℕ → Bool
  pub eq_object : ℕ → ℕ → Bool
  pub eq_enum : ℕ → ℕ → Bool
  pub valid_utf8 : Text → Bool
  pub numbers : Numbers
  pub index_insert : Text → Json → JsonMap → JsonMap

abbrev pub eq_bool : Bool → Bool → Bool
eq_bool true b = b
eq_bool false true = false
eq_bool false false = true

abbrev pub eq_int : ℤ → ℤ → Bool
eq_int (pos a) (pos b) = a == b
eq_int (negsuc a) (negsuc b) = a == b
eq_int _ _ = false

unfoldable pub field_count : Fields → ℕ
field_count end = 0
field_count (field key value rest) = suc (field_count rest)

-- Is the value of the first key that passes one to pass?
unfoldable pub find_equal : (Value → Bool) → (Value → Bool) → Fields → Bool
find_equal is_key is_value end = false
find_equal is_key is_value (field key value rest) =
    if is_key key then is_value value else find_equal is_key is_value rest

unfoldable pub any_equal : (Value → Bool) → Items → Bool
any_equal is_value nil = false
any_equal is_value (item value rest) = is_value value || any_equal is_value rest

module _ (host : Host) where
  unfoldable mutual
    pub eq_value : Value → Value → Bool
    eq_value unit unit = true
    eq_value (bool a) (bool b) = eq_bool a b
    eq_value (int a) (int b) = eq_int a b
    eq_value (float a) (float b) = host.eq_float a b
    eq_value (string a) (string b) = eqb_text a b
    eq_value (list a) (list b) = eq_items a b
    eq_value (bytes a) (bytes b) = eqb_text a b
    eq_value (map a) (map b) = (field_count a == field_count b) && fields_within a b
    eq_value (set a) (set b) = (item_count a == item_count b) && items_within a b
    eq_value (tuple a b) (tuple c d) = eq_value a c && eq_value b d
    eq_value absent absent = true
    eq_value (present a) (present b) = eq_value a b
    eq_value (success a) (success b) = eq_value a b
    eq_value (failure a) (failure b) = eq_value a b
    eq_value (object a) (object b) = host.eq_object a b
    eq_value (opaque a) (opaque b) = eqb_text a b
    eq_value (boxed_enum a) (boxed_enum b) = host.eq_enum a b
    eq_value _ _ = false

    pub eq_items : Items → Items → Bool
    eq_items nil nil = true
    eq_items (item a as_) (item b bs) = eq_value a b && eq_items as_ bs
    eq_items _ _ = false

    -- Is every entry found in the other map?
    pub fields_within : Fields → Fields → Bool
    fields_within end others = true
    fields_within (field key value rest) others =
        find_equal (eq_value key) (eq_value value) others && fields_within rest others

    pub items_within : Items → Items → Bool
    items_within nil others = true
    items_within (item value rest) others =
        any_equal (eq_value value) others && items_within rest others
