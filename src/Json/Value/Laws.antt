-- ===== src/Json/Value/Laws.antt =====
-- The fields and the items of a container after a write: lemmas on `get`, `insert` and `remove` as
-- src/json.rs uses them.
use Prim.Native.Nat.{ℕ, zero, suc, ◌≤◌, ◌<◌}
use mathlib.Core.Path.{◌≡◌, refl, ap, subst}
use mathlib.Core.Logic.{◌≢◌, inl, inr}
use mathlib.Core.Bool.{true, false}
use mathlib.Core.Option.{none, some}
use mathlib.Core.List.{[], ◌∷◌}
use native.Mathlib.Omega.{arith}
use mux_runtime.Common.{Bool-cases}
use mux_runtime.Common.Text.{Text, eqb_text}
use mux_runtime.Json.Value.{
  Value, Items, Fields, nil, item, end, field, string, is_named, get_field, insert_field,
  remove_field, item_count, get_item, set_item, insert_item, remove_item,
}

pub eqb_text_refl : (text : Text) → eqb_text text text ≡ true
eqb_text_refl [] = refl
eqb_text_refl (c ∷ text) = ground (arith, eqb_text_refl text)

pub eqb_text_eq : (a b : Text) → eqb_text a b ≡ true → a ≡ b
eqb_text_eq [] [] h = refl
eqb_text_eq [] (d ∷ b) h = cc
eqb_text_eq (c ∷ a) [] h = cc
eqb_text_eq (c ∷ a) (d ∷ b) h = ground (arith, eqb_text_eq a b)

pub eqb_text_flip : (t u : Text) → eqb_text t u ≡ false → eqb_text u t ≡ false
eqb_text_flip t u h = elim (Bool-cases (eqb_text u t)) [
  | inl e ↦ cc (h, subst (λ z. eqb_text z u ≡ true) (eqb_text_eq u t e) (eqb_text_refl u))
  | inr f ↦ f
]

-- A key bears one name.
pub is_named_unique :
    (m n : Text) (key : Value)
    → eqb_text m n ≡ false
    → is_named n key ≡ true
    → is_named m key ≡ false
is_named_unique m n (string text) apart named = elim (Bool-cases (eqb_text text m)) [
  | inl t ↦ cc (apart, subst (λ z. eqb_text z n ≡ true) (eqb_text_eq text m t) named)
  | inr f ↦ f
]
is_named_unique m n _ apart named = cc

pub get_field-insert_field :
    (name : Text) (new : Value) (entries : Fields)
    → get_field name (insert_field name new entries) ≡ some new
unfolding get_field insert_field
get_field-insert_field name new end = ground (arith, eqb_text_refl name)
get_field-insert_field name new (field key value rest) =
    ground (arith, get_field-insert_field name new rest)

pub insert_field-same :
    (name : Text) (old : Value) (entries : Fields)
    → get_field name entries ≡ some old
    → insert_field name old entries ≡ entries
unfolding get_field insert_field
insert_field-same name old end h = cc
insert_field-same name old (field key value rest) h =
    ground (arith, insert_field-same name old rest)

pub insert_field-insert_field :
    (name : Text) (a b : Value) (entries : Fields)
    → insert_field name b (insert_field name a entries) ≡ insert_field name b entries
unfolding insert_field
insert_field-insert_field name a b end = ground (arith, eqb_text_refl name)
insert_field-insert_field name a b (field key value rest) =
    ground (arith, insert_field-insert_field name a b rest)

pub get_field-insert_field_apart :
    (m n : Text) (new : Value) (entries : Fields)
    → eqb_text m n ≡ false
    → eqb_text n m ≡ false
    → get_field m (insert_field n new entries) ≡ get_field m entries
unfolding get_field insert_field
get_field-insert_field_apart m n new end h g = ground arith
get_field-insert_field_apart m n new (field key value rest) h g =
    ground (arith, get_field-insert_field_apart m n new rest h g, is_named_unique m n key h)

pub remove_field-insert_field :
    (name : Text) (new : Value) (entries : Fields)
    → get_field name entries ≡ none
    → remove_field name (insert_field name new entries) ≡ entries
unfolding get_field insert_field remove_field
remove_field-insert_field name new end h = ground (arith, eqb_text_refl name)
remove_field-insert_field name new (field key value rest) h =
    ground (arith, remove_field-insert_field name new rest)

pub item_count-set_item :
    (items : Items) (i : ℕ) (new : Value) → item_count (set_item items i new) ≡ item_count items
unfolding item_count set_item
item_count-set_item nil i new = refl
item_count-set_item (item value rest) zero new = refl
item_count-set_item (item value rest) (suc i) new = ap suc (item_count-set_item rest i new)

pub get_item-set_item :
    (items : Items) (i : ℕ) (new : Value)
    → i < item_count items
    → get_item (set_item items i new) i ≡ some new
unfolding get_item set_item item_count
get_item-set_item nil i new h = elim h [ ]
get_item-set_item (item value rest) zero new h = refl
get_item-set_item (item value rest) (suc i) new h = get_item-set_item rest i new (omega arith)

pub get_item-set_item_ne :
    (items : Items) (i j : ℕ) (new : Value)
    → i ≢ j
    → get_item (set_item items i new) j ≡ get_item items j
unfolding get_item set_item
get_item-set_item_ne nil i j new h = refl
get_item-set_item_ne (item value rest) zero zero new h = absurd (h refl)
get_item-set_item_ne (item value rest) zero (suc j) new h = refl
get_item-set_item_ne (item value rest) (suc i) zero new h = refl
get_item-set_item_ne (item value rest) (suc i) (suc j) new h =
    get_item-set_item_ne rest i j new (λ e. h (ap suc e))

pub set_item-same :
    (items : Items) (i : ℕ) (old : Value)
    → get_item items i ≡ some old
    → set_item items i old ≡ items
unfolding get_item set_item
set_item-same nil i old h = refl
set_item-same (item value rest) zero old h = ground arith
set_item-same (item value rest) (suc i) old h = ap (λ r. item value r) (set_item-same rest i old h)

pub set_item-set_item :
    (items : Items) (i : ℕ) (a b : Value) → set_item (set_item items i a) i b ≡ set_item items i b
unfolding set_item
set_item-set_item nil i a b = refl
set_item-set_item (item value rest) zero a b = refl
set_item-set_item (item value rest) (suc i) a b =
    ap (λ r. item value r) (set_item-set_item rest i a b)

-- A place in range holds a value.
pub get_item_lt :
    (items : Items) (i : ℕ)
    → i < item_count items
    → (value : Value) × (get_item items i ≡ some value)
unfolding get_item item_count
get_item_lt nil i h = elim h [ ]
get_item_lt (item value rest) zero h = (value, refl)
get_item_lt (item value rest) (suc i) h = get_item_lt rest i (omega arith)

pub item_count-insert_item :
    (items : Items) (i : ℕ) (new : Value)
    → i ≤ item_count items
    → item_count (insert_item items i new) ≡ suc (item_count items)
unfolding insert_item item_count
item_count-insert_item items zero new h = refl
item_count-insert_item nil (suc i) new h = absurd (omega arith)
item_count-insert_item (item value rest) (suc i) new h =
    ap suc (item_count-insert_item rest i new (omega arith))

pub get_item-insert_item :
    (items : Items) (i : ℕ) (new : Value)
    → i ≤ item_count items
    → get_item (insert_item items i new) i ≡ some new
unfolding insert_item item_count get_item
get_item-insert_item items zero new h = refl
get_item-insert_item nil (suc i) new h = absurd (omega arith)
get_item-insert_item (item value rest) (suc i) new h = get_item-insert_item rest i new (omega arith)

pub remove_item-insert_item :
    (items : Items) (i : ℕ) (new : Value)
    → i ≤ item_count items
    → remove_item (insert_item items i new) i ≡ items
unfolding insert_item item_count remove_item
remove_item-insert_item items zero new h = refl
remove_item-insert_item nil (suc i) new h = absurd (omega arith)
remove_item-insert_item (item value rest) (suc i) new h =
    ap (λ r. item value r) (remove_item-insert_item rest i new (omega arith))

-- A key that is not the first leaves the first field in its place.
pub insert_field-first :
    (key name : Text) (value new : Value) (entries : Fields)
    → eqb_text key name ≡ false
    → insert_field name new (field (string key) value entries)
      ≡ field (string key) value (insert_field name new entries)
unfolding insert_field
insert_field-first key name value new entries apart = ground arith
