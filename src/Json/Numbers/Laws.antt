-- ===== src/Json/Numbers/Laws.antt =====
-- What the table of numbers of src/json.rs keeps when a number is added.
use Prim.Native.Nat.{ℕ, ◌+◌, ◌≤◌, ◌<◌}
use mathlib.Core.Path.{◌≡◌, refl}
use mathlib.Core.Option.{some}
use mathlib.Core.List.{List, [], ◌∷◌}
use native.Mathlib.Omega.{arith}
use mux_runtime.Common.{inl, inr, Option-cases}
use mux_runtime.Common.Text.{Text}
use mux_runtime.Json.Value.{object}
use mux_runtime.Json.Numbers.{
  lookup, remove_key, insert_key, NumberEntry, Numbers, Allocation, allocated, i64_top, advance,
  json_number_handle, json_number_raw, register, store_handle, json_number_value,
}

-- Every key is below a bound.
abbrev pub AllBelow : {A : Type 0} → ℕ → List (ℕ × A) → Type 0
AllBelow bound [] = Unit
AllBelow bound ((k, a) ∷ rest) = (k < bound) × AllBelow bound rest

-- No handle and no object was given out that is still to come.
abbrev pub IsFresh : Numbers → Type 0
IsFresh n = AllBelow n.next n.entries × AllBelow n.next_object n.objects

-- Each object that reads as a spelling in the one reads so in the other.
abbrev pub Keeps : Numbers → Numbers → Type 0
Keeps n m =
    (reference : ℕ) (raw : Text)
    → json_number_raw n reference ≡ some raw
    → json_number_raw m reference ≡ some raw

module _ {A : Type 0} where
  AllBelow-le : (b c : ℕ) (l : List (ℕ × A)) → b ≤ c → AllBelow b l → AllBelow c l
  AllBelow-le b c [] le h = tt
  AllBelow-le b c ((k, a) ∷ rest) le (lt, h) = (omega (arith, lt, le), AllBelow-le b c rest le h)

  AllBelow-remove_key :
      (b key : ℕ) (l : List (ℕ × A)) → AllBelow b l → AllBelow b (remove_key key l)
  unfolding remove_key
  AllBelow-remove_key b key [] h = tt
  AllBelow-remove_key b key ((k, a) ∷ rest) (lt, h) =
      ground (arith, lt, AllBelow-remove_key b key rest h)

  lookup-lt :
      (b key : ℕ) (l : List (ℕ × A)) (a : A) → AllBelow b l → lookup key l ≡ some a → key < b
  unfolding lookup
  lookup-lt b key [] a h e = absurd (cc)
  lookup-lt b key ((k, x) ∷ rest) a (lt, h) e = ground (arith, lt, lookup-lt b key rest a h)

  lookup-remove_key :
      (b key : ℕ) (l : List (ℕ × A)) → key < b → lookup key (remove_key b l) ≡ lookup key l
  unfolding lookup remove_key
  lookup-remove_key b key [] lt = refl
  lookup-remove_key b key ((k, x) ∷ rest) lt = ground (arith, lookup-remove_key b key rest lt)

-- the table after a number was added
abbrev pub added : Text → Numbers → Numbers
added raw n = record (register raw n) {
  objects = (n.next_object, n.next) ∷ n.objects;
  next_object = n.next_object + 1;
}

pub json_number_value-allocated :
    (allocates : ℕ → Allocation) (raw : Text) (n : Numbers)
    → allocates n.next_object ≡ allocated
    → json_number_value allocates raw n ≡ (object n.next_object, added raw n)
unfolding json_number_value store_handle register
json_number_value-allocated allocates raw n h = rw (h) refl

pub next_added : (raw : Text) (n : Numbers) → n.next < i64_top → (added raw n).next ≡ n.next + 1
unfolding register advance
next_added raw n lt = ground arith

pub added-IsFresh :
    (raw : Text) (n : Numbers) → n.next < i64_top → IsFresh n → IsFresh (added raw n)
unfolding register advance insert_key
added-IsFresh raw n lt (handles, objects) =
    let up : n.next + 1 ≡ advance n.next = ground arith in
    let below =
      AllBelow-le n.next (advance n.next) (remove_key n.next n.entries) (omega (arith, up))
        (AllBelow-remove_key n.next n.next n.entries handles) in
    let first : n.next < advance n.next = omega (arith, up) in
    (
      (first, below),
      (omega arith, AllBelow-le n.next_object (n.next_object + 1) n.objects (omega arith) objects),
    )

-- The object of the added number reads as its spelling.
pub raw_added : (raw : Text) (n : Numbers) → json_number_raw (added raw n) n.next_object ≡ some raw
unfolding json_number_raw json_number_handle register insert_key lookup
raw_added raw n = ground arith

handle_of :
    (n : Numbers) (reference : ℕ) (raw : Text)
    → json_number_raw n reference ≡ some raw
    → (handle : ℕ) × (entry : NumberEntry) × (lookup reference n.objects ≡ some handle)
      × (lookup handle n.entries ≡ some entry)
      × (entry.raw ≡ raw)
unfolding json_number_raw json_number_handle
handle_of n reference raw h = elim (Option-cases (lookup reference n.objects)) [
  | inl e ↦ absurd (ground (arith, e))
  | inr (handle, e) ↦ elim (Option-cases (lookup handle n.entries)) [
    | inl f ↦ absurd (ground (arith, e, f))
    | inr (entry, f) ↦ (handle, entry, e, f, ground (arith, e, f))
  ]
]

pub added-Keeps : (raw : Text) (n : Numbers) → IsFresh n → Keeps n (added raw n)
unfolding json_number_raw json_number_handle register insert_key lookup
added-Keeps raw n (handles, objects) reference other h =
    let (handle, entry, e, f, g) = handle_of n reference other h in
    let lt = lookup-lt n.next handle n.entries entry handles f in
    let lo = lookup-lt n.next_object reference n.objects handle objects e in
    let kept = lookup-remove_key n.next handle n.entries lt in ground (arith, lt, lo, kept, e, f, g)
