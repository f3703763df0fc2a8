-- ===== src/Ordered/Tests.antt =====
-- Tests of the map and the set of src/ordered.rs, over a table that is a list of pairs of a hash and
-- an index.
use mux_runtime.Common.{
  ℕ, suc, ◌+◌, ◌-◌, ◌<◌, ◌≡◌, refl, arith, Bool, true, false, ◌&&◌, Option, none, some, List, [],
  ◌∷◌, ◌==◌, if◌then◌else◌, Bool-cases, inl, inr, nat_eq, ◌%◌,
}
use mux_runtime.Ordered.Table.{HashTable, same}
use mux_runtime.Ordered.Map.{
  OrderedMap, new, insert, insert_found, insert_new, insert_at, remove, remove_found, remove_at,
  index_of_hashed, holds_key, alloc_slot, link_next, link_prev, get, contains_key, len, is_empty,
}
use mux_runtime.Ordered.Iter.{iter, iter_next, into_iter_next, collect}
use mux_runtime.Ordered.Run.{
  Op, run, apply, results, replay, answers, extend, Represents, new-Represents, run-Represents,
  insert-Represents, remove-Represents, reads-Represents, extend-Represents,
}
use mux_runtime.Ordered.Set
use mux_runtime.Ordered.Set.{Holds, set_refines}

abbrev Rows : Type 0
Rows = List (ℕ × ℕ)

abbrev count_rows : Rows → ℕ → ℕ → ℕ
count_rows [] h i = 0
count_rows ((g, j) ∷ t) h i = same g j h i + count_rows t h i

abbrev find_row : Rows → ℕ → (ℕ → Bool) → Option ℕ
find_row [] h p = none
find_row ((g, j) ∷ t) h p = if (g == h) && p j then some j else find_row t h p

abbrev remove_row : Rows → ℕ → (ℕ → Bool) → Rows
remove_row [] h p = []
remove_row ((g, j) ∷ t) h p = if (g == h) && p j then t else (g, j) ∷ remove_row t h p

find_row-some :
    (t : Rows) (h : ℕ) (p : ℕ → Bool) (i : ℕ)
    → find_row t h p ≡ some i
    → (p i ≡ true) × (g : ℕ) × (0 < count_rows t g i)
find_row-some [] h p i e = absurd (cc)
find_row-some ((g, j) ∷ t) h p i e = elim (Bool-cases ((g == h) && p j)) [
  | inl hit ↦ (ground arith, g, ground arith)
  | inr miss ↦ let (a, f, b) = find_row-some t h p i (ground arith) in (a, f, omega (arith, b))
]

find_row-none :
    (t : Rows) (h : ℕ) (p : ℕ → Bool) (i : ℕ)
    → find_row t h p ≡ none
    → 0 < count_rows t h i
    → p i ≡ false
find_row-none [] h p i e c = absurd (omega arith)
find_row-none ((g, j) ∷ t) h p i e c = ground (arith, find_row-none t h p i)

count-remove_row :
    (t : Rows) (h : ℕ) (p : ℕ → Bool) (i : ℕ)
    → 0 < count_rows t h i
    → p i ≡ true
    → ((g j : ℕ) → 0 < count_rows t g j → p j ≡ true → (g ≡ h) × (j ≡ i))
    → (g j : ℕ) → count_rows (remove_row t h p) g j ≡ count_rows t g j - same h i g j
count-remove_row [] h p i c pi only g j = absurd (omega arith)
count-remove_row ((f, k) ∷ t) h p i c pi only g j = elim (Bool-cases ((f == h) && p k)) [
  | inl hit ↦ ground (arith, only f k)
  | inr miss ↦
      let more : 0 < count_rows t h i = ground arith in
      ground (
        arith,
        more,
        count-remove_row t h p i more pi (λ g' j' c'. only g' j' (omega (arith, c'))) g j,
      )
]

count-insert_row :
    (t : Rows) (h i : ℕ) (rehash : ℕ → ℕ)
    → ((g j : ℕ) → 0 < count_rows t g j → rehash j ≡ g)
    → (g j : ℕ) → count_rows ((h, i) ∷ t) g j ≡ count_rows t g j + same h i g j
count-insert_row t h i rehash ok g j = omega arith

abbrev rows : HashTable
rows = record {
  Table = Rows;
  new = [];
  clear = λ t. [];
  find = find_row;
  remove_entry = remove_row;
  insert_unique = λ t h i rehash. (h, i) ∷ t;
  count = count_rows;
  count-new = λ h i. refl;
  count-clear = λ t h i. refl;
  find_some = find_row-some;
  find_none = find_row-none;
  count-insert = count-insert_row;
  count-remove = count-remove_row;
}

-- a hash with collisions
abbrev hash_one : ℕ → ℕ
hash_one k = k % 4

abbrev calls : List (Op ℕ ℕ)
calls =
    Op.put 5 50
    ∷ Op.put 2 20
    ∷ Op.put 9 90
    ∷ Op.put 2 21
    ∷ Op.delete 5
    ∷ Op.delete 7
    ∷ Op.put 6 60
    ∷ []

sample : OrderedMap rows ℕ ℕ
unfolding run apply new insert insert_found insert_new insert_at remove remove_found remove_at
    index_of_hashed holds_key alloc_slot link_next link_prev
sample = run rows hash_one calls (new rows)

-- The hole that the removed key left is used again, and the reassigned key keeps its place.
sample_lem :
    (collect iter_next 4 (iter sample) ≡ some ((2, 21) ∷ (9, 90) ∷ (6, 60) ∷ []))
    × (sample.tail ≡ some 0)
    × (sample.free_head ≡ none)
unfolding sample collect iter iter_next
sample_lem = (refl, refl, refl)

sample-Represents : Represents rows hash_one sample (replay calls [])
unfolding sample
sample-Represents =
    (run-Represents rows hash_one calls (new rows) [] (new-Represents rows hash_one)).0

run-Represents_example :
    Represents rows hash_one (run rows hash_one calls (new rows)) (replay calls [])
    × (results rows hash_one calls (new rows) ≡ answers calls [])
run-Represents_example =
    run-Represents rows hash_one calls (new rows) [] (new-Represents rows hash_one)

insert-Represents_test :
    Represents rows hash_one (insert rows hash_one sample 9 91).0 ((2, 21) ∷ (9, 91) ∷ (6, 60) ∷ [])
    × ((insert rows hash_one sample 9 91).1 ≡ some 90)
insert-Represents_test =
    insert-Represents rows hash_one sample (replay calls []) 9 91 sample-Represents

remove-Represents_test :
    Represents rows hash_one (remove rows hash_one sample 2).0 ((9, 90) ∷ (6, 60) ∷ [])
    × ((remove rows hash_one sample 2).1 ≡ some 21)
remove-Represents_test =
    remove-Represents rows hash_one sample (replay calls []) 2 sample-Represents

reads-Represents_example :
    (get rows hash_one sample 9 ≡ some 90)
    × (contains_key rows hash_one sample 9 ≡ true)
    × (len rows sample ≡ 3)
    × (is_empty rows sample ≡ false)
    × (collect iter_next (suc sample.len) (iter sample) ≡ some ((2, 21) ∷ (9, 90) ∷ (6, 60) ∷ []))
    × (collect into_iter_next (suc sample.len) (iter sample)
        ≡ some ((2, 21) ∷ (9, 90) ∷ (6, 60) ∷ []))
reads-Represents_example =
    reads-Represents rows hash_one sample (replay calls []) 9 sample-Represents

extend-Represents_test :
    Represents rows hash_one
      (extend rows hash_one sample ((6, 61) ∷ (1, 10) ∷ []))
      ((2, 21) ∷ (9, 90) ∷ (6, 61) ∷ (1, 10) ∷ [])
extend-Represents_test =
    extend-Represents rows hash_one ((6, 61) ∷ (1, 10) ∷ []) sample (replay calls [])
      sample-Represents

set_refines_test :
    (Holds rows hash_one (Set.insert rows hash_one (new rows) 3).0 (3 ∷ [])
      × ((Set.insert rows hash_one (new rows) 3).1 ≡ true))
    × (Holds rows hash_one (Set.remove rows hash_one (new rows) 3).0 []
        × ((Set.remove rows hash_one (new rows) 3).1 ≡ false))
    × (Set.contains rows hash_one (new rows) 3 ≡ false)
set_refines_test = set_refines rows hash_one (new rows) [] 3 (new-Represents rows hash_one)
