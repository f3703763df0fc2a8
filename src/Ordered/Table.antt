-- ===== src/Ordered/Table.antt =====
-- `hashbrown::HashTable<usize>`, the third-party table that ordered.rs stores slab indices in. It is
-- a parameter: the operations that the map calls, with what hashbrown documents of them.
use mux_runtime.Common.{
  ℕ, ◌+◌, ◌-◌, ◌<◌, ◌≡◌, Bool, true, false, ◌&&◌, Option, none, some, ◌==◌, if◌then◌else◌,
}

-- 1 if the pairs of a hash and an index are the same, else 0
abbrev pub same : ℕ → ℕ → ℕ → ℕ → ℕ
same h i g j = if (h == g) && (i == j) then 1 else 0

-- A table is seen through `count t h i`: how often it stores the index `i` under the hash `h`.
pub record HashTable : Type 1 where
  pub Table : Type 0
  pub new : Table
  pub clear : Table → Table
  -- `find(hash, eq)`
  pub find : Table → ℕ → (ℕ → Bool) → Option ℕ
  -- `find_entry(hash, eq).ok().map(OccupiedEntry::remove)`
  pub remove_entry : Table → ℕ → (ℕ → Bool) → Table
  -- `insert_unique(hash, value, hasher)`
  pub insert_unique : Table → ℕ → ℕ → (ℕ → ℕ) → Table
  pub count : Table → ℕ → ℕ → ℕ
  pub count-new : (h i : ℕ) → count new h i ≡ 0
  pub count-clear : (t : Table) (h i : ℕ) → count (clear t) h i ≡ 0
  -- What is found is stored and passes the test.
  pub find_some :
      (t : Table) (h : ℕ) (p : ℕ → Bool) (i : ℕ)
      → find t h p ≡ some i
      → (p i ≡ true) × (g : ℕ) × (0 < count t g i)
  -- Nothing is found only if nothing that is stored under the hash passes the test.
  pub find_none :
      (t : Table) (h : ℕ) (p : ℕ → Bool) (i : ℕ) → find t h p ≡ none → 0 < count t h i → p i ≡ false
  -- The caller's hasher must give each stored index its own hash again.
  pub count-insert :
      (t : Table) (h i : ℕ) (rehash : ℕ → ℕ)
      → ((g j : ℕ) → 0 < count t g j → rehash j ≡ g)
      → (g j : ℕ) → count (insert_unique t h i rehash) g j ≡ count t g j + same h i g j
  -- The one entry that passes the test is taken out.
  pub count-remove :
      (t : Table) (h : ℕ) (p : ℕ → Bool) (i : ℕ)
      → 0 < count t h i
      → p i ≡ true
      → ((g j : ℕ) → 0 < count t g j → p j ≡ true → (g ≡ h) × (j ≡ i))
      → (g j : ℕ) → count (remove_entry t h p) g j ≡ count t g j - same h i g j
