-- ===== src/Sync/Handles/Counting.antt =====
-- The counts of src/sync_primitives.rs against the objects that hold an identifier, while handles are
-- made, copied and dropped in any order.
use mux_runtime.Common.{
  ℕ, suc, ◌+◌, ◌-◌, ◌≤◌, ◌<◌, ◌≡◌, refl, arith, Option, none, some, subst, sym, ◌↔◌, ok,
}
use mux_runtime.Sync.Handles.{
  Counted, Registry, update, entry_of, holding, handle_id, found_or_closed, insert_entry,
  remove_entry, count_copy, copy_map, drop_found, drop_counted,
}

-- The table, the number of live objects that hold each identifier, and the number of copies of each
-- that have found their entry and not counted it yet. Such a copy reads a live object throughout.
pub record System (A : Type 0) : Type 0 where
  pub table : Registry A
  pub live : ℕ → ℕ
  pub copying : ℕ → ℕ

module _ {A : Type 0} where
  -- One step of any thread. A new handle; the two halves of a copy; a drop, of an object that no copy
  -- reads; and a handle of another table, which draws from the same counter.
  pub data Step (s t : System A) : Type 0 where
    make :
        (a : A)
        → t ≡ record {
          table = (insert_entry a s.table).1;
          live = update s.live s.table.next 1;
          copying = s.copying;
        }
        → Step s t
    copy_find :
        (id : ℕ)
        → s.copying id < s.live id
        → t ≡ record s { copying = update s.copying id (s.copying id + 1) }
        → Step s t
    copy_count :
        (id : ℕ)
        → 0 < s.copying id
        → t ≡ record {
          table = (copy_map id s.table).1;
          live = update s.live id (s.live id + 1);
          copying = update s.copying id (s.copying id - 1);
        }
        → Step s t
    discard :
        (id : ℕ)
        → s.copying id < s.live id
        → t ≡ record {
          table = drop_counted (some id) s.table;
          live = update s.live id (s.live id - 1);
          copying = s.copying;
        }
        → Step s t
    elsewhere : t ≡ record s { table = record s.table { next = s.table.next + 1 } } → Step s t

  pub data Reach : System A → Type 0 where
    start :
        (s : System A)
        → ((id : ℕ) → s.table.entries id ≡ none)
        → ((id : ℕ) → s.live id ≡ 0)
        → ((id : ℕ) → s.copying id ≡ 0)
        → Reach s
    later : {s t : System A} → Reach s → Step s t → Reach t

  -- the count of an entry that may be absent
  abbrev pub names_of : Option (Counted A) → ℕ
  names_of none = 0
  names_of (some e) = e.names

  -- An entry is counted at least once.
  abbrev pub IsCounted : Option (Counted A) → Type 0
  IsCounted none = Unit
  IsCounted (some e) = 0 < e.names

  record Inv (s : System A) : Type 0 where
    counted : (id : ℕ) → names_of (s.table.entries id) ≡ s.live id
    kept : (id : ℕ) → IsCounted (s.table.entries id)
    fresh : (id : ℕ) → s.table.next ≤ id → s.live id ≡ 0
    within : (id : ℕ) → s.copying id ≤ s.live id

  make_Inv :
      (s : System A) (a : A)
      → Inv s
      → Inv (record {
        table = (insert_entry a s.table).1;
        live = update s.live s.table.next 1;
        copying = s.copying;
      })
  unfolding insert_entry
  make_Inv s a v = record {
    counted = λ id. ground (arith, v.counted id);
    kept = λ id. ground (arith, v.kept id);
    fresh = λ id h. ground (arith, v.fresh id);
    within = λ id. ground (arith, v.within id, v.fresh id);
  }

  copy_find_Inv :
      (s : System A) (i : ℕ)
      → s.copying i < s.live i
      → Inv s
      → Inv (record s { copying = update s.copying i (s.copying i + 1) })
  copy_find_Inv s i h v = record {
    counted = v.counted;
    kept = v.kept;
    fresh = v.fresh;
    within = λ id. ground (arith, v.within id);
  }

  copy_count_Inv :
      (s : System A) (i : ℕ)
      → 0 < s.copying i
      → Inv s
      → Inv (record {
        table = (copy_map i s.table).1;
        live = update s.live i (s.live i + 1);
        copying = update s.copying i (s.copying i - 1);
      })
  unfolding copy_map count_copy
  copy_count_Inv s i h v = record {
    counted = λ id. ground (arith, v.counted id, v.counted i, v.within i);
    kept = λ id. ground (arith, v.kept id);
    fresh = λ id l. ground (arith, v.fresh id, v.within id);
    within = λ id. ground (arith, v.within id, v.within i);
  }

  discard_Inv :
      (s : System A) (i : ℕ)
      → s.copying i < s.live i
      → Inv s
      → Inv (record {
        table = drop_counted (some i) s.table;
        live = update s.live i (s.live i - 1);
        copying = s.copying;
      })
  unfolding drop_counted drop_found remove_entry
  discard_Inv s i h v = record {
    counted = λ id. ground (arith, v.counted id, v.counted i);
    kept = λ id. ground (arith, v.kept id, v.kept i, v.counted i);
    fresh = λ id l. ground (arith, v.fresh id);
    within = λ id. ground (arith, v.within id, v.within i);
  }

  Step-Inv : {s t : System A} → Step s t → Inv s → Inv t
  Step-Inv {s} (make a e) v = subst Inv (sym e) (make_Inv s a v)
  Step-Inv {s} (copy_find i h e) v = subst Inv (sym e) (copy_find_Inv s i h v)
  Step-Inv {s} (copy_count i h e) v = subst Inv (sym e) (copy_count_Inv s i h v)
  Step-Inv {s} (discard i h e) v = subst Inv (sym e) (discard_Inv s i h v)
  Step-Inv {s} (elsewhere e) v = subst Inv (sym e) (record {
    counted = v.counted;
    kept = v.kept;
    fresh = λ id l. v.fresh id (omega arith);
    within = v.within;
  })

  Reach-Inv : {s : System A} → Reach s → Inv s
  Reach-Inv (start s empty dead idle) = record {
    counted = λ id. rw (empty id) (omega (arith, dead id));
    kept = λ id. rw (empty id) tt;
    fresh = λ id l. dead id;
    within = λ id. omega (arith, dead id, idle id);
  }
  Reach-Inv (later r st) = Step-Inv st (Reach-Inv r)

  entry_when_live :
      (o : Option (Counted A)) (n : ℕ)
      → names_of o ≡ n
      → IsCounted o
      → (0 < n) ↔ ((e : Counted A) × (o ≡ some e) × (e.names ≡ n))
  entry_when_live none n h k = (λ l. absurd (omega arith), λ (e, p, q). absurd (cc))
  entry_when_live (some e) n h k = (λ l. (e, refl, h), λ (x, p, q). omega arith)

  -- In every state that is reached from an empty table by making, copying and dropping handles in any
  -- order, the halves of copies interleaved, an identifier has an entry exactly while some object holds
  -- it, and the entry counts these objects.
  pub live_iff_entry :
      {s : System A}
      → Reach s
      → (id : ℕ)
      → (0 < s.live id) ↔ ((e : Counted A) × (s.table.entries id ≡ some e) × (e.names ≡ s.live id))
  live_iff_entry {s} r id =
      let v = Reach-Inv r in
      entry_when_live (s.table.entries id) (s.live id) (v.counted id) (v.kept id)

  -- So the operations find what a live handle names: no handle is closed while an object holds it.
  pub entry_of-live :
      {s : System A} (id : ℕ)
      → Reach s
      → 0 < s.live (suc id)
      → (e : Counted A) × (entry_of (holding (suc id)) s.table ≡ ok e.value)
        × (e.names ≡ s.live (suc id))
  unfolding entry_of handle_id found_or_closed
  entry_of-live {s} id r h =
      let (e, found, count) = (live_iff_entry r (suc id)).0 h in
      (e, rw (found, found_or_closed) refl, count)
