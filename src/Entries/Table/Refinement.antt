-- ===== src/Entries/Table/Refinement.antt =====
-- The abstract table: a function from keys to rows, with the default row beside it. The writes of
-- the list of rows implement updates of that function.
use fabric_sim.Prelude.{
  ◌≡◌, ap, Bytes, bytes_eq, Bool, true, false, ◌||◌, Option, none, some, arith, if◌then◌else◌, ◌==◌,
  Option-cases, is_some, inl, inr, Bool-cases, List,
}
use mathlib.Core.Path.{fun_ext}
use fabric_sim.GoMap.{lookup, insert, delete, lookup-insert, lookup-delete}
use fabric_sim.Outcome.{
  Error, not_found, already_exists, invalid, Outcome, done, failed, lift, ok, err,
}
use fabric_sim.Outcome.Rules.{Result-cases}
use fabric_sim.Entries.Message.{TableEntry, MatchField}
use fabric_sim.Entries.Key.{entry_key}
use fabric_sim.Entries.Key.Canonical.{canonical}
use fabric_sim.Entries.Table.{
  Row, Table, no_counts, or_some, has_matches, modify_row, modify_table_entry, remove_table_entry,
}

pub record Store : Type 0 where
  pub row_at : Bytes → Option Row
  pub default_at : Option Row

-- What a client sees of a table.
unfoldable pub store : Table → Store
store t = record { row_at = λ k. lookup k t.rows; default_at = t.default_row }

abbrev pub put_at : Bytes → Option Row → Store → Store
put_at k r s = record s { row_at = λ j. if k == j then r else s.row_at j }

-- The row of an entry: its resources are the entry's, the counters start at 0, and an update
-- keeps what the entry does not carry.
unfoldable pub row_for : TableEntry → Option Row → Row
row_for e none = record {
  entry = e;
  counter_data = or_some e.counter_data (some no_counts);
  meter_config = e.meter_config;
  meter_data = e.meter_counter_data;
}
row_for e (some old) = record {
  entry = e;
  counter_data = or_some e.counter_data old.counter_data;
  meter_config = e.meter_config;
  meter_data = old.meter_data;
}

abbrev same : Bool → Bool → Bool
same true true = true
same false false = true
same _ _ = false

abbrev clash : Bool → Error
clash true = already_exists
clash false = not_found

module _ (sha1 : Bytes → Bytes) (fields : List MatchField) where
  -- An insert wants a free key, an update a used one.
  unfoldable pub spec_modify : TableEntry → Bool → Store → Outcome Store
  unfolding row_for
  spec_modify e is_insert s =
      if e.is_default_action
      then (if is_insert || has_matches e
          then failed invalid s
          else done (record s { default_at = some (row_for e none) }))
      else elim (entry_key sha1 fields (canonical e)) [
        | err x ↦ failed x s
        | ok k ↦
            if same (is_some (s.row_at k)) is_insert
            then failed (clash is_insert) s
            else done (put_at k (some (row_for (canonical e) (s.row_at k))) s)
      ]

  unfoldable pub spec_remove : TableEntry → Store → Outcome Store
  spec_remove e s =
      if e.is_default_action then failed invalid s else elim (entry_key sha1 fields (canonical e)) [
        | err x ↦ failed x s
        | ok k ↦ done (put_at k none s)
      ]

store-insert :
    (key : Bytes) (row : Row) (t : Table)
    → store (record t { rows = insert key row t.rows }) ≡ put_at key (some row) (store t)
unfolding store
store-insert key row t = λ i. record {
  row_at = fun_ext (λ j. lookup-insert key j row t.rows) i;
  default_at = t.default_row;
}

store-delete :
    (key : Bytes) (t : Table)
    → store (record t { rows = delete key t.rows }) ≡ put_at key none (store t)
unfolding store
store-delete key t =
    λ i. record { row_at = fun_ext (λ j. lookup-delete key j t.rows) i; default_at = t.default_row }

module _ (sha1 : Bytes → Bytes) where
  modify_row-refines :
      (key : Bytes) (e : TableEntry) (is_insert : Bool) (t : Table)
      → lift store (modify_row sha1 key e is_insert t) ≡ (
          if same (is_some (lookup key t.rows)) is_insert
          then failed (clash is_insert) (store t)
          else done (put_at key (some (row_for e (lookup key t.rows))) (store t)))
  unfolding modify_row row_for
  modify_row-refines key e true t = elim (Option-cases (lookup key t.rows)) [
    | inl absent ↦ rw (absent, modify_row) (ap done (store-insert key (row_for e none) t))
    | inr (row, found) ↦ rw (found, modify_row)
  ]
  modify_row-refines key e false t = elim (Option-cases (lookup key t.rows)) [
    | inl absent ↦ rw (absent, modify_row)
    | inr (row, found) ↦
        rw (found, modify_row) (ap done (store-insert key (row_for e (some row)) t))
  ]

  -- Every insert and update of the table of rows, errors included, is the one of the abstract store,
  -- a function from keys to rows beside a default row.
  pub modify_table_entry-refines :
      (e : TableEntry) (is_insert : Bool) (t : Table)
      → lift store (modify_table_entry sha1 e is_insert t)
        ≡ spec_modify sha1 t.info.match_fields e is_insert (store t)
  unfolding modify_table_entry spec_modify store
  modify_table_entry-refines e is_insert t = elim (Bool-cases e.is_default_action) [
    | inl marked ↦ ground arith
    | inr plain ↦ elim (Result-cases (entry_key sha1 t.info.match_fields (canonical e))) [
      | inl (key, k) ↦ simp (plain, k) (modify_row-refines key (canonical e) is_insert t)
      | inr (x, k) ↦ simp (plain, k)
    ]
  ]

  -- Every removal from the table of rows, errors included, is the one of the abstract store.
  pub remove_table_entry-refines :
      (e : TableEntry) (t : Table)
      → lift store (remove_table_entry sha1 e t) ≡ spec_remove sha1 t.info.match_fields e (store t)
  unfolding remove_table_entry spec_remove
  remove_table_entry-refines e t = elim (Bool-cases e.is_default_action) [
    | inl marked ↦ simp marked
    | inr plain ↦ elim (Result-cases (entry_key sha1 t.info.match_fields (canonical e))) [
      | inl (key, k) ↦ simp (plain, k) (ap done (store-delete key t))
      | inr (x, k) ↦ simp (plain, k)
    ]
  ]
