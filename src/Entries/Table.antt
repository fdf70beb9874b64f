-- ===== src/Entries/Table.antt =====
-- Tables of pkg/simulator/entries/table.go: one P4 table and the set of the tables of a device.
-- A method that writes returns the new table, also beside its error.
pub mod Invariant
pub mod Refinement
pub mod Effects
pub mod Size
use fabric_sim.Prelude.{
  ℕ, suc, Bytes, bytes_eq, nat_eq, List, [], ◌∷◌, ◌++◌, map, Bool, true, false, Option, none, some,
  if◌then◌else◌, length, ltb,
}
use fabric_sim.GoMap.{GoMap, lookup, insert, delete, values}
use fabric_sim.Outcome.{
  Error, not_found, already_exists, invalid, Outcome, done, failed, panic, ok, err,
}
use fabric_sim.Entries.Message.{
  TableEntry, CounterData, MeterConfig, MeterCounterData, DirectCounterEntry, DirectMeterEntry,
  TableInfo,
}
use fabric_sim.Entries.Sorting.{slice_stable}
use fabric_sim.Entries.Key.{entry_key}
use fabric_sim.Entries.Key.Canonical.{canonical}

-- Row
pub record Row : Type 0 where
  pub entry : TableEntry
  pub counter_data : Option CounterData
  pub meter_config : Option MeterConfig
  pub meter_data : Option MeterCounterData

-- Table
pub record Table : Type 0 where
  pub info : TableInfo
  pub rows : GoMap Bytes Row
  pub default_row : Option Row

-- &p4api.CounterData{}
abbrev pub no_counts : CounterData
no_counts = record { byte_count = 0; packet_count = 0 }

abbrev or_some {ℓ} : {A : Type ℓ} → Option A → Option A → Option A
or_some none d = d
or_some (some a) d = some a

-- newRow
unfoldable pub new_row : TableEntry → Row
new_row e = record {
  entry = e;
  counter_data = or_some e.counter_data (some no_counts);
  meter_config = e.meter_config;
  meter_data = e.meter_counter_data;
}

-- NewTable
unfoldable pub new_table : TableInfo → Table
new_table table = record {
  info = record table { match_fields = slice_stable (λ f. f.id) table.match_fields };
  rows = [];
  default_row = none;
}

-- Table.Size
unfoldable pub size : Table → ℕ
size t = elim t.default_row [ some r ↦ suc (length t.rows) | none ↦ length t.rows ]

-- Table.Entries
unfoldable pub entries : Table → List TableEntry
entries t =
    let rows = map (λ (r : Row). r.entry) (values t.rows) in
    elim t.default_row [ some r ↦ rows ++ r.entry ∷ [] | none ↦ rows ]

-- The end of Table.ModifyTableEntry: the update of an entry and its direct resources.
unfoldable pub update_row : TableEntry → Bool → Row → Row
update_row e is_insert row = record row {
  entry = e;
  meter_config = e.meter_config;
  counter_data = if is_insert then row.counter_data else or_some e.counter_data row.counter_data;
}

abbrev has_matches : TableEntry → Bool
has_matches e = ltb 0 (length e.matches)

module _ (sha1 : Bytes → Bytes) where
  -- The guards and writes of Table.ModifyTableEntry, once the key is there.
  unfoldable pub modify_row : Bytes → TableEntry → Bool → Table → Outcome Table
  unfolding new_row update_row
  modify_row key e is_insert t = elim (lookup key t.rows) [
    | some row ↦
        if is_insert
        then failed already_exists t
        else done (record t { rows = insert key (update_row e is_insert row) t.rows })
    | none ↦
        if is_insert
        then done (record t { rows = insert key (update_row e is_insert (new_row e)) t.rows })
        else failed not_found t
  ]

  -- Table.ModifyTableEntry
  unfoldable pub modify_table_entry : TableEntry → Bool → Table → Outcome Table
  unfolding modify_row new_row
  modify_table_entry e is_insert t =
      if e.is_default_action
      then (if is_insert
          then failed invalid t
          else if has_matches e
          then failed invalid t
          else done (record t { default_row = some (new_row e) }))
      else elim (entry_key sha1 t.info.match_fields (canonical e)) [
        | err x ↦ failed x t
        | ok key ↦ modify_row key (canonical e) is_insert t
      ]

  -- Table.RemoveTableEntry
  unfoldable pub remove_table_entry : TableEntry → Table → Outcome Table
  remove_table_entry e t =
      if e.is_default_action
      then failed invalid t
      else elim (entry_key sha1 t.info.match_fields (canonical e)) [
        | err x ↦ failed x t
        | ok key ↦ done (record t { rows = delete key t.rows })
      ]

  -- The common part of ModifyDirectCounterEntry and ModifyDirectMeterEntry: a change of one
  -- field of the row of the named entry.
  unfoldable pub modify_direct : TableEntry → (Row → Row) → Table → Outcome Table
  modify_direct e change t = elim (entry_key sha1 t.info.match_fields (canonical e)) [
    | err x ↦ failed x t
    | ok key ↦ elim (lookup key t.rows) [
      | none ↦ failed not_found t
      | some row ↦ done (record t { rows = insert key (change row) t.rows })
    ]
  ]

  -- Table.ModifyDirectCounterEntry
  unfoldable pub modify_direct_counter_entry : DirectCounterEntry → Table → Outcome Table
  unfolding modify_direct
  modify_direct_counter_entry d t = elim d.table_entry [
    | none ↦ panic
    | some e ↦ modify_direct e (λ row. record row { counter_data = d.counter_data }) t
  ]

  -- Table.ModifyDirectMeterEntry
  unfoldable pub modify_direct_meter_entry : DirectMeterEntry → Table → Outcome Table
  unfolding modify_direct
  modify_direct_meter_entry d t = elim d.table_entry [
    | none ↦ panic
    | some e ↦ modify_direct e (λ row. record row { meter_config = d.config }) t
  ]
