-- ===== src/Entries/Tables.antt =====
-- Tables of pkg/simulator/entries/table.go: the tables of one device, by id, and their reads.
pub mod Invariant
pub mod Read
use fabric_sim.Prelude.{
  ℕ, zero, Bytes, nat_eq, ◌==◌, List, [], ◌∷◌, ◌++◌, Bool, true, Option, none, some, if◌then◌else◌,
}
use fabric_sim.GoMap.{GoMap, lookup, insert, values}
use fabric_sim.Outcome.{Error, not_found, invalid, Outcome, done, failed, panic, lift, ◌>>=◌}
use fabric_sim.Entries.Message.{
  TableEntry, DirectCounterEntry, DirectMeterEntry, TableInfo, Entity, table_entry,
  direct_counter_entry, direct_meter_entry,
}
use fabric_sim.Entries.Table.{
  Row, Table, new_table, modify_table_entry, remove_table_entry, modify_direct_counter_entry,
  modify_direct_meter_entry,
}
use fabric_sim.Entries.Buffer.{BatchSender, Buffer, new_buffer, flush, send_entity, send_entities}

-- Tables: the map of ids to tables. A write through a *Table is a write of the map's value.
abbrev pub Tables : Type 0
Tables = GoMap ℕ Table

-- The loop of NewTables.
unfoldable pub add_tables : List TableInfo → Tables → Tables
unfolding new_table
add_tables [] ts = ts
add_tables (ti ∷ tis) ts = add_tables tis (insert ti.id (new_table ti) ts)

-- NewTables
unfoldable pub new_tables : List TableInfo → Tables
unfolding add_tables
new_tables infos = add_tables infos []

-- The lookup of a table and the call of its method.
unfoldable pub on_table : ℕ → (Table → Outcome Table) → Tables → Outcome Tables
on_table id op ts = elim (lookup id ts) [
  | none ↦ failed not_found ts
  | some t ↦ lift (λ t'. insert id t' ts) (op t)
]

module _ (sha1 : Bytes → Bytes) where
  -- Tables.ModifyTableEntry
  unfoldable pub write_table_entry : TableEntry → Bool → Tables → Outcome Tables
  unfolding on_table
  write_table_entry e is_insert = on_table e.table_id (modify_table_entry sha1 e is_insert)

  -- Tables.RemoveTableEntry
  unfoldable pub delete_table_entry : TableEntry → Tables → Outcome Tables
  unfolding on_table
  delete_table_entry e = on_table e.table_id (remove_table_entry sha1 e)

  -- Tables.ModifyDirectCounterEntry: the entry's table entry may be nil.
  unfoldable pub write_direct_counter_entry : DirectCounterEntry → Bool → Tables → Outcome Tables
  unfolding on_table
  write_direct_counter_entry d is_insert ts =
      if is_insert then failed invalid ts else elim d.table_entry [
        | none ↦ panic
        | some e ↦ on_table e.table_id (modify_direct_counter_entry sha1 d) ts
      ]

  -- Tables.ModifyDirectMeterEntry
  unfoldable pub write_direct_meter_entry : DirectMeterEntry → Bool → Tables → Outcome Tables
  unfolding on_table
  write_direct_meter_entry d is_insert ts =
      if is_insert then failed invalid ts else elim d.table_entry [
        | none ↦ panic
        | some e ↦ on_table e.table_id (modify_direct_meter_entry sha1 d) ts
      ]

-- ReadType
pub data ReadType : Type 0 where
  read_table_entry read_direct_counter read_direct_meter : ReadType

-- getEntry
unfoldable pub get_entry : ReadType → Row → Entity
get_entry read_direct_counter row =
    direct_counter_entry (record { table_entry = some row.entry; counter_data = row.counter_data })
get_entry read_direct_meter row = direct_meter_entry (record {
  table_entry = some row.entry;
  config = row.meter_config;
  counter_data = row.meter_data;
})
get_entry read_table_entry row = table_entry row.entry

-- tableEntryMatches
unfoldable pub table_entry_matches : TableEntry → TableEntry → Bool
table_entry_matches request entry = true

-- The entities of the rows that match the request.
unfoldable pub matching_entities : TableEntry → ReadType → List Row → List Entity
unfolding table_entry_matches get_entry
matching_entities request type [] = []
matching_entities request type (row ∷ rows) =
    let rest = matching_entities request type rows in
    if table_entry_matches request row.entry then get_entry type row ∷ rest else rest

-- Table.ReadTableEntries: the state is what the sender was given.
unfoldable pub read_table :
    TableEntry
    → ReadType
    → BatchSender Entity
    → Table
    → List (List Entity)
    → Outcome (List (List Entity))
unfolding matching_entities send_entities new_buffer flush
read_table request type sender t sent =
    lift (λ (b : Buffer Entity). b.sent)
      (send_entities sender (matching_entities request type (values t.rows)) (new_buffer sent)
        >>= (λ b. elim t.default_row [
          | none ↦ done b
          | some row ↦ send_entity sender (get_entry type row) b
        ])
        >>= flush sender)

-- The loop over all tables.
unfoldable pub read_each :
    TableEntry
    → ReadType
    → BatchSender Entity
    → List Table
    → List (List Entity)
    → Outcome (List (List Entity))
unfolding read_table
read_each request type sender [] sent = done sent
read_each request type sender (t ∷ ts) sent =
    read_table request type sender t sent >>= read_each request type sender ts

-- Tables.ReadTableEntries: the request is a pointer, read for its table id.
unfoldable pub read_table_entries :
    Option TableEntry
    → ReadType
    → BatchSender Entity
    → Tables
    → List (List Entity)
    → Outcome (List (List Entity))
unfolding read_each
read_table_entries none type sender ts sent = panic
read_table_entries (some request) type sender ts sent =
    if request.table_id == 0
    then read_each request type sender (values ts) sent
    else elim (lookup request.table_id ts) [
      | none ↦ failed not_found sent
      | some t ↦ read_table request type sender t sent
    ]

-- Tables.Tables
unfoldable pub table_list : Tables → List Table
table_list ts = values ts

-- Tables.Table, which is nil for an unknown id
unfoldable pub table_by_id : ℕ → Tables → Option Table
table_by_id id ts = lookup id ts
