-- ===== src/Entries/Tables/Invariant.antt =====
-- Every table of a device stays valid, and stands under its own id.
use fabric_sim.Prelude.{ℕ, nat_eq, Bytes, List, [], ◌∷◌, Bool}
use fabric_sim.GoMap.{lookup, insert, HasDistinctKeys, insert-HasDistinctKeys}
use fabric_sim.GoMap.Every.{Every, insert-Every, lookup-Every}
use fabric_sim.Outcome.{Outcome, Leaves, refused, crashed}
use fabric_sim.Outcome.Rules.{Leaves-if, Leaves-option, Leaves-map}
use fabric_sim.Entries.Message.{TableEntry, DirectCounterEntry, DirectMeterEntry, TableInfo}
use fabric_sim.Entries.Table.{
  Table, new_table, modify_table_entry, remove_table_entry, modify_direct_counter_entry,
  modify_direct_meter_entry,
}
use fabric_sim.Entries.Table.Invariant.{
  IsValid, new_table-IsValid, modify_table_entry-IsValid, remove_table_entry-IsValid,
  modify_direct_counter_entry-IsValid, modify_direct_meter_entry-IsValid,
}
use fabric_sim.Entries.Tables.{
  Tables, add_tables, new_tables, on_table, write_table_entry, delete_table_entry,
  write_direct_counter_entry, write_direct_meter_entry,
}

module _ (sha1 : Bytes → Bytes) where
  pub record AreValid (ts : Tables) : Type 0 where
    pub distinct : HasDistinctKeys ts
    pub each : Every (λ id t. IsValid sha1 t) ts

  put-AreValid :
      (id : ℕ) (t : Table) (ts : Tables) → IsValid sha1 t → AreValid ts → AreValid (insert id t ts)
  put-AreValid id t ts v vs = record {
    distinct = insert-HasDistinctKeys id t ts vs.distinct;
    each = insert-Every (λ id t. IsValid sha1 t) id t ts v vs.each;
  }

  add_tables-AreValid :
      (infos : List TableInfo) (ts : Tables) → AreValid ts → AreValid (add_tables infos ts)
  unfolding add_tables
  add_tables-AreValid [] ts v = v
  add_tables-AreValid (i ∷ is) ts v =
      add_tables-AreValid is (insert i.id (new_table i) ts)
        (put-AreValid i.id (new_table i) ts (new_table-IsValid sha1 i) v)

  pub new_tables-AreValid : (infos : List TableInfo) → AreValid (new_tables infos)
  unfolding new_tables
  new_tables-AreValid infos = add_tables-AreValid infos [] (record { distinct = tt; each = tt })

  on_table-AreValid :
      (id : ℕ) (op : Table → Outcome Table) (ts : Tables)
      → ((t : Table) → IsValid sha1 t → Leaves (IsValid sha1) (op t))
      → AreValid ts
      → Leaves AreValid (on_table id op ts)
  unfolding on_table
  on_table-AreValid id op ts keep v = Leaves-option (lookup id ts) (refused v) (λ t found.
      Leaves-map (λ t'. insert id t' ts) (op t)
        (keep t (lookup-Every (λ id t. IsValid sha1 t) id ts found v.each))
        (λ t' v'. put-AreValid id t' ts v' v))

  pub write_table_entry-AreValid :
      (e : TableEntry) (is_insert : Bool) (ts : Tables)
      → AreValid ts
      → Leaves AreValid (write_table_entry sha1 e is_insert ts)
  unfolding write_table_entry
  write_table_entry-AreValid e is_insert ts v =
      on_table-AreValid e.table_id (modify_table_entry sha1 e is_insert) ts
        (modify_table_entry-IsValid sha1 e is_insert) v

  pub delete_table_entry-AreValid :
      (e : TableEntry) (ts : Tables) → AreValid ts → Leaves AreValid (delete_table_entry sha1 e ts)
  unfolding delete_table_entry
  delete_table_entry-AreValid e ts v =
      on_table-AreValid e.table_id (remove_table_entry sha1 e) ts
        (remove_table_entry-IsValid sha1 e) v

  pub write_direct_counter_entry-AreValid :
      (d : DirectCounterEntry) (is_insert : Bool) (ts : Tables)
      → AreValid ts
      → Leaves AreValid (write_direct_counter_entry sha1 d is_insert ts)
  unfolding write_direct_counter_entry
  write_direct_counter_entry-AreValid d is_insert ts v =
      Leaves-if is_insert (λ _. refused v)
        (λ _. Leaves-option d.table_entry crashed (λ e _.
          on_table-AreValid e.table_id (modify_direct_counter_entry sha1 d) ts
            (modify_direct_counter_entry-IsValid sha1 d) v))

  pub write_direct_meter_entry-AreValid :
      (d : DirectMeterEntry) (is_insert : Bool) (ts : Tables)
      → AreValid ts
      → Leaves AreValid (write_direct_meter_entry sha1 d is_insert ts)
  unfolding write_direct_meter_entry
  write_direct_meter_entry-AreValid d is_insert ts v =
      Leaves-if is_insert (λ _. refused v)
        (λ _. Leaves-option d.table_entry crashed (λ e _.
          on_table-AreValid e.table_id (modify_direct_meter_entry sha1 d) ts
            (modify_direct_meter_entry-IsValid sha1 d) v))
