-- ===== src/Entries/Table/Invariant.antt =====
-- One table: the row invariant, what each write does to every key, and its errors.
use fabric_sim.Prelude.{
  ◌≡◌, refl, Bytes, bytes_eq, List, [], ◌∷◌, ltb, length, Bool, true, false, some, arith,
}
use fabric_sim.GoMap.{
  lookup, insert, HasDistinctKeys, insert-HasDistinctKeys, delete-HasDistinctKeys,
}
use fabric_sim.GoMap.Every.{Every, insert-Every, delete-Every, lookup-Every}
use fabric_sim.Outcome.{Leaves, returned, refused, crashed, ok}
use fabric_sim.Outcome.Rules.{Leaves-if, Leaves-option, Leaves-result}
use fabric_sim.Entries.Message.{
  FieldMatch, TableEntry, DirectCounterEntry, DirectMeterEntry, TableInfo,
}
use fabric_sim.Entries.Key.{entry_key}
use fabric_sim.Entries.Key.Canonical.{canonical}
use fabric_sim.Entries.Table.{
  Row, Table, new_row, new_table, update_row, modify_row, has_matches, modify_table_entry,
  remove_table_entry, modify_direct, modify_direct_counter_entry, modify_direct_meter_entry,
}

module _ (sha1 : Bytes → Bytes) where
  -- A row stands under the key of its own entry, and holds no default action.
  pub record IsKeyedBy (info : TableInfo) (key : Bytes) (row : Row) : Type 0 where
    pub keyed : entry_key sha1 info.match_fields row.entry ≡ ok key
    pub plain : row.entry.is_default_action ≡ false

  pub record IsDefault (row : Row) : Type 0 where
    pub marked : row.entry.is_default_action ≡ true
    pub bare : row.entry.matches ≡ []

  pub record IsValid (t : Table) : Type 0 where
    pub distinct : HasDistinctKeys t.rows
    pub keyed : Every (IsKeyedBy t.info) t.rows
    pub default_ok : (r : Row) → t.default_row ≡ some r → IsDefault r

  pub new_table-IsValid : (info : TableInfo) → IsValid (new_table info)
  unfolding new_table
  new_table-IsValid info = record { distinct = tt; keyed = tt; default_ok = λ r h. cc }

  bare_matches : (ms : List FieldMatch) → ltb 0 (length ms) ≡ false → ms ≡ []
  bare_matches [] h = refl
  bare_matches (m ∷ ms) h = ground arith

  put_row-IsValid :
      (key : Bytes) (row : Row) (t : Table)
      → IsKeyedBy t.info key row
      → IsValid t
      → IsValid (record t { rows = insert key row t.rows })
  put_row-IsValid key row t k v = record {
    distinct = insert-HasDistinctKeys key row t.rows v.distinct;
    keyed = insert-Every (IsKeyedBy t.info) key row t.rows k v.keyed;
    default_ok = v.default_ok;
  }

  update_row-IsKeyedBy :
      (info : TableInfo) (key : Bytes) (e : TableEntry) (is_insert : Bool) (row : Row)
      → entry_key sha1 info.match_fields e ≡ ok key
      → e.is_default_action ≡ false
      → IsKeyedBy info key (update_row e is_insert row)
  unfolding update_row
  update_row-IsKeyedBy info key e is_insert row k p = record { keyed = k; plain = p }

  put_default-IsValid :
      (e : TableEntry) (t : Table)
      → e.is_default_action ≡ true
      → has_matches e ≡ false
      → IsValid t
      → IsValid (record t { default_row = some (new_row e) })
  unfolding new_row
  put_default-IsValid e t marked bare v = record {
    distinct = v.distinct;
    keyed = v.keyed;
    default_ok = λ r h. ground (arith, bare_matches e.matches bare);
  }

  modify_row-IsValid :
      (key : Bytes) (e : TableEntry) (is_insert : Bool) (t : Table)
      → entry_key sha1 t.info.match_fields e ≡ ok key
      → e.is_default_action ≡ false
      → IsValid t
      → Leaves IsValid (modify_row sha1 key e is_insert t)
  unfolding modify_row
  modify_row-IsValid key e is_insert t k p v =
      Leaves-option (lookup key t.rows)
        (Leaves-if is_insert (λ _. returned (put (new_row e))) (λ _. refused v))
        (λ row _. Leaves-if is_insert (λ _. refused v) (λ _. returned (put row)))
    where
      put :
          (row : Row) → IsValid (record t { rows = insert key (update_row e is_insert row) t.rows })
      put row = put_row-IsValid key _ t (update_row-IsKeyedBy t.info key e is_insert row k p) v

  pub modify_table_entry-IsValid :
      (e : TableEntry) (is_insert : Bool) (t : Table)
      → IsValid t
      → Leaves IsValid (modify_table_entry sha1 e is_insert t)
  unfolding modify_table_entry canonical
  modify_table_entry-IsValid e is_insert t v =
      Leaves-if e.is_default_action
        (λ marked.
          Leaves-if is_insert (λ _. refused v)
            (λ _.
              Leaves-if (has_matches e) (λ _. refused v)
                (λ bare. returned (put_default-IsValid e t marked bare v))))
        (λ plain.
          Leaves-result (entry_key sha1 t.info.match_fields (canonical e))
            (λ key k. modify_row-IsValid key (canonical e) is_insert t k plain v) (λ x. refused v))

  pub remove_table_entry-IsValid :
      (e : TableEntry) (t : Table) → IsValid t → Leaves IsValid (remove_table_entry sha1 e t)
  unfolding remove_table_entry
  remove_table_entry-IsValid e t v =
      Leaves-if e.is_default_action (λ _. refused v)
        (λ _.
          Leaves-result (entry_key sha1 t.info.match_fields (canonical e))
            (λ key _. returned (record {
              distinct = delete-HasDistinctKeys key t.rows v.distinct;
              keyed = delete-Every (IsKeyedBy t.info) key t.rows v.keyed;
              default_ok = v.default_ok;
            }))
            (λ x. refused v))

  modify_direct-IsValid :
      (e : TableEntry) (change : Row → Row) (t : Table)
      → ((row : Row) → (change row).entry ≡ row.entry)
      → IsValid t
      → Leaves IsValid (modify_direct sha1 e change t)
  unfolding modify_direct
  modify_direct-IsValid e change t same v =
      Leaves-result (entry_key sha1 t.info.match_fields (canonical e))
        (λ key _. Leaves-option (lookup key t.rows) (refused v) (λ row found.
          let old = lookup-Every (IsKeyedBy t.info) key t.rows found v.keyed in
          returned (
            put_row-IsValid key (change row) t
              (record { keyed = rw same old.keyed; plain = rw same old.plain }) v)))
        (λ x. refused v)

  pub modify_direct_counter_entry-IsValid :
      (d : DirectCounterEntry) (t : Table)
      → IsValid t
      → Leaves IsValid (modify_direct_counter_entry sha1 d t)
  unfolding modify_direct_counter_entry
  modify_direct_counter_entry-IsValid d t v = Leaves-option d.table_entry crashed (λ e _.
      modify_direct-IsValid e (λ row. record row { counter_data = d.counter_data }) t (λ row. refl)
        v)

  pub modify_direct_meter_entry-IsValid :
      (d : DirectMeterEntry) (t : Table)
      → IsValid t
      → Leaves IsValid (modify_direct_meter_entry sha1 d t)
  unfolding modify_direct_meter_entry
  modify_direct_meter_entry-IsValid d t v = Leaves-option d.table_entry crashed (λ e _.
      modify_direct-IsValid e (λ row. record row { meter_config = d.config }) t (λ row. refl) v)
