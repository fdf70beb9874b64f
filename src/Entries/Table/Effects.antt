-- ===== src/Entries/Table/Effects.antt =====
-- What a client reads after a write to one table, and which writes are refused.
use mathlib.Core.List.{Nodup, Perm}
use fabric_sim.Prelude.{
  ◌≡◌, sym, Bytes, bytes_eq, map, Bool, true, false, some, arith, if◌then◌else◌, ◌==◌, inl, inr,
  is_some, not, ap, ◌∙◌,
}
use fabric_sim.GoMap.{lookup, insert, delete, lookup-insert, lookup-delete}
use fabric_sim.Outcome.{Error, already_exists, done, failed, ok}
use fabric_sim.Outcome.Rules.{Result-cases}
use fabric_sim.Entries.Message.{TableEntry}
use fabric_sim.Entries.Key.{entry_key}
use fabric_sim.Entries.Key.Canonical.{canonical, entry_key-canonical}
use fabric_sim.Entries.Key.Injective.{entry_key-ignores_field_ids}
use fabric_sim.Entries.Table.Refinement.{row_for}
use fabric_sim.Entries.Table.{Row, Table, modify_row, modify_table_entry, remove_table_entry}

module _ (sha1 : Bytes → Bytes) where
  -- The key of an entry in a table.
  abbrev pub HasKey : Table → TableEntry → Bytes → Type 0
  HasKey t e k = entry_key sha1 t.info.match_fields (canonical e) ≡ ok k

  modify_row_failed :
      (key : Bytes) (e : TableEntry) (is_insert : Bool) (t : Table) {x : Error} {t' : Table}
      → modify_row sha1 key e is_insert t ≡ failed x t'
      → t' ≡ t
  unfolding modify_row
  modify_row_failed key e is_insert t h = ground arith

  -- A refused insert or update leaves the table as it was.
  pub modify_table_entry_failed :
      (e : TableEntry) (is_insert : Bool) (t : Table) {x : Error} {t' : Table}
      → modify_table_entry sha1 e is_insert t ≡ failed x t'
      → t' ≡ t
  unfolding modify_table_entry
  modify_table_entry_failed e is_insert t {x} {t'} h =
      elim (Result-cases (entry_key sha1 t.info.match_fields (canonical e))) [
        | inl (key, k) ↦
            ground (arith, modify_row_failed key (canonical e) is_insert t {x = x} {t' = t'})
        | inr (y, k) ↦ ground arith
      ]

  modify_row-taken :
      (key : Bytes) (e : TableEntry) (t : Table) (row : Row)
      → lookup key t.rows ≡ some row
      → modify_row sha1 key e true t ≡ failed already_exists t
  unfolding modify_row
  modify_row-taken key e t row h = rw (h, modify_row)

  -- The write that an accepted call makes.
  pub modify_row-done :
      (key : Bytes) (e : TableEntry) (is_insert : Bool) (t t' : Table)
      → modify_row sha1 key e is_insert t ≡ done t'
      → (is_some (lookup key t.rows) ≡ not is_insert)
        × (t' ≡ record t { rows = insert key (row_for e (lookup key t.rows)) t.rows })
  unfolding modify_row row_for
  modify_row-done key e is_insert t t' h = ground arith

  pub modify-eq :
      (e : TableEntry) (is_insert : Bool) (t : Table) (k : Bytes)
      → e.is_default_action ≡ false
      → HasKey t e k
      → modify_table_entry sha1 e is_insert t ≡ modify_row sha1 k (canonical e) is_insert t
  unfolding modify_table_entry
  modify-eq e is_insert t k p key = simp (p, key)

  pub modify-done :
      (e : TableEntry) (is_insert : Bool) (t t' : Table) (k : Bytes)
      → e.is_default_action ≡ false
      → HasKey t e k
      → modify_table_entry sha1 e is_insert t ≡ done t'
      → (is_some (lookup k t.rows) ≡ not is_insert)
        × ((j : Bytes)
            → lookup j t'.rows ≡ (
                if k == j then some (row_for (canonical e) (lookup k t.rows)) else lookup j t.rows))
        × (t'.default_row ≡ t.default_row)
        × (t'.info ≡ t.info)
  modify-done e is_insert t t' k p key h =
      let (free, write) =
        modify_row-done k (canonical e) is_insert t t'
          (sym (modify-eq e is_insert t k p key) ∙ h) in
      (
        free,
        λ j. rw write (lookup-insert k j (row_for (canonical e) (lookup k t.rows)) t.rows),
        ap (λ (s : Table). s.default_row) write,
        ap (λ (s : Table). s.info) write,
      )

  -- A plain entry that was inserted is removed by its own match fields: every row is then what it
  -- was before the insert.
  pub remove-insert :
      (e : TableEntry) (t t' : Table) (k : Bytes)
      → e.is_default_action ≡ false
      → HasKey t e k
      → modify_table_entry sha1 e true t ≡ done t'
      → (u : Table) × (remove_table_entry sha1 e t' ≡ done u)
        × ((j : Bytes) → lookup j u.rows ≡ lookup j t.rows)
        × (u.default_row ≡ t.default_row)
  unfolding remove_table_entry
  remove-insert e t t' k p key h =
      let (free, rows, same_default, same_info) = modify-done e true t t' k p key h in
      (
        record t' { rows = delete k t'.rows },
        simp (p, same_info, key),
        λ j. ground (arith, bytes_eq.beq_iff k j, lookup-delete k j t'.rows, rows j),
        same_default,
      )

  insert-insert :
      (e f : TableEntry) (t t' : Table) (k : Bytes)
      → e.is_default_action ≡ false
      → f.is_default_action ≡ false
      → HasKey t e k
      → HasKey t f k
      → modify_table_entry sha1 e true t ≡ done t'
      → modify_table_entry sha1 f true t' ≡ failed already_exists t'
  insert-insert e f t t' k p q key key' h =
      let (free, rows, same_default, same_info) = modify-done e true t t' k p key h in
      modify-eq f true t' k q (rw same_info key')
      ∙ modify_row-taken k (canonical f) t' (row_for (canonical e) (lookup k t.rows))
          (ground (arith, bytes_eq.beq_iff k k, rows k))

  -- Once an entry is inserted, it is refused a second time as existing, in whatever order its
  -- matches, on distinct fields, are given.
  pub insert-insert_perm :
      (e f : TableEntry) (t t' : Table) (k : Bytes)
      → e.is_default_action ≡ false
      → f.is_default_action ≡ false
      → Perm e.matches f.matches
      → Nodup (map (λ m. m.field_id) e.matches)
      → e.priority ≡ f.priority
      → HasKey t e k
      → modify_table_entry sha1 e true t ≡ done t'
      → modify_table_entry sha1 f true t' ≡ failed already_exists t'
  insert-insert_perm e f t t' k p q perm nodup priorities key h =
      insert-insert e f t t' k p q key
        (sym (entry_key-canonical sha1 t.info.match_fields e f perm nodup priorities) ∙ key) h

  -- The field ids are left out of the key: once an entry is inserted, an entry of the same
  -- priority whose matches have the same values in canonical order is refused as existing, also
  -- where it matches on other fields.
  pub insert-insert_other_fields :
      (e f : TableEntry) (t t' : Table) (k : Bytes)
      → e.is_default_action ≡ false
      → f.is_default_action ≡ false
      → map (λ m. m.kind) (canonical e).matches ≡ map (λ m. m.kind) (canonical f).matches
      → e.priority ≡ f.priority
      → HasKey t e k
      → modify_table_entry sha1 e true t ≡ done t'
      → modify_table_entry sha1 f true t' ≡ failed already_exists t'
  unfolding canonical
  insert-insert_other_fields e f t t' k p q kinds priorities key h =
      insert-insert e f t t' k p q key
        (sym (
            entry_key-ignores_field_ids sha1 t.info.match_fields (canonical e) (canonical f) kinds
              priorities)
          ∙ key)
        h
