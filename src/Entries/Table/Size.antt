-- ===== src/Entries/Table/Size.antt =====
-- The size that a table reports.
use fabric_sim.Prelude.{
  suc, ◌≡◌, refl, sym, ◌∙◌, Bytes, bytes_eq, List, [], ◌∷◌, map, Bool, false, arith, Option-cases,
  inl, inr, is_some, length, length-append, if◌then◌else◌,
}
use fabric_sim.GoMap.{lookup, delete, values, length-values, length-insert, length-delete}
use fabric_sim.Outcome.{done}
use fabric_sim.Entries.Message.{TableEntry}
use fabric_sim.Entries.Key.Canonical.{canonical}
use fabric_sim.Entries.Table.{Row, Table, size, entries, modify_table_entry, remove_table_entry}
use fabric_sim.Entries.Table.Refinement.{row_for}
use fabric_sim.Entries.Table.Invariant.{IsValid}
use fabric_sim.Entries.Table.Effects.{HasKey, modify-eq, modify_row-done}

length-map {ℓ κ} :
    {A : Type ℓ} {B : Type κ} (f : A → B) (xs : List A) → length (map f xs) ≡ length xs
length-map f [] = refl
length-map f (x ∷ xs) = omega (arith, length-map f xs)

-- `Size` counts what `Entries` lists.
pub size-entries : (t : Table) → length (entries t) ≡ size t
unfolding size entries
size-entries t =
    let rows : List TableEntry = map (λ (r : Row). r.entry) (values t.rows) in
    let count : length rows ≡ length t.rows =
      length-map (λ (r : Row). r.entry) (values t.rows) ∙ length-values t.rows in
    elim (Option-cases t.default_row) [
      | inl absent ↦ rw absent count
      | inr (r, found) ↦ rw found (length-append rows (r.entry ∷ []) ∙ omega arith)
    ]

module _ (sha1 : Bytes → Bytes) where
  -- An accepted insert of a plain entry adds one to the size, and an accepted update keeps it.
  pub size-modify :
      (e : TableEntry) (is_insert : Bool) (t t' : Table) (k : Bytes)
      → e.is_default_action ≡ false
      → HasKey sha1 t e k
      → modify_table_entry sha1 e is_insert t ≡ done t'
      → size t' ≡ (if is_insert then suc (size t) else size t)
  unfolding size
  size-modify e is_insert t t' k p key h =
      let (free, write) =
        modify_row-done sha1 k (canonical e) is_insert t t'
          (sym (modify-eq sha1 e is_insert t k p key) ∙ h) in
      ground (arith, length-insert k (row_for (canonical e) (lookup k t.rows)) t.rows)

  -- A removal of a plain entry takes one off the size if the entry was there, and never fails.
  pub size-remove :
      (e : TableEntry) (t : Table) (k : Bytes)
      → IsValid sha1 t
      → e.is_default_action ≡ false
      → HasKey sha1 t e k
      → (t' : Table) × (remove_table_entry sha1 e t ≡ done t')
        × ((if is_some (lookup k t.rows) then suc (size t') else size t') ≡ size t)
  unfolding size remove_table_entry
  size-remove e t k v p key = (
    record t { rows = delete k t.rows },
    simp (p, key),
    ground (arith, length-delete k t.rows v.distinct),
  )
