-- ===== src/Entries/Tables/Read.antt =====
-- What a read of one table sends, and that it shows what was written.
use mathlib.Core.Path.{fun_ext}
use mathlib.Core.List.{flatten, Mem, Memᴰ, mem-append}
use mathlib.Core.Logic.Or
use fabric_sim.Prelude.{
  nat_eq, bytes_eq, ◌==◌, ◌≡◌, refl, sym, ap, ◌∙◌, Bytes, List, [], ◌∷◌, ◌++◌, map, Bool, false,
  Option, none, some, arith, Bool-cases, inl, inr,
}
use fabric_sim.GoMap.{GoMap, lookup, values}
use fabric_sim.Outcome.{Outcome, done, lift, ◌>>=◌}
use fabric_sim.Outcome.Rules.{bind_assoc, bind-done}
use fabric_sim.Entries.Message.{TableEntry, Entity, table_entry}
use fabric_sim.Entries.Key.Canonical.{canonical}
use fabric_sim.Entries.Table.{Row, Table, modify_table_entry}
use fabric_sim.Entries.Table.Refinement.{row_for}
use fabric_sim.Entries.Table.Effects.{HasKey, modify-done}
use fabric_sim.Entries.Buffer.{
  BatchSender, Buffer, new_buffer, flush, send_entity, send_entities, read_entities,
}
use fabric_sim.Entries.Buffer.Batches.{Batched, read_entities-batches}
use fabric_sim.Entries.Tables.{ReadType, read_table_entry, get_entry, matching_entities, read_table}

-- The entities of the rows, and then that of the default row.
unfoldable pub table_entities : ReadType → Table → List Entity
table_entities type t =
    map (get_entry type) (values t.rows)
    ++ elim t.default_row [ none ↦ [] | some row ↦ get_entry type row ∷ [] ]

matching_entities_lem :
    (request : TableEntry) (type : ReadType) (rows : List Row)
    → matching_entities request type rows ≡ map (get_entry type) rows
unfolding matching_entities
matching_entities_lem request type [] = refl
matching_entities_lem request type (row ∷ rows) =
    ap (◌∷◌ (get_entry type row)) (matching_entities_lem request type rows)

module _ {ℓ} {E : Type ℓ} (sender : BatchSender E) where
  send_entities-append :
      (xs ys : List E) (b : Buffer E)
      → send_entities sender (xs ++ ys) b ≡ (send_entities sender xs b >>= send_entities sender ys)
  unfolding send_entities
  send_entities-append [] ys b = refl
  send_entities-append (x ∷ xs) ys b =
      ap (λ (f : Buffer E → Outcome (Buffer E)). send_entity sender x b >>= f)
        (fun_ext (send_entities-append xs ys))
      ∙ sym
          (bind_assoc (send_entity sender x b) (send_entities sender xs) (send_entities sender ys))

  send_entities_one :
      (e : E) (b : Buffer E) → send_entities sender (e ∷ []) b ≡ send_entity sender e b
  unfolding send_entities
  send_entities_one e b = bind-done (send_entity sender e b)

default_step :
    (sender : BatchSender Entity) (type : ReadType) (o : Option Row) (b : Buffer Entity)
    → elim o [ none ↦ done b | some row ↦ send_entity sender (get_entry type row) b ]
      ≡ send_entities sender (elim o [ none ↦ [] | some row ↦ get_entry type row ∷ [] ]) b
unfolding send_entities
default_step sender type none b = refl
default_step sender type (some row) b = sym (send_entities_one sender (get_entry type row) b)

-- The read of a table is the read of its entities.
read_table-eq :
    (request : TableEntry) (type : ReadType) (sender : BatchSender Entity) (t : Table)
    (sent : List (List Entity))
    → read_table request type sender t sent
      ≡ lift (λ (b : Buffer Entity). b.sent) (read_entities sender (table_entities type t) sent)
unfolding read_table read_entities table_entities
read_table-eq request type sender t sent =
    ap (λ (m : Outcome (Buffer Entity)). lift (λ (b : Buffer Entity). b.sent) (m >>= flush sender))
      (ap
          (λ (es : List Entity). send_entities sender es (new_buffer sent) >>= λ b.
            elim t.default_row [
              | none ↦ done b
              | some row ↦ send_entity sender (get_entry type row) b
            ])
          (matching_entities_lem request type (values t.rows))
        ∙ ap
            (λ (f : Buffer Entity → Outcome (Buffer Entity)).
              send_entities sender (map (get_entry type) (values t.rows)) (new_buffer sent) >>= f)
            (fun_ext (default_step sender type t.default_row))
        ∙ sym (
            send_entities-append sender (map (get_entry type) (values t.rows))
              (elim t.default_row [ none ↦ [] | some row ↦ get_entry type row ∷ [] ])
              (new_buffer sent)))

-- With a sender that takes every batch, a read of a table, whatever entry its request names, sends the entity of every row once, and
-- that of the default row last, in full batches and one last batch that is not full.
pub read_table-batches :
    (request : TableEntry) (type : ReadType) (sender : BatchSender Entity) (t : Table)
    (sent : List (List Entity))
    → ((past : List (List Entity)) (batch : List Entity) → sender past batch ≡ none)
    → (batches : List (List Entity)) × (read_table request type sender t sent
        ≡ done (sent ++ batches))
      × (flatten batches ≡ table_entities type t)
      × Batched batches
read_table-batches request type sender t sent accepts =
    let (after, batches, run, behind, complete, batched) =
      read_entities-batches sender (table_entities type t) sent accepts in
    (batches, read_table-eq request type sender t sent ∙ rw run (ap done behind), complete, batched)

mem_of_lookup :
    (k : Bytes) (m : GoMap Bytes Row) (row : Row) (x : Entity)
    → lookup k m ≡ some row
    → x ≡ get_entry read_table_entry row
    → Memᴰ x (map (get_entry read_table_entry) (values m))
unfolding lookup values
mem_of_lookup k [] row x h e = cc
mem_of_lookup k ((j, r) ∷ m) row x h e = elim (Bool-cases (j == k)) [
  | inl here ↦
      let same : row ≡ r = ground arith in Memᴰ.head (e ∙ ap (get_entry read_table_entry) same)
  | inr there ↦ Memᴰ.tail (mem_of_lookup k m row x (ground arith) e)
]

get_entry-row_for :
    (e : TableEntry) (o : Option Row) → table_entry e ≡ get_entry read_table_entry (row_for e o)
unfolding get_entry row_for
get_entry-row_for e none = refl
get_entry-row_for e (some old) = refl

-- A plain entry that was written is among what a read of the table sends, whatever entry the request
-- of the read names, with its matches in canonical order.
pub read-modify :
    (sha1 : Bytes → Bytes) (e : TableEntry) (is_insert : Bool) (t t' : Table) (k : Bytes)
    → e.is_default_action ≡ false
    → HasKey sha1 t e k
    → modify_table_entry sha1 e is_insert t ≡ done t'
    → (request : TableEntry) (sender : BatchSender Entity) (sent : List (List Entity))
    → ((past : List (List Entity)) (batch : List Entity) → sender past batch ≡ none)
    → (batches : List (List Entity)) × (read_table request read_table_entry sender t' sent
        ≡ done (sent ++ batches))
      × Mem (table_entry (canonical e)) (flatten batches)
unfolding table_entities
read-modify sha1 e is_insert t t' k p key h request sender sent accepts =
    let (batches, run, complete, batched) =
      read_table-batches request read_table_entry sender t' sent accepts in
    let (free, rows, same_default, same_info) = modify-done sha1 e is_insert t t' k p key h in
    let old : Option Row = lookup k t.rows in
    let here : Memᴰ (table_entry (canonical e))
        (map (get_entry read_table_entry) (values t'.rows)) =
      mem_of_lookup k t'.rows (row_for (canonical e) old) (table_entry (canonical e))
        (ground (arith, bytes_eq.beq_iff k k, rows k)) (get_entry-row_for (canonical e) old) in
    (batches, run, rw complete (mem-append.1 (Or.inl ∣ here ∣₁)))
