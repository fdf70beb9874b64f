-- ===== src/Entries/Buffer.antt =====
-- entityBuffer of pkg/simulator/entries/table.go: read results are sent in batches.
-- A BatchSender is the client's function: what it returns may depend on every batch that it was
-- given before. The batches that it was given are part of the state.
pub mod Batches
use fabric_sim.Prelude.{
  ℕ, Option, none, some, List, [], ◌∷◌, ◌++◌, length, if◌then◌else◌, nat_eq, ◌==◌,
}
use fabric_sim.Outcome.{Error, Outcome, done, failed, ◌>>=◌}

-- make([]*p4api.Entity, 0, 64): `eb.entities[:0]` keeps the capacity.
abbrev pub capacity : ℕ
capacity = 64

abbrev pub BatchSender {ℓ} : Type ℓ → Type ℓ
BatchSender E = List (List E) → List E → Option Error

-- entityBuffer, with the batches that the sender was given so far
pub record Buffer {ℓ} (E : Type ℓ) : Type ℓ where
  pub entities : List E
  pub sent : List (List E)

module _ {ℓ} {E : Type ℓ} where
  -- newBuffer
  unfoldable pub new_buffer : List (List E) → Buffer E
  new_buffer sent = record { entities = []; sent = sent }

  -- flush: the buffer is emptied, also when the sender fails.
  unfoldable pub flush : BatchSender E → Buffer E → Outcome (Buffer E)
  flush sender b =
      let after : Buffer E = record { entities = []; sent = b.sent ++ b.entities ∷ [] } in
      elim (sender b.sent b.entities) [ none ↦ done after | some e ↦ failed e after ]

  -- sendEntity
  unfoldable pub send_entity : BatchSender E → E → Buffer E → Outcome (Buffer E)
  unfolding flush
  send_entity sender e b =
      let longer : Buffer E = record b { entities = b.entities ++ e ∷ [] } in
      if length longer.entities == capacity then flush sender longer else done longer

  -- The loop of every read: one `sendEntity` after the other, up to the first error.
  unfoldable pub send_entities : BatchSender E → List E → Buffer E → Outcome (Buffer E)
  unfolding send_entity
  send_entities sender [] b = done b
  send_entities sender (e ∷ es) b = send_entity sender e b >>= send_entities sender es

  -- A whole read: a new buffer, the loop, and the last flush.
  unfoldable pub read_entities : BatchSender E → List E → List (List E) → Outcome (Buffer E)
  unfolding new_buffer send_entities flush
  read_entities sender es sent = send_entities sender es (new_buffer sent) >>= flush sender
