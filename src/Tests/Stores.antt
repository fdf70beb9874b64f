-- ===== src/Tests/Stores.antt =====
-- The theorems on batches of writes and on configurations.
use fabric_sim.Prelude.{◌≡◌, refl, [], ◌∷◌, true, is_some, some}
use fabric_sim.Outcome.{already_exists, done, failed, state_or, Leaves}
use fabric_sim.Outcome.Rules.{Leaves-done}
use fabric_sim.Outcome.Each.{IsStopped}
use fabric_sim.Entries.Message.{table_entry}
use fabric_sim.Device.Pipeline.{Pipeline, new_pipeline, set_pipeline_config}
use fabric_sim.Device.Stores.{PipelineValid, set_pipeline_config-Valid}
use fabric_sim.Device.Write.{Update, insert, process_update, process_write}
use fabric_sim.Device.Write.Invariant.{process_write-Valid}
use fabric_sim.Device.Write.Batch.{process_write_failed}
use fabric_sim.Tests.Data.{plain_hash, one_byte, arp_entry, same_entry, config}

unfoldable pub set_up : Pipeline
unfolding set_pipeline_config
set_up = state_or new_pipeline (set_pipeline_config config new_pipeline)

set_up_done : set_pipeline_config config new_pipeline ≡ done set_up
unfolding set_up fabric_sim.Entries.Cells.new_counters fabric_sim.Entries.Cells.new_meters
set_up_done = refl

set_up-Valid : PipelineValid plain_hash set_up
set_up-Valid =
    (Leaves-done (set_pipeline_config-Valid plain_hash config new_pipeline) set_up_done).1

abbrev arp_update : Update
arp_update = record { type = insert; entity = some (table_entry arp_entry) }

abbrev same_update : Update
same_update = record { type = insert; entity = some (table_entry same_entry) }

-- The table with the ARP entry.
unfoldable pub written : Pipeline
unfolding process_write
written = state_or set_up (process_write plain_hash one_byte (arp_update ∷ []) set_up)

set_pipeline_config-Valid_example :
    Leaves
      (λ p. (is_some p.stores ≡ true) × PipelineValid plain_hash p)
      (set_pipeline_config config new_pipeline)
set_pipeline_config-Valid_example = set_pipeline_config-Valid plain_hash config new_pipeline

process_write-Valid_example :
    Leaves
      (PipelineValid plain_hash)
      (process_write plain_hash one_byte (arp_update ∷ same_update ∷ []) set_up)
process_write-Valid_example =
    process_write-Valid plain_hash one_byte (arp_update ∷ same_update ∷ []) set_up set_up-Valid

refused_second :
    process_write plain_hash one_byte (arp_update ∷ same_update ∷ []) set_up
    ≡ failed already_exists written
unfolding written set_up fabric_sim.Entries.Cells.new_counters fabric_sim.Entries.Cells.new_meters
    fabric_sim.Entries.Tables.write_table_entry fabric_sim.GoMap.lookup
    fabric_sim.Entries.Tables.new_tables fabric_sim.GoMap.insert
    fabric_sim.Entries.Table.modify_table_entry fabric_sim.Entries.Key.entry_key
    fabric_sim.Entries.Key.Canonical.canonical fabric_sim.Entries.Key.sort_field_matches
    fabric_sim.Entries.Sorting.slice_stable fabric_sim.Entries.Sorting.place
    fabric_sim.Entries.Table.entries fabric_sim.GoMap.values
refused_second = refl

process_write_failed_example :
    IsStopped
      (process_update plain_hash one_byte)
      (arp_update ∷ same_update ∷ [])
      set_up
      already_exists
      written
process_write_failed_example =
    process_write_failed plain_hash one_byte (arp_update ∷ same_update ∷ []) set_up already_exists
      written refused_second
