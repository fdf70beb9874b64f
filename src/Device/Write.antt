-- ===== src/Device/Write.antt =====
-- ProcessWrite, processModify and processDelete of pkg/simulator/device.go.
pub mod Batch
pub mod Parts
pub mod Invariant
use fabric_sim.Prelude.{
  ℕ, Bytes, List, [], ◌∷◌, Bool, true, false, Option, none, some, if◌then◌else◌,
}
use fabric_sim.GoMap.{GoMap}
use fabric_sim.Outcome.{Error, invalid, unavailable, Outcome, done, failed, panic, lift, ◌>>=◌}
use fabric_sim.Outcome.Each.{each}
use fabric_sim.Entries.Message
use fabric_sim.Entries.Message.{Entity, ReplicationEntry}
use fabric_sim.Entries.Tables.{
  Tables, write_table_entry, delete_table_entry, write_direct_counter_entry,
  write_direct_meter_entry,
}
use fabric_sim.Entries.Cells.{Counters, Meters, modify_counter_entry, modify_meter_entry}
use fabric_sim.Entries.Profile.{
  Profiles, modify_profile_member, modify_profile_group, delete_profile_member,
  delete_profile_group,
}
use fabric_sim.Entries.Replication.{
  PacketReplication, modify_multicast, modify_clone_session, delete_multicast, delete_clone_session,
}
use fabric_sim.Device.Pipeline.{Pipeline, Stores}
use fabric_sim.Device.Punt.{check_punt_to_cpu}

-- p4api.Update
pub data UpdateType : Type 0 where
  unspecified insert modify delete : UpdateType

pub record Update : Type 0 where
  pub type : UpdateType
  pub entity : Option Entity

-- Writes of one store of the device.
abbrev pub on_tables : (Tables → Outcome Tables) → Pipeline → Stores → Outcome Pipeline
on_tables op p s = lift (λ ts. record p { stores = some (record s { tables = ts }) }) (op s.tables)

abbrev pub on_counters : (Counters → Outcome Counters) → Pipeline → Stores → Outcome Pipeline
on_counters op p s =
    lift (λ cs. record p { stores = some (record s { counters = cs }) }) (op s.counters)

abbrev pub on_meters : (Meters → Outcome Meters) → Pipeline → Stores → Outcome Pipeline
on_meters op p s = lift (λ ms. record p { stores = some (record s { meters = ms }) }) (op s.meters)

abbrev pub on_profiles : (Profiles → Outcome Profiles) → Pipeline → Stores → Outcome Pipeline
on_profiles op p s =
    lift (λ ps. record p { stores = some (record s { profiles = ps }) }) (op s.profiles)

abbrev pub on_pre :
    (PacketReplication → Outcome PacketReplication) → Pipeline → Stores → Outcome Pipeline
on_pre op p s = lift (λ pr. record p { stores = some (record s { pre = pr }) }) (op s.pre)

-- `if err == nil { ds.checkPuntToCPU() }`, with the tables just written
unfoldable pub recheck : (Bytes → ℕ) → Pipeline → Outcome Pipeline
unfolding check_punt_to_cpu
recheck decode p = elim p.stores [ none ↦ panic | some s ↦ check_punt_to_cpu decode s.tables p ]

-- processModify and processDelete, while the pointers to the stores are nil: a method that reads its receiver
-- panics, and the cell and direct writes refuse an insert before they read it.
unfoldable pub modify_unset : Entity → Bool → Pipeline → Outcome Pipeline
modify_unset (Entity.counter_entry e) is_insert p = if is_insert then failed invalid p else panic
modify_unset (Entity.direct_counter_entry d) is_insert p =
    if is_insert then failed invalid p else panic
modify_unset (Entity.meter_entry e) is_insert p = if is_insert then failed invalid p else panic
modify_unset (Entity.direct_meter_entry d) is_insert p =
    if is_insert then failed invalid p else panic
modify_unset (Entity.table_entry e) is_insert p = panic
modify_unset (Entity.action_profile_group g) is_insert p = panic
modify_unset (Entity.action_profile_member m) is_insert p = panic
modify_unset (Entity.replication_entry (ReplicationEntry.multicast_group g)) is_insert p = panic
modify_unset (Entity.replication_entry (ReplicationEntry.clone_session c)) is_insert p = panic
modify_unset _ is_insert p = done p

unfoldable pub delete_unset : Entity → Pipeline → Outcome Pipeline
delete_unset (Entity.counter_entry e) p = failed invalid p
delete_unset (Entity.direct_counter_entry d) p = failed invalid p
delete_unset (Entity.meter_entry e) p = failed invalid p
delete_unset (Entity.direct_meter_entry d) p = failed invalid p
delete_unset (Entity.table_entry e) p = panic
delete_unset (Entity.action_profile_group g) p = panic
delete_unset (Entity.action_profile_member m) p = panic
delete_unset (Entity.replication_entry (ReplicationEntry.multicast_group g)) p = panic
delete_unset (Entity.replication_entry (ReplicationEntry.clone_session c)) p = panic
delete_unset _ p = done p

-- The getters of a nil entity return nil, as those of an empty one.
abbrev pub entity_of : Option Entity → Entity
entity_of none = Entity.unset
entity_of (some e) = e

module _ (sha1 : Bytes → Bytes) (decode : Bytes → ℕ) where
  -- processModify, where the stores are set
  unfoldable pub modify_stores : Entity → Bool → Pipeline → Stores → Outcome Pipeline
  unfolding recheck
  modify_stores (Entity.table_entry e) is_insert p s =
      on_tables (write_table_entry sha1 e is_insert) p s >>= recheck decode
  modify_stores (Entity.counter_entry e) is_insert p s =
      on_counters (modify_counter_entry e is_insert) p s
  modify_stores (Entity.direct_counter_entry d) is_insert p s =
      on_tables (write_direct_counter_entry sha1 d is_insert) p s
  modify_stores (Entity.meter_entry e) is_insert p s =
      on_meters (modify_meter_entry e is_insert) p s
  modify_stores (Entity.direct_meter_entry d) is_insert p s =
      on_tables (write_direct_meter_entry sha1 d is_insert) p s
  modify_stores (Entity.action_profile_group g) is_insert p s =
      on_profiles (modify_profile_group g is_insert) p s
  modify_stores (Entity.action_profile_member m) is_insert p s =
      on_profiles (modify_profile_member m is_insert) p s
  modify_stores (Entity.replication_entry (ReplicationEntry.multicast_group g)) is_insert p s =
      on_pre (modify_multicast g is_insert) p s
  modify_stores (Entity.replication_entry (ReplicationEntry.clone_session c)) is_insert p s =
      on_pre (modify_clone_session c is_insert) p s
  modify_stores _ is_insert p s = done p

  -- processDelete, where the stores are set
  unfoldable pub delete_stores : Entity → Pipeline → Stores → Outcome Pipeline
  unfolding recheck
  delete_stores (Entity.table_entry e) p s =
      on_tables (delete_table_entry sha1 e) p s >>= recheck decode
  delete_stores (Entity.counter_entry e) p s = failed invalid p
  delete_stores (Entity.direct_counter_entry d) p s = failed invalid p
  delete_stores (Entity.meter_entry e) p s = failed invalid p
  delete_stores (Entity.direct_meter_entry d) p s = failed invalid p
  delete_stores (Entity.action_profile_group g) p s = on_profiles (delete_profile_group g) p s
  delete_stores (Entity.action_profile_member m) p s = on_profiles (delete_profile_member m) p s
  delete_stores (Entity.replication_entry (ReplicationEntry.multicast_group g)) p s =
      on_pre (delete_multicast g) p s
  delete_stores (Entity.replication_entry (ReplicationEntry.clone_session c)) p s =
      on_pre (delete_clone_session c) p s
  delete_stores _ p s = done p

  -- processModify
  unfoldable pub process_modify : Entity → Bool → Pipeline → Outcome Pipeline
  unfolding modify_stores modify_unset
  process_modify e is_insert p = elim p.stores [
    | none ↦ modify_unset e is_insert p
    | some s ↦ modify_stores e is_insert p s
  ]

  -- processDelete
  unfoldable pub process_delete : Entity → Pipeline → Outcome Pipeline
  unfolding delete_stores delete_unset
  process_delete e p = elim p.stores [ none ↦ delete_unset e p | some s ↦ delete_stores e p s ]

  -- The body of the loop of ProcessWrite.
  unfoldable pub process_update : Update → Pipeline → Outcome Pipeline
  unfolding process_modify process_delete
  process_update u p = elim u.type [
    | unspecified ↦ done p
    | insert ↦ process_modify (entity_of u.entity) true p
    | modify ↦ process_modify (entity_of u.entity) false p
    | delete ↦ process_delete (entity_of u.entity) p
  ]

  -- ProcessWrite: NewDeviceSimulator sets a configuration and SetPipelineConfig never leaves nil,
  -- so the guard on it passes.
  unfoldable pub process_write : List Update → Pipeline → Outcome Pipeline
  unfolding process_update each
  process_write = each process_update
