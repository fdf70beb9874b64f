-- ===== src/Device/Write/Invariant.antt =====
-- The stores that the writes of pkg/simulator/device.go leave.
use fabric_sim.Prelude.{ℕ, Bytes, List, Bool, true, false}
use fabric_sim.Outcome.{done, Leaves, returned, refused}
use fabric_sim.Outcome.Rules.{Leaves-option, Leaves->>=}
use fabric_sim.Outcome.Each.{Leaves-each}
use fabric_sim.Entries.Message.{Entity, ReplicationEntry}
use fabric_sim.Entries.Tables.Invariant.{
  write_table_entry-AreValid, delete_table_entry-AreValid, write_direct_counter_entry-AreValid,
  write_direct_meter_entry-AreValid,
}
use fabric_sim.Entries.Cells.Laws.{
  modify_counter_entry-CountersValid, modify_meter_entry-MetersValid,
}
use fabric_sim.Entries.Profile.Bounded.{
  modify_profile_member-AreBounded, modify_profile_group-AreBounded,
  delete_profile_member-AreBounded, delete_profile_group-AreBounded,
}
use fabric_sim.Device.Pipeline.{Pipeline, Stores}
use fabric_sim.Device.Write.{
  UpdateType, unspecified, insert, modify, delete, Update, on_tables, recheck, modify_stores,
  delete_stores, modify_unset, delete_unset, process_modify, process_delete, entity_of,
  process_update, process_write,
}
use fabric_sim.Entries.Tables.{
  write_table_entry, delete_table_entry, write_direct_counter_entry, write_direct_meter_entry,
}
use fabric_sim.Entries.Cells.{modify_counter_entry, modify_meter_entry}
use fabric_sim.Entries.Profile.{
  modify_profile_member, modify_profile_group, delete_profile_member, delete_profile_group,
}
use fabric_sim.Entries.Replication.{
  modify_multicast, modify_clone_session, delete_multicast, delete_clone_session,
}
use fabric_sim.Device.Stores.{StoresValid, PipelineValid, stores_of}
use fabric_sim.Device.Write.Parts.{
  on_tables-Valid, on_counters-Valid, on_meters-Valid, on_profiles-Valid, on_pre-Valid,
  recheck-Valid, modify_unset-keeps, delete_unset-keeps, kept-Valid,
}

module _ (sha1 : Bytes → Bytes) (decode : Bytes → ℕ) where
  modify_stores-Valid :
      (e : Entity) (is_insert : Bool) (p : Pipeline) (s : Stores)
      → PipelineValid sha1 p
      → StoresValid sha1 s
      → Leaves (PipelineValid sha1) (modify_stores sha1 decode e is_insert p s)
  unfolding modify_stores
  modify_stores-Valid (Entity.table_entry e) i p s w v =
      Leaves->>= (on_tables (write_table_entry sha1 e i) p s) (recheck decode)
        (on_tables-Valid sha1 (write_table_entry sha1 e i) p s v
          (write_table_entry-AreValid sha1 e i s.tables v.tables_valid))
        (recheck-Valid sha1 decode)
  modify_stores-Valid (Entity.counter_entry e) i p s w v =
      on_counters-Valid sha1 (modify_counter_entry e i) p s v
        (modify_counter_entry-CountersValid e i s.counters v.counters_valid)
  modify_stores-Valid (Entity.direct_counter_entry d) i p s w v =
      on_tables-Valid sha1 (write_direct_counter_entry sha1 d i) p s v
        (write_direct_counter_entry-AreValid sha1 d i s.tables v.tables_valid)
  modify_stores-Valid (Entity.meter_entry e) i p s w v =
      on_meters-Valid sha1 (modify_meter_entry e i) p s v
        (modify_meter_entry-MetersValid e i s.meters v.meters_valid)
  modify_stores-Valid (Entity.direct_meter_entry d) i p s w v =
      on_tables-Valid sha1 (write_direct_meter_entry sha1 d i) p s v
        (write_direct_meter_entry-AreValid sha1 d i s.tables v.tables_valid)
  modify_stores-Valid (Entity.action_profile_group g) i p s w v =
      on_profiles-Valid sha1 (modify_profile_group g i) p s v
        (modify_profile_group-AreBounded g i s.profiles v.profiles_bounded)
  modify_stores-Valid (Entity.action_profile_member m) i p s w v =
      on_profiles-Valid sha1 (modify_profile_member m i) p s v
        (modify_profile_member-AreBounded m i s.profiles v.profiles_bounded)
  modify_stores-Valid (Entity.replication_entry (ReplicationEntry.multicast_group g)) i p s w v =
      on_pre-Valid sha1 (modify_multicast g i) p s v
  modify_stores-Valid (Entity.replication_entry (ReplicationEntry.clone_session c)) i p s w v =
      on_pre-Valid sha1 (modify_clone_session c i) p s v
  modify_stores-Valid _ i p s w v = returned w

  delete_stores-Valid :
      (e : Entity) (p : Pipeline) (s : Stores)
      → PipelineValid sha1 p
      → StoresValid sha1 s
      → Leaves (PipelineValid sha1) (delete_stores sha1 decode e p s)
  unfolding delete_stores
  delete_stores-Valid (Entity.table_entry e) p s w v =
      Leaves->>= (on_tables (delete_table_entry sha1 e) p s) (recheck decode)
        (on_tables-Valid sha1 (delete_table_entry sha1 e) p s v
          (delete_table_entry-AreValid sha1 e s.tables v.tables_valid))
        (recheck-Valid sha1 decode)
  delete_stores-Valid (Entity.counter_entry e) p s w v = refused w
  delete_stores-Valid (Entity.direct_counter_entry d) p s w v = refused w
  delete_stores-Valid (Entity.meter_entry e) p s w v = refused w
  delete_stores-Valid (Entity.direct_meter_entry d) p s w v = refused w
  delete_stores-Valid (Entity.action_profile_group g) p s w v =
      on_profiles-Valid sha1 (delete_profile_group g) p s v
        (delete_profile_group-AreBounded g s.profiles v.profiles_bounded)
  delete_stores-Valid (Entity.action_profile_member m) p s w v =
      on_profiles-Valid sha1 (delete_profile_member m) p s v
        (delete_profile_member-AreBounded m s.profiles v.profiles_bounded)
  delete_stores-Valid (Entity.replication_entry (ReplicationEntry.multicast_group g)) p s w v =
      on_pre-Valid sha1 (delete_multicast g) p s v
  delete_stores-Valid (Entity.replication_entry (ReplicationEntry.clone_session c)) p s w v =
      on_pre-Valid sha1 (delete_clone_session c) p s v
  delete_stores-Valid _ p s w v = returned w

  process_modify-Valid :
      (e : Entity) (is_insert : Bool) (p : Pipeline)
      → PipelineValid sha1 p
      → Leaves (PipelineValid sha1) (process_modify sha1 decode e is_insert p)
  unfolding process_modify
  process_modify-Valid e i p v =
      Leaves-option p.stores (kept-Valid sha1 p (modify_unset e i p) v (modify_unset-keeps e i p))
        (λ s h. modify_stores-Valid e i p s v (stores_of sha1 p s v h))

  process_delete-Valid :
      (e : Entity) (p : Pipeline)
      → PipelineValid sha1 p
      → Leaves (PipelineValid sha1) (process_delete sha1 decode e p)
  unfolding process_delete
  process_delete-Valid e p v =
      Leaves-option p.stores (kept-Valid sha1 p (delete_unset e p) v (delete_unset-keeps e p))
        (λ s h. delete_stores-Valid e p s v (stores_of sha1 p s v h))

  process_update-Valid :
      (u : Update) (p : Pipeline)
      → PipelineValid sha1 p
      → Leaves (PipelineValid sha1) (process_update sha1 decode u p)
  unfolding process_update
  process_update-Valid u p v = go u.type
    where
      go :
          (t : UpdateType)
          → Leaves (PipelineValid sha1) (elim t [
            | unspecified ↦ done p
            | insert ↦ process_modify sha1 decode (entity_of u.entity) true p
            | modify ↦ process_modify sha1 decode (entity_of u.entity) false p
            | delete ↦ process_delete sha1 decode (entity_of u.entity) p
          ])
      go unspecified = returned v
      go insert = process_modify-Valid (entity_of u.entity) true p v
      go modify = process_modify-Valid (entity_of u.entity) false p v
      go delete = process_delete-Valid (entity_of u.entity) p v

  -- A batch of writes on valid stores that returns, with or without an error, leaves valid stores:
  -- rows under the keys of their entries, cells under their indices, and action profiles within one
  -- of their size.
  pub process_write-Valid :
      (us : List Update) (p : Pipeline)
      → PipelineValid sha1 p
      → Leaves (PipelineValid sha1) (process_write sha1 decode us p)
  unfolding process_write
  process_write-Valid us p v =
      Leaves-each (process_update sha1 decode) (PipelineValid sha1) process_update-Valid us p v
