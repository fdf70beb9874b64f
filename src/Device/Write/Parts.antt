-- ===== src/Device/Write/Parts.antt =====
-- One store at a time: what a write of it, and the search for punt rules after it, leave.
use fabric_sim.Prelude.{ℕ, Bytes, [], Bool, some, ◌≡◌, refl}
use fabric_sim.GoMap.{GoMap}
use fabric_sim.Outcome.{Outcome, done, failed, panic, lift, Leaves, returned, refused, crashed}
use fabric_sim.Outcome.Rules.{Leaves-if, Leaves-option, Leaves-map, Leaves-weaken}
use fabric_sim.Entries.Message.{Entity, ReplicationEntry}
use fabric_sim.Entries.Tables.{Tables}
use fabric_sim.Entries.Tables.Invariant.{AreValid}
use fabric_sim.Entries.Cells.{Counters, Meters}
use fabric_sim.Entries.Cells.Laws.{CountersValid, MetersValid}
use fabric_sim.Entries.Profile.{Profiles}
use fabric_sim.Entries.Profile.Bounded.{AreBounded}
use fabric_sim.Entries.Replication.{PacketReplication}
use fabric_sim.Device.Pipeline.{Pipeline, Stores}
use fabric_sim.Device.Punt.{check_punt_to_cpu, punt_tables}
use fabric_sim.Device.Write.{
  on_tables, on_counters, on_meters, on_profiles, on_pre, recheck, modify_unset, delete_unset,
}
use fabric_sim.Device.Stores.{StoresValid, PipelineValid, stored}

pub modify_unset-keeps :
    (e : Entity) (is_insert : Bool) (p : Pipeline)
    → Leaves (λ p'. p' ≡ p) (modify_unset e is_insert p)
unfolding modify_unset
modify_unset-keeps (Entity.counter_entry e) i p = Leaves-if i (λ _. refused refl) (λ _. crashed)
modify_unset-keeps (Entity.direct_counter_entry e) i p =
    Leaves-if i (λ _. refused refl) (λ _. crashed)
modify_unset-keeps (Entity.meter_entry e) i p = Leaves-if i (λ _. refused refl) (λ _. crashed)
modify_unset-keeps (Entity.direct_meter_entry e) i p =
    Leaves-if i (λ _. refused refl) (λ _. crashed)
modify_unset-keeps (Entity.table_entry e) i p = crashed
modify_unset-keeps (Entity.action_profile_group g) i p = crashed
modify_unset-keeps (Entity.action_profile_member m) i p = crashed
modify_unset-keeps (Entity.replication_entry (ReplicationEntry.multicast_group g)) i p = crashed
modify_unset-keeps (Entity.replication_entry (ReplicationEntry.clone_session c)) i p = crashed
modify_unset-keeps _ i p = returned refl

pub delete_unset-keeps : (e : Entity) (p : Pipeline) → Leaves (λ p'. p' ≡ p) (delete_unset e p)
unfolding delete_unset
delete_unset-keeps (Entity.counter_entry e) p = refused refl
delete_unset-keeps (Entity.direct_counter_entry e) p = refused refl
delete_unset-keeps (Entity.meter_entry e) p = refused refl
delete_unset-keeps (Entity.direct_meter_entry e) p = refused refl
delete_unset-keeps (Entity.table_entry e) p = crashed
delete_unset-keeps (Entity.action_profile_group g) p = crashed
delete_unset-keeps (Entity.action_profile_member m) p = crashed
delete_unset-keeps (Entity.replication_entry (ReplicationEntry.multicast_group g)) p = crashed
delete_unset-keeps (Entity.replication_entry (ReplicationEntry.clone_session c)) p = crashed
delete_unset-keeps _ p = returned refl

module _ (sha1 : Bytes → Bytes) where
  pub on_tables-Valid :
      (op : Tables → Outcome Tables) (p : Pipeline) (s : Stores)
      → StoresValid sha1 s
      → Leaves (AreValid sha1) (op s.tables)
      → Leaves (PipelineValid sha1) (on_tables op p s)
  on_tables-Valid op p s v l =
      Leaves-map (λ ts. record p { stores = some (record s { tables = ts }) }) (op s.tables) l
        (λ t q.
          stored sha1 p (record s { tables = t })
            (record {
              tables_valid = q;
              counters_valid = v.counters_valid;
              meters_valid = v.meters_valid;
              profiles_bounded = v.profiles_bounded;
            }))

  pub on_counters-Valid :
      (op : Counters → Outcome Counters) (p : Pipeline) (s : Stores)
      → StoresValid sha1 s
      → Leaves CountersValid (op s.counters)
      → Leaves (PipelineValid sha1) (on_counters op p s)
  on_counters-Valid op p s v l =
      Leaves-map (λ cs. record p { stores = some (record s { counters = cs }) }) (op s.counters) l
        (λ t q.
          stored sha1 p (record s { counters = t })
            (record {
              tables_valid = v.tables_valid;
              counters_valid = q;
              meters_valid = v.meters_valid;
              profiles_bounded = v.profiles_bounded;
            }))

  pub on_meters-Valid :
      (op : Meters → Outcome Meters) (p : Pipeline) (s : Stores)
      → StoresValid sha1 s
      → Leaves MetersValid (op s.meters)
      → Leaves (PipelineValid sha1) (on_meters op p s)
  on_meters-Valid op p s v l =
      Leaves-map (λ ms. record p { stores = some (record s { meters = ms }) }) (op s.meters) l
        (λ t q.
          stored sha1 p (record s { meters = t })
            (record {
              tables_valid = v.tables_valid;
              counters_valid = v.counters_valid;
              meters_valid = q;
              profiles_bounded = v.profiles_bounded;
            }))

  pub on_profiles-Valid :
      (op : Profiles → Outcome Profiles) (p : Pipeline) (s : Stores)
      → StoresValid sha1 s
      → Leaves AreBounded (op s.profiles)
      → Leaves (PipelineValid sha1) (on_profiles op p s)
  on_profiles-Valid op p s v l =
      Leaves-map (λ ps. record p { stores = some (record s { profiles = ps }) }) (op s.profiles) l
        (λ t q.
          stored sha1 p (record s { profiles = t })
            (record {
              tables_valid = v.tables_valid;
              counters_valid = v.counters_valid;
              meters_valid = v.meters_valid;
              profiles_bounded = q;
            }))

  pub on_pre-Valid :
      (op : PacketReplication → Outcome PacketReplication) (p : Pipeline) (s : Stores)
      → StoresValid sha1 s
      → Leaves (PipelineValid sha1) (on_pre op p s)
  on_pre-Valid op p s v = go (op s.pre)
    where
      keep :
          (r : PacketReplication)
          → PipelineValid sha1 (record p { stores = some (record s { pre = r }) })
      keep r =
          stored sha1 p (record s { pre = r })
            (record {
              tables_valid = v.tables_valid;
              counters_valid = v.counters_valid;
              meters_valid = v.meters_valid;
              profiles_bounded = v.profiles_bounded;
            })

      go :
          (m : Outcome PacketReplication)
          → Leaves
              (PipelineValid sha1)
              (lift (λ pr. record p { stores = some (record s { pre = pr }) }) m)
      go (done r) = returned (keep r)
      go (failed e r) = refused (keep r)
      go panic = crashed

  module _ (decode : Bytes → ℕ) where
    -- The recomputation of the punt rules leaves the stores alone.
    pub recheck-Valid :
        (p : Pipeline) → PipelineValid sha1 p → Leaves (PipelineValid sha1) (recheck decode p)
    unfolding recheck check_punt_to_cpu PipelineValid
    recheck-Valid p v =
        Leaves-option p.stores crashed
          (λ s _. go (punt_tables decode p.cpu_actions s.tables p.cpu_tables []))
      where
        go :
            (m : Outcome (GoMap ℕ ℕ))
            → Leaves (PipelineValid sha1) (elim m [
              | done punts ↦ done (record p { punt_to_cpu = punts })
              | failed e punts ↦ failed e (record p { punt_to_cpu = punts })
              | panic ↦ panic
            ])
        go (done punts) = returned v
        go (failed e punts) = refused v
        go panic = crashed

  -- A call that leaves the pipeline as it was.
  pub kept-Valid :
      (p : Pipeline) (m : Outcome Pipeline)
      → PipelineValid sha1 p
      → Leaves (λ p'. p' ≡ p) m
      → Leaves (PipelineValid sha1) m
  kept-Valid p m v l = Leaves-weaken (λ p' e. rw e v) l
