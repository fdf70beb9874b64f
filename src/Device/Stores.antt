-- ===== src/Device/Stores.antt =====
-- What pkg/simulator/device.go keeps of its stores, and SetPipelineConfig, which makes them.
use fabric_sim.Prelude.{map, is_some, Bytes, [], true, some, ◌≡◌, refl}
use fabric_sim.Outcome.{Outcome, done, failed, panic, Leaves, returned, crashed}
use fabric_sim.Outcome.Rules.{Leaves-option}
use fabric_sim.Entries.Message.{P4Info}
use fabric_sim.Entries.Tables.{new_tables}
use fabric_sim.Entries.Tables.Invariant.{AreValid, new_tables-AreValid}
use fabric_sim.Entries.Cells.{Counters, Meters, new_counters, new_meters}
use fabric_sim.Entries.Cells.Laws.{
  CountersValid, MetersValid, new_counters-CountersValid, new_meters-MetersValid,
}
use fabric_sim.Entries.Profile.{new_profiles}
use fabric_sim.Entries.Profile.Bounded.{AreBounded, new_profiles-AreBounded}
use fabric_sim.Entries.Replication.{new_packet_replication}
use fabric_sim.Device.Pipeline.{
  PipelineConfig, Pipeline, Stores, new_stores, find_cpu_actions, find_cpu_tables, sorted_fields,
  set_pipeline_config,
}

module _ (sha1 : Bytes → Bytes) where
  -- The rows of every table stand under the keys of their entries, the cells of the counters and
  -- meters under their indices, and the action profiles are within one of their sizes.
  pub record StoresValid (s : Stores) : Type 0 where
    pub tables_valid : AreValid sha1 s.tables
    pub counters_valid : CountersValid s.counters
    pub meters_valid : MetersValid s.meters
    pub profiles_bounded : AreBounded s.profiles

  -- That of the stores, once they are set.
  unfoldable pub PipelineValid : Pipeline → Type 0
  PipelineValid p = (s : Stores) → p.stores ≡ some s → StoresValid s

  pub stored :
      (p : Pipeline) (s : Stores) → StoresValid s → PipelineValid (record p { stores = some s })
  unfolding PipelineValid
  stored p s v s' e = let q : s ≡ s' = cc in rw q at v

  pub stores_of : (p : Pipeline) (s : Stores) → PipelineValid p → p.stores ≡ some s → StoresValid s
  unfolding PipelineValid
  stores_of p s v h = v s h

  new_stores-Valid : (info : P4Info) → Leaves StoresValid (new_stores info)
  unfolding new_stores
  new_stores-Valid info =
      go (new_counters info.counters) (new_meters info.meters)
        (new_counters-CountersValid info.counters) (new_meters-MetersValid info.meters)
    where
      go :
          (m : Outcome Counters) (n : Outcome Meters)
          → Leaves CountersValid m
          → Leaves MetersValid n
          → Leaves StoresValid (elim m [
            | done cs ↦ elim n [
              | done ms ↦ done (record {
                tables = new_tables info.tables;
                counters = cs;
                meters = ms;
                profiles = new_profiles info.action_profiles;
                pre = new_packet_replication;
              })
              | failed e ms ↦ panic
              | panic ↦ panic
            ]
            | failed e cs ↦ panic
            | panic ↦ panic
          ])
      go (done cs) (done ms) (returned a) (returned b) = returned (record {
        tables_valid = new_tables-AreValid sha1 info.tables;
        counters_valid = a;
        meters_valid = b;
        profiles_bounded = new_profiles-AreBounded info.action_profiles;
      })
      go (done cs) (failed e ms) a b = crashed
      go (done cs) panic a b = crashed
      go (failed e cs) n a b = crashed
      go panic n a b = crashed

  -- Whatever the pipeline was, a configuration that SetPipelineConfig takes leaves valid stores.
  pub set_pipeline_config-Valid :
      (fpc : PipelineConfig) (p : Pipeline)
      → Leaves (λ p'. (is_some p'.stores ≡ true) × PipelineValid p') (set_pipeline_config fpc p)
  unfolding set_pipeline_config PipelineValid
  set_pipeline_config-Valid fpc p = Leaves-option fpc.cookie crashed (λ c _.
      Leaves-option fpc.p4info crashed
        (λ info _. go info (new_stores info) (new_stores-Valid info)))
    where
      go :
          (info : P4Info) (m : Outcome Stores)
          → Leaves StoresValid m
          → Leaves
              (λ p'. (is_some p'.stores ≡ true) × PipelineValid p')
              (elim m [
                | done stores ↦ done (record p {
                  config = record fpc {
                    p4info = some (record info { tables = map sorted_fields info.tables });
                  };
                  stores = some stores;
                  codec_set = true;
                  cpu_actions = find_cpu_actions info.actions [];
                  cpu_tables =
                      find_cpu_tables
                        (find_cpu_actions info.actions [])
                        (map sorted_fields info.tables)
                        [];
                })
                | failed e s ↦ panic
                | panic ↦ panic
              ])
      go info (done s) (returned v) =
          let valid : (s' : Stores) → some s ≡ some s' → StoresValid s' =
            λ s' e. let q : s ≡ s' = cc in rw q at v in
          returned (refl, valid)
      go info (failed e s) v = crashed
      go info panic v = crashed
