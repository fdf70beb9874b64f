-- ===== src/Device/Snapshot.antt =====
-- The pipeline information of a device that pkg/simulator/device.go shows to the management API.
use fabric_sim.Prelude.{ℕ, ◌%◌, ◌^◌, Bytes, codes, List, [], map, Option, none, some, length}
use fabric_sim.Entries.Table.{size}
use fabric_sim.Entries.Tables.{table_list}
use fabric_sim.Entries.Cells.{cells_size, counter_list, meter_list}
use fabric_sim.Entries.Profile.{Group, profile_groups}
use fabric_sim.Entries.Replication.{multicast_groups, clone_sessions_list}
use fabric_sim.GoMap.{values}
use fabric_sim.Device.Pipeline.{Stores}

-- simapi.EntitiesInfo
pub record EntitiesInfo : Type 0 where
  pub id : ℕ
  pub size : ℕ
  pub name : Bytes

-- The lists of simapi.PipelineInfo
pub record PipelineInfo : Type 0 where
  pub tables : List EntitiesInfo
  pub counters : List EntitiesInfo
  pub meters : List EntitiesInfo
  pub groups : List EntitiesInfo
  pub multicast_groups : List EntitiesInfo
  pub clone_sessions : List EntitiesInfo

-- uint32 of a length
abbrev as_uint32 : ℕ → ℕ
as_uint32 n = n % 2 ^ 32

-- snapshotTables and the other functions that are named after it: nothing before the pipeline
-- configuration is set
unfoldable pub snapshot_tables : Option Stores → PipelineInfo → PipelineInfo
unfolding table_list size
snapshot_tables none info = info
snapshot_tables (some s) info = record info {
  tables =
      map (λ t. record { id = t.info.id; size = as_uint32 (size t); name = t.info.name })
        (table_list s.tables);
}

unfoldable pub snapshot_counters : Option Stores → PipelineInfo → PipelineInfo
unfolding counter_list cells_size
snapshot_counters none info = info
snapshot_counters (some s) info = record info {
  counters =
      map (λ c. record { id = c.info.id; size = as_uint32 (cells_size c); name = [] })
        (counter_list s.counters);
}

unfoldable pub snapshot_meters : Option Stores → PipelineInfo → PipelineInfo
unfolding meter_list cells_size
snapshot_meters none info = info
snapshot_meters (some s) info = record info {
  meters =
      map (λ c. record { id = c.info.id; size = as_uint32 (cells_size c); name = [] })
        (meter_list s.meters);
}

unfoldable pub snapshot_groups : Option Stores → PipelineInfo → PipelineInfo
unfolding profile_groups
snapshot_groups none info = info
snapshot_groups (some s) info = record info {
  groups =
      map
        (λ (g : Group). record {
          id = g.entry.group_id;
          size = as_uint32 (length g.entry.members);
          name = g.name;
        })
        (profile_groups (values s.profiles));
}

unfoldable pub snapshot_multicast : Option Stores → PipelineInfo → PipelineInfo
unfolding multicast_groups
snapshot_multicast none info = info
snapshot_multicast (some s) info = record info {
  multicast_groups =
      map
        (λ g. record {
          id = g.multicast_group_id;
          size = as_uint32 (length g.replicas);
          name = codes "PRE.MulticastGroup";
        })
        (multicast_groups s.pre);
}

unfoldable pub snapshot_clone_sessions : Option Stores → PipelineInfo → PipelineInfo
unfolding clone_sessions_list
snapshot_clone_sessions none info = info
snapshot_clone_sessions (some s) info = record info {
  clone_sessions =
      map
        (λ g. record {
          id = g.session_id;
          size = as_uint32 (length g.replicas);
          name = codes "PRE.CloneSession";
        })
        (clone_sessions_list s.pre);
}

-- SnapshotStats: the sizes of counters and meters do not change.
unfoldable pub snapshot_stats : Option Stores → PipelineInfo → PipelineInfo
unfolding snapshot_tables snapshot_groups snapshot_multicast snapshot_clone_sessions
snapshot_stats s info =
    snapshot_clone_sessions s (snapshot_multicast s (snapshot_groups s (snapshot_tables s info)))

-- The end of SetPipelineConfig
unfoldable pub snapshot_pipeline : Option Stores → PipelineInfo → PipelineInfo
unfolding snapshot_stats snapshot_tables snapshot_counters snapshot_meters snapshot_groups
    snapshot_multicast snapshot_clone_sessions
snapshot_pipeline s info =
    let info1 = snapshot_meters s (snapshot_counters s (snapshot_tables s info)) in
    snapshot_clone_sessions s (snapshot_multicast s (snapshot_groups s info1))
