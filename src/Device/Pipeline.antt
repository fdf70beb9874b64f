-- ===== src/Device/Pipeline.antt =====
-- The P4 pipeline of pkg/simulator/device.go: its state, and SetPipelineConfig with the search for
-- CPU tables that it makes.
use fabric_sim.Prelude.{
  ℕ, nat_eq, bytes_eq, ◌==◌, Bytes, codes, contains, List, [], ◌∷◌, map, Bool, true, false, ◌||◌,
  Option, none, some, is_some, if◌then◌else◌,
}
use fabric_sim.GoMap.{GoMap, lookup, insert}
use fabric_sim.Outcome.{Outcome, done, failed, panic}
use fabric_sim.Entries.Message.{P4Info, TableInfo, MatchField, ActionInfo, ActionParamInfo}
use fabric_sim.Entries.Sorting.{slice_stable}
use fabric_sim.Entries.Tables.{Tables, new_tables}
use fabric_sim.Entries.Cells.{Counters, Meters, new_counters, new_meters}
use fabric_sim.Entries.Profile.{Profiles, new_profiles}
use fabric_sim.Entries.Replication.{PacketReplication, new_packet_replication}

-- p4api.ForwardingPipelineConfig: the P4Info and the cookie are pointers.
pub record PipelineConfig : Type 0 where
  pub p4info : Option P4Info
  pub device_config : Bytes
  pub cookie : Option ℕ

-- The stores of DeviceSimulator: all five pointers are nil until SetPipelineConfig sets them.
pub record Stores : Type 0 where
  pub tables : Tables
  pub counters : Counters
  pub meters : Meters
  pub profiles : Profiles
  pub pre : PacketReplication

-- cpuAction; the action itself is not read again.
pub record CpuAction : Type 0 where
  pub role_agent_id_param_id : ℕ
  pub role_agent_id_bitwidth : ℕ

-- The fields of DeviceSimulator that belong to the pipeline. A cpuTable holds a pointer to a
-- table of the store: here its id, and the id of its Ethernet type field. `codec_set` says that
-- `ds.codec` is not nil.
pub record Pipeline : Type 0 where
  pub config : PipelineConfig
  pub stores : Option Stores
  pub codec_set : Bool
  pub punt_to_cpu : GoMap ℕ ℕ
  pub cpu_actions : GoMap ℕ CpuAction
  pub cpu_tables : GoMap ℕ ℕ

-- The pipeline fields that NewDeviceSimulator sets.
abbrev pub new_pipeline : Pipeline
new_pipeline = record {
  config = record {
    p4info =
        some
          (record { tables = []; actions = []; counters = []; meters = []; action_profiles = [] });
    device_config = [];
    cookie = some 0;
  };
  stores = none;
  codec_set = false;
  punt_to_cpu = [];
  cpu_actions = [];
  cpu_tables = [];
}

abbrev pub to_cpu : Bytes
to_cpu = codes "_to_cpu"

abbrev pub set_role_agent_id : Bytes
set_role_agent_id = codes "set_role_agent_id"

abbrev pub eth_type : Bytes
eth_type = codes "eth_type"

-- findRoleAgentParameterID
unfoldable pub find_role_agent_parameter : List ActionParamInfo → CpuAction
find_role_agent_parameter [] = record { role_agent_id_param_id = 0; role_agent_id_bitwidth = 0 }
find_role_agent_parameter (p ∷ ps) =
    if p.name == set_role_agent_id
    then record { role_agent_id_param_id = p.id; role_agent_id_bitwidth = p.bitwidth }
    else find_role_agent_parameter ps

-- The first loop of findPuntToCPUTables.
unfoldable pub find_cpu_actions : List ActionInfo → GoMap ℕ CpuAction → GoMap ℕ CpuAction
unfolding find_role_agent_parameter
find_cpu_actions [] found = found
find_cpu_actions (a ∷ as') found = find_cpu_actions as' (
    if contains to_cpu a.name
    then insert a.id (find_role_agent_parameter a.params) found
    else found)

-- hasCPUAction
unfoldable pub has_cpu_action : GoMap ℕ CpuAction → List ℕ → Bool
has_cpu_action actions [] = false
has_cpu_action actions (ref ∷ refs) = is_some (lookup ref actions) || has_cpu_action actions refs

-- findEthTypeMatchField
unfoldable pub find_eth_type_field : List MatchField → Option MatchField
find_eth_type_field [] = none
find_eth_type_field (f ∷ fs) = if f.name == eth_type then some f else find_eth_type_field fs

-- One table of the second loop of findPuntToCPUTables.
unfoldable pub add_cpu_table : GoMap ℕ CpuAction → TableInfo → GoMap ℕ ℕ → GoMap ℕ ℕ
unfolding has_cpu_action find_eth_type_field
add_cpu_table actions t found =
    if has_cpu_action actions t.action_refs
    then elim (find_eth_type_field t.match_fields) [
      | none ↦ found
      | some f ↦ insert t.id f.id found
    ]
    else found

-- The second loop of findPuntToCPUTables.
unfoldable pub find_cpu_tables : GoMap ℕ CpuAction → List TableInfo → GoMap ℕ ℕ → GoMap ℕ ℕ
unfolding add_cpu_table
find_cpu_tables actions [] found = found
find_cpu_tables actions (t ∷ ts) found = find_cpu_tables actions ts (add_cpu_table actions t found)

-- NewTable sorts the match fields of the descriptor in place, so the P4Info of the request is
-- changed by NewTables.
unfoldable pub sorted_fields : TableInfo → TableInfo
sorted_fields t = record t { match_fields = slice_stable (λ f. f.id) t.match_fields }

-- The constructors of SetPipelineConfig, in its order.
unfoldable pub new_stores : P4Info → Outcome Stores
new_stores info = elim (new_counters info.counters) [
  | done cs ↦ elim (new_meters info.meters) [
    | done ms ↦ done (record {
      tables = new_tables info.tables;
      counters = cs;
      meters = ms;
      profiles = new_profiles info.action_profiles;
      pre = new_packet_replication;
    })
    | failed e ms ↦ panic
    | panic ↦ panic
  ]
  | failed e cs ↦ panic
  | panic ↦ panic
]

-- SetPipelineConfig: the configuration is stored, the cookie and the P4Info are read through
-- their pointers, the stores are made anew and the CPU tables are searched. The punt rules of
-- before are kept until the next write.
unfoldable pub set_pipeline_config : PipelineConfig → Pipeline → Outcome Pipeline
unfolding new_stores find_cpu_actions find_cpu_tables sorted_fields
set_pipeline_config fpc p = elim fpc.cookie [
  | none ↦ panic
  | some cookie ↦ elim fpc.p4info [
    | none ↦ panic
    | some info ↦ elim (new_stores info) [
      | done stores ↦
          let tables = map sorted_fields info.tables in
          let actions = find_cpu_actions info.actions [] in
          done (record p {
            config = record fpc { p4info = some (record info { tables = tables }) };
            stores = some stores;
            codec_set = true;
            cpu_actions = actions;
            cpu_tables = find_cpu_tables actions tables [];
          })
      | failed e s ↦ panic
      | panic ↦ panic
    ]
  ]
]
