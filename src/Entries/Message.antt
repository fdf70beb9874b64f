-- ===== src/Entries/Message.antt =====
-- The P4Runtime and P4Info messages that pkg/simulator/entries reads: the fields that the program
-- uses of the generated protobuf structs. A message that the program only stores keeps the
-- fields that a read returns. Fixed-width integers are their bit patterns, in ℕ; the int64 fields
-- that are compared with 0 or with a length are in ℤ. A pointer that may be nil is an Option.
use fabric_sim.Prelude.{ℕ, ℤ, Bytes, Bool, Option, List}

-- p4api.FieldMatch: `unset` is a message whose oneof is empty.
pub data MatchKind : Type 0 where
  exact : Bytes → MatchKind
  lpm : Bytes → ℕ → MatchKind
  range : Bytes → Bytes → MatchKind
  ternary : Bytes → Bytes → MatchKind
  optional : Bytes → MatchKind
  unset : MatchKind

pub record FieldMatch : Type 0 where
  pub field_id : ℕ
  pub kind : MatchKind

pub record ActionParam : Type 0 where
  pub param_id : ℕ
  pub value : Bytes

pub record Action : Type 0 where
  pub action_id : ℕ
  pub params : List ActionParam

pub data TableAction : Type 0 where
  action : Action → TableAction
  profile_member : ℕ → TableAction
  profile_group : ℕ → TableAction
  profile_action_set : TableAction

pub record CounterData : Type 0 where
  pub byte_count : ℕ
  pub packet_count : ℕ

pub record MeterConfig : Type 0 where
  pub cir : ℕ
  pub cburst : ℕ
  pub pir : ℕ
  pub pburst : ℕ

pub record MeterCounterData : Type 0 where
  pub green : Option CounterData
  pub yellow : Option CounterData
  pub red : Option CounterData

pub record TableEntry : Type 0 where
  pub table_id : ℕ
  pub matches : List FieldMatch
  pub table_action : Option TableAction
  pub priority : ℕ
  pub is_default_action : Bool
  pub meter_config : Option MeterConfig
  pub counter_data : Option CounterData
  pub meter_counter_data : Option MeterCounterData

-- Both direct entries name their table entry by a pointer.
pub record DirectCounterEntry : Type 0 where
  pub table_entry : Option TableEntry
  pub counter_data : Option CounterData

pub record DirectMeterEntry : Type 0 where
  pub table_entry : Option TableEntry
  pub config : Option MeterConfig
  pub counter_data : Option MeterCounterData

-- p4api.CounterEntry and p4api.MeterEntry; `index` is the field of the Index message.
pub record CounterEntry : Type 0 where
  pub counter_id : ℕ
  pub index : Option ℤ
  pub counter_data : Option CounterData

pub record MeterEntry : Type 0 where
  pub meter_id : ℕ
  pub index : Option ℤ
  pub config : Option MeterConfig

pub record GroupMember : Type 0 where
  pub member_id : ℕ
  pub weight : ℕ

pub record ActionProfileMember : Type 0 where
  pub action_profile_id : ℕ
  pub member_id : ℕ
  pub action : Option Action

pub record ActionProfileGroup : Type 0 where
  pub action_profile_id : ℕ
  pub group_id : ℕ
  pub members : List GroupMember

pub record Replica : Type 0 where
  pub egress_port : ℕ
  pub instance_id : ℕ

pub record MulticastGroupEntry : Type 0 where
  pub multicast_group_id : ℕ
  pub replicas : List Replica

pub record CloneSessionEntry : Type 0 where
  pub session_id : ℕ
  pub replicas : List Replica

-- p4api.PacketReplicationEngineEntry
pub data ReplicationEntry : Type 0 where
  multicast_group : MulticastGroupEntry → ReplicationEntry
  clone_session : CloneSessionEntry → ReplicationEntry
  unset : ReplicationEntry

-- p4api.Entity: the last four and the empty oneof are those that no handler supports.
pub data Entity : Type 0 where
  table_entry : TableEntry → Entity
  counter_entry : CounterEntry → Entity
  direct_counter_entry : DirectCounterEntry → Entity
  meter_entry : MeterEntry → Entity
  direct_meter_entry : DirectMeterEntry → Entity
  action_profile_group : ActionProfileGroup → Entity
  action_profile_member : ActionProfileMember → Entity
  replication_entry : ReplicationEntry → Entity
  register_entry value_set_entry digest_entry extern_entry unset : Entity

-- p4info.MatchField, p4info.Table, p4info.Counter, p4info.Meter, p4info.ActionProfile and
-- p4info.Action, with the preamble's id and name beside the other fields.
pub record MatchField : Type 0 where
  pub id : ℕ
  pub name : Bytes

pub record TableInfo : Type 0 where
  pub id : ℕ
  pub name : Bytes
  pub match_fields : List MatchField
  pub action_refs : List ℕ

pub record CellsInfo : Type 0 where
  pub id : ℕ
  pub name : Bytes
  pub size : ℤ

pub record ActionParamInfo : Type 0 where
  pub id : ℕ
  pub name : Bytes
  pub bitwidth : ℕ

pub record ActionInfo : Type 0 where
  pub id : ℕ
  pub name : Bytes
  pub params : List ActionParamInfo

pub record P4Info : Type 0 where
  pub tables : List TableInfo
  pub actions : List ActionInfo
  pub counters : List CellsInfo
  pub meters : List CellsInfo
  pub action_profiles : List CellsInfo
