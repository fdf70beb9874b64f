-- ===== src/Tests/Data.antt =====
-- The entries, the tables and the pipeline of the tests.
use fabric_sim.Prelude.{ℕ, pos, Bytes, codes, List, [], ◌∷◌, false, none, some}
use fabric_sim.Entries.Message
use fabric_sim.Entries.Message.{
  MatchKind, FieldMatch, TableEntry, Action, ActionInfo, ActionParamInfo, CellsInfo, TableInfo,
  MatchField, P4Info,
}
use fabric_sim.Device.Pipeline.{PipelineConfig}

-- A hash without collisions, and a decoder that reads one byte.
abbrev pub plain_hash : Bytes → Bytes
plain_hash b = b

abbrev pub one_byte : Bytes → ℕ
one_byte (b ∷ rest) = b
one_byte [] = 0

-- An ARP match, 0x0806, on field 1, and a match on field 2.
abbrev pub arp_match : FieldMatch
arp_match = record { field_id = 1; kind = MatchKind.ternary (8 ∷ 6 ∷ []) (255 ∷ 255 ∷ []) }

abbrev pub vlan_match : FieldMatch
vlan_match = record { field_id = 2; kind = MatchKind.exact (5 ∷ []) }

abbrev pub punt_action : Action
punt_action = record { action_id = 7; params = record { param_id = 1; value = 9 ∷ [] } ∷ [] }

abbrev pub entry_of : List FieldMatch → TableEntry
entry_of ms = record {
  table_id = 3;
  matches = ms;
  table_action = some (Message.TableAction.action punt_action);
  priority = 10;
  is_default_action = false;
  meter_config = none;
  counter_data = none;
  meter_counter_data = none;
}

abbrev pub arp_entry : TableEntry
arp_entry = entry_of (vlan_match ∷ arp_match ∷ [])

abbrev pub same_entry : TableEntry
same_entry = entry_of (arp_match ∷ vlan_match ∷ [])

-- The same value on two different fields.
abbrev pub on_field_one : TableEntry
on_field_one = entry_of (record { field_id = 1; kind = MatchKind.exact (5 ∷ []) } ∷ [])

abbrev pub on_field_two : TableEntry
on_field_two = entry_of (vlan_match ∷ [])

abbrev pub acl : TableInfo
acl = record {
  id = 3;
  name = codes "acl";
  match_fields =
      record { id = 2; name = codes "vlan" } ∷ record { id = 1; name = codes "eth_type" } ∷ [];
  action_refs = 7 ∷ [];
}

abbrev pub two_cells : CellsInfo
two_cells = record { id = 4; name = codes "c"; size = pos 2 }

abbrev pub info : P4Info
info = record {
  tables = acl ∷ [];
  actions =
      record {
        id = 7;
        name = codes "punt_to_cpu";
        params = record { id = 1; name = codes "set_role_agent_id"; bitwidth = 8 } ∷ [];
      }
      ∷ [];
  counters = two_cells ∷ [];
  meters = two_cells ∷ [];
  action_profiles = two_cells ∷ [];
}

abbrev pub config : PipelineConfig
config = record { p4info = some info; device_config = []; cookie = some 1 }
