-- ===== src/Device/Punt.antt =====
-- checkPuntToCPU and findRoleAgentID of pkg/simulator/device.go: the punt rules that the entries
-- of the CPU tables make. `decode` stands for p4utils.DecodeValueAsUint32.
pub mod Rules
use fabric_sim.Prelude.{
  ℕ, nat_eq, ◌==◌, ◌+◌, ◌*◌, ◌%◌, Bytes, List, [], ◌∷◌, Bool, Option, none, some, if◌then◌else◌,
}
use fabric_sim.GoMap.{GoMap, lookup, insert, values}
use fabric_sim.Outcome.{Outcome, done, failed, panic, ◌>>=◌}
use fabric_sim.Outcome.Each.{each}
use fabric_sim.Entries.Message.{
  TableEntry, TableAction, action, profile_member, profile_group, profile_action_set, Action,
  ActionParam, FieldMatch, MatchKind, ternary,
}
use fabric_sim.Entries.Table.{Table, entries}
use fabric_sim.Entries.Tables.{Tables}
use fabric_sim.Device.Pipeline.{CpuAction, Pipeline, Stores}

-- binary.BigEndian.Uint16, which panics on fewer than two bytes
unfoldable pub uint16 : Bytes → Option ℕ
uint16 (a ∷ b ∷ rest) = some (a % 256 * 256 + b % 256)
uint16 _ = none

-- The body of the innermost `if`, for the match found: match.GetTernary() is nil for the other
-- kinds.
unfoldable pub punt_kind : ℕ → MatchKind → GoMap ℕ ℕ → Outcome (GoMap ℕ ℕ)
unfolding uint16
punt_kind role (ternary v mask) punts = elim (uint16 v) [
  | none ↦ panic
  | some t ↦ done (insert t role punts)
]
punt_kind role _ punts = done punts

-- One match of the innermost loop.
unfoldable pub punt_match : ℕ → ℕ → FieldMatch → GoMap ℕ ℕ → Outcome (GoMap ℕ ℕ)
unfolding punt_kind
punt_match field role m punts =
    if m.field_id == field then punt_kind role m.kind punts else done punts

-- The innermost loop, over the matches of an entry.
unfoldable pub punt_matches : ℕ → ℕ → List FieldMatch → GoMap ℕ ℕ → Outcome (GoMap ℕ ℕ)
unfolding punt_match each
punt_matches field role = each (punt_match field role)

-- entry.Action.GetAction(), which is nil unless the action is a plain one
abbrev pub get_action : Option TableAction → Option Action
get_action (some (action a)) = some a
get_action _ = none

module _ (decode : Bytes → ℕ) where
  -- findRoleAgentID
  unfoldable pub find_role_agent_id : ℕ → List ActionParam → ℕ
  find_role_agent_id id [] = 0
  find_role_agent_id id (p ∷ ps) =
      if p.param_id == id then decode p.value else find_role_agent_id id ps

  -- One entry of a CPU table.
  unfoldable pub punt_entry : GoMap ℕ CpuAction → ℕ → TableEntry → GoMap ℕ ℕ → Outcome (GoMap ℕ ℕ)
  unfolding punt_matches find_role_agent_id
  punt_entry actions field e punts = elim (get_action e.table_action) [
    | none ↦ done punts
    | some act ↦ elim (lookup act.action_id actions) [
      | none ↦ done punts
      | some ca ↦
          punt_matches field (find_role_agent_id ca.role_agent_id_param_id act.params) e.matches
            punts
    ]
  ]

  -- The loop over the entries of a table.
  unfoldable pub punt_entries :
      GoMap ℕ CpuAction → ℕ → List TableEntry → GoMap ℕ ℕ → Outcome (GoMap ℕ ℕ)
  unfolding punt_entry
  punt_entries actions field = each (punt_entry actions field)

  -- One CPU table: the pointer that the cpuTable holds is that of the store.
  unfoldable pub punt_table : GoMap ℕ CpuAction → Tables → ℕ × ℕ → GoMap ℕ ℕ → Outcome (GoMap ℕ ℕ)
  unfolding punt_entries
  punt_table actions tables (id, field) punts = elim (lookup id tables) [
    | none ↦ panic
    | some t ↦ punt_entries actions field (entries t) punts
  ]

  -- The loop over the CPU tables.
  unfoldable pub punt_tables :
      GoMap ℕ CpuAction → Tables → GoMap ℕ ℕ → GoMap ℕ ℕ → Outcome (GoMap ℕ ℕ)
  unfolding punt_table
  punt_tables actions tables = each (punt_table actions tables)

  -- checkPuntToCPU: the rules are computed anew from the tables given.
  unfoldable pub check_punt_to_cpu : Tables → Pipeline → Outcome Pipeline
  unfolding punt_tables
  check_punt_to_cpu tables p = elim (punt_tables p.cpu_actions tables p.cpu_tables []) [
    | done punts ↦ done (record p { punt_to_cpu = punts })
    | failed e punts ↦ failed e (record p { punt_to_cpu = punts })
    | panic ↦ panic
  ]

-- HasPuntRuleForEthType
unfoldable pub has_punt_rule : ℕ → Pipeline → Option ℕ
has_punt_rule t p = lookup t p.punt_to_cpu
