-- ===== src/Device/Punt/Rules.antt =====
-- The punt rules are exactly those that the entries of the CPU tables make.
use mathlib.Core.List.{Memᴰ}
use fabric_sim.Prelude.{
  ℕ, nat_eq, ◌==◌, ◌≡◌, refl, sym, ◌∙◌, ◌⊎◌, inl, inr, Bytes, [], true, some, is_some, arith,
  Bool-cases, Option-cases, beq-eq,
}
use fabric_sim.GoMap.{GoMap, lookup, insert, lookup-insert, lookup-insert_self}
use fabric_sim.Outcome.{done}
use fabric_sim.Outcome.Each.{each_sound, each_complete}
use fabric_sim.Entries.Message.{TableEntry, Action, FieldMatch, MatchKind, ternary}
use fabric_sim.Entries.Table.{Table, entries}
use fabric_sim.Entries.Tables.{Tables}
use fabric_sim.Device.Pipeline.{CpuAction, Pipeline}
use fabric_sim.Device.Punt.{
  uint16, get_action, find_role_agent_id, punt_kind, punt_match, punt_matches, punt_entry,
  punt_entries, punt_table, punt_tables, check_punt_to_cpu, has_punt_rule,
}

-- A match of the Ethernet type field that names the type `t`.
pub record MatchRule (field : ℕ) (m : FieldMatch) (t : ℕ) : Type 0 where
  pub on_field : m.field_id ≡ field
  pub value : Bytes
  pub mask : Bytes
  pub is_ternary : m.kind ≡ ternary value mask
  pub names : uint16 value ≡ some t

punt_kind_lem :
    (role : ℕ) (k : MatchKind) (punts punts' : GoMap ℕ ℕ)
    → punt_kind role k punts ≡ done punts'
    → ((v : Bytes) × (mask : Bytes) × (t : ℕ) × (k ≡ ternary v mask)
        × (uint16 v ≡ some t)
        × (punts' ≡ insert t role punts))
      ⊎ (punts' ≡ punts)
unfolding punt_kind
punt_kind_lem role (ternary v mask) punts punts' h = elim (Option-cases (uint16 v)) [
  | inl short ↦ absurd (ground arith)
  | inr (t, given) ↦ inl (v, mask, t, refl, given, ground arith)
]
punt_kind_lem role k punts punts' h = inr (ground arith)

punt_kind_ternary :
    (role : ℕ) (k : MatchKind) (v mask : Bytes) (t : ℕ) (punts : GoMap ℕ ℕ)
    → k ≡ ternary v mask
    → uint16 v ≡ some t
    → punt_kind role k punts ≡ done (insert t role punts)
unfolding punt_kind
punt_kind_ternary role k v mask t punts e given = rw e (rw (given, punt_kind))

module _ (field role t : ℕ) where
  -- A rule that is there after a match was there before, or the match made it.
  match_sound :
      (m : FieldMatch) (punts punts' : GoMap ℕ ℕ) (r : ℕ)
      → punt_match field role m punts ≡ done punts'
      → lookup t punts' ≡ some r
      → (lookup t punts ≡ some r) ⊎ (MatchRule field m t × (r ≡ role))
  unfolding punt_match
  match_sound m punts punts' r h l = elim (Bool-cases (m.field_id == field)) [
    | inr other ↦ inl (ground arith)
    | inl same ↦ elim (punt_kind_lem role m.kind punts punts' (rw same at h)) [
      | inr kept ↦ inl (rw (← kept) l)
      | inl (v, mask, t', k, given, write) ↦ elim (Bool-cases (t' == t)) [
        | inl here ↦ inr (
          record {
            on_field = beq-eq m.field_id field same;
            value = v;
            mask = mask;
            is_ternary = k;
            names = ground arith;
          },
          ground (arith, lookup-insert t' t role punts),
        )
        | inr there ↦ inl (ground (arith, lookup-insert t' t role punts))
      ]
    ]
  ]

  -- Rules are never dropped, and a match of the field makes its rule.
  match_complete :
      (m : FieldMatch) (punts punts' : GoMap ℕ ℕ)
      → punt_match field role m punts ≡ done punts'
      → (is_some (lookup t punts) ≡ true) ⊎ MatchRule field m t
      → is_some (lookup t punts') ≡ true
  unfolding punt_match
  match_complete m punts punts' h (inr rule) =
      let value : punt_kind role m.kind punts ≡ done (insert t role punts) =
        punt_kind_ternary role m.kind rule.value rule.mask t punts rule.is_ternary rule.names in
      ground (arith, lookup-insert_self t role punts, rule.on_field)
  match_complete m punts punts' h (inl old) = elim (Bool-cases (m.field_id == field)) [
    | inr other ↦ ground arith
    | inl same ↦ elim (punt_kind_lem role m.kind punts punts' (rw same at h)) [
      | inr kept ↦ rw kept old
      | inl (v, mask, t', k, given, write) ↦ ground (arith, lookup-insert t' t role punts)
    ]
  ]

module _ (decode : Bytes → ℕ) (actions : GoMap ℕ CpuAction) (t : ℕ) where
  -- An entry with a plain CPU action and such a match.
  pub record EntryRule (field : ℕ) (e : TableEntry) (role : ℕ) : Type 0 where
    pub act : Action
    pub plain : get_action e.table_action ≡ some act
    pub cpu : CpuAction
    pub known : lookup act.action_id actions ≡ some cpu
    pub the_match : FieldMatch
    pub among : Memᴰ the_match e.matches
    pub rule : MatchRule field the_match t
    pub of_action : role ≡ find_role_agent_id decode cpu.role_agent_id_param_id act.params

  punt_entry_inv :
      (field : ℕ) (e : TableEntry) (punts punts' : GoMap ℕ ℕ)
      → punt_entry decode actions field e punts ≡ done punts'
      → ((act : Action) × (ca : CpuAction) × (get_action e.table_action ≡ some act)
          × (lookup act.action_id actions ≡ some ca)
          × (punt_matches field
                (find_role_agent_id decode ca.role_agent_id_param_id act.params)
                e.matches
                punts
              ≡ done punts'))
        ⊎ (punts' ≡ punts)
  unfolding punt_entry
  punt_entry_inv field e punts punts' h = elim (Option-cases (get_action e.table_action)) [
    | inl other ↦ inr (ground arith)
    | inr (act, plain) ↦ elim (Option-cases (lookup act.action_id actions)) [
      | inl unknown ↦ inr (ground arith)
      | inr (ca, known) ↦ inl (act, ca, plain, known, ground arith)
    ]
  ]

  punt_entry-eq :
      (field : ℕ) (e : TableEntry) (punts : GoMap ℕ ℕ) (act : Action) (ca : CpuAction)
      → get_action e.table_action ≡ some act
      → lookup act.action_id actions ≡ some ca
      → punt_entry decode actions field e punts
        ≡ punt_matches field
            (find_role_agent_id decode ca.role_agent_id_param_id act.params)
            e.matches
            punts
  unfolding punt_entry
  punt_entry-eq field e punts act ca plain known = ground arith

  entry_sound :
      (field r : ℕ) (e : TableEntry) (punts punts' : GoMap ℕ ℕ)
      → punt_entry decode actions field e punts ≡ done punts'
      → lookup t punts' ≡ some r
      → (lookup t punts ≡ some r) ⊎ EntryRule field e r
  unfolding punt_matches
  entry_sound field r e punts punts' h l = elim (punt_entry_inv field e punts punts' h) [
    | inr kept ↦ inl (rw (← kept) l)
    | inl (act, ca, plain, known, run) ↦
        let role : ℕ = find_role_agent_id decode ca.role_agent_id_param_id act.params in
        elim (each_sound (punt_match field role) (λ s. lookup t s ≡ some r)
          (λ m. MatchRule field m t × (r ≡ role))
          (λ m s s' hs ls. match_sound field role t m s s' r hs ls) e.matches punts punts' run l) [
            | inl old ↦ inl old
            | inr (m, among, (rule, of)) ↦ inr (record {
              act = act;
              plain = plain;
              cpu = ca;
              known = known;
              the_match = m;
              among = among;
              rule = rule;
              of_action = of;
            })
          ]
  ]

  entry_complete :
      (field : ℕ) (e : TableEntry) (punts punts' : GoMap ℕ ℕ)
      → punt_entry decode actions field e punts ≡ done punts'
      → (is_some (lookup t punts) ≡ true) ⊎ ((r : ℕ) × EntryRule field e r)
      → is_some (lookup t punts') ≡ true
  unfolding punt_matches
  entry_complete field e punts punts' h (inr (r, rule)) =
      let role : ℕ = find_role_agent_id decode rule.cpu.role_agent_id_param_id rule.act.params in
      each_complete (punt_match field role) (λ s. is_some (lookup t s) ≡ true)
        (λ m. MatchRule field m t) (λ m s s' hs c. match_complete field role t m s s' hs c)
        e.matches punts punts'
        (sym (punt_entry-eq field e punts rule.act rule.cpu rule.plain rule.known) ∙ h)
        (inr (rule.the_match, rule.among, rule.rule))
  entry_complete field e punts punts' h (inl old) = elim (punt_entry_inv field e punts punts' h) [
    | inr kept ↦ rw kept old
    | inl (act, ca, plain, known, run) ↦
        let role : ℕ = find_role_agent_id decode ca.role_agent_id_param_id act.params in
        each_complete (punt_match field role) (λ s. is_some (lookup t s) ≡ true)
          (λ m. MatchRule field m t) (λ m s s' hs c. match_complete field role t m s s' hs c)
          e.matches punts punts' run (inl old)
  ]

  module _ (tables : Tables) where
    -- A CPU table that has such an entry.
    pub record TableRule (cpu : ℕ × ℕ) (role : ℕ) : Type 0 where
      pub table : Table
      pub stored : lookup cpu.0 tables ≡ some table
      pub entry : TableEntry
      pub among : Memᴰ entry (entries table)
      pub rule : EntryRule cpu.1 entry role

    table_sound :
        (r : ℕ) (cpu : ℕ × ℕ) (punts punts' : GoMap ℕ ℕ)
        → punt_table decode actions tables cpu punts ≡ done punts'
        → lookup t punts' ≡ some r
        → (lookup t punts ≡ some r) ⊎ TableRule cpu r
    unfolding punt_table punt_entries
    table_sound r (id, field) punts punts' h l = elim (Option-cases (lookup id tables)) [
      | inl missing ↦ absurd (ground arith)
      | inr (table, stored) ↦
          elim (each_sound (punt_entry decode actions field) (λ s. lookup t s ≡ some r)
            (λ e. EntryRule field e r) (entry_sound field r) (entries table) punts punts'
            (rw (stored, punt_table) at h) l) [
              | inl old ↦ inl old
              | inr (e, among, rule) ↦
                  inr (record {
                    table = table;
                    stored = stored;
                    entry = e;
                    among = among;
                    rule = rule;
                  })
            ]
    ]

    table_complete :
        (cpu : ℕ × ℕ) (punts punts' : GoMap ℕ ℕ)
        → punt_table decode actions tables cpu punts ≡ done punts'
        → (is_some (lookup t punts) ≡ true) ⊎ ((r : ℕ) × TableRule cpu r)
        → is_some (lookup t punts') ≡ true
    unfolding punt_table punt_entries
    table_complete (id, field) punts punts' h (inr (r, rule)) =
        each_complete (punt_entry decode actions field) (λ s. is_some (lookup t s) ≡ true)
          (λ e. (r : ℕ) × EntryRule field e r) (entry_complete field) (entries rule.table) punts
          punts' (rw (rule.stored, punt_table) at h) (inr (rule.entry, rule.among, (r, rule.rule)))
    table_complete (id, field) punts punts' h (inl old) = elim (Option-cases (lookup id tables)) [
      | inl missing ↦ absurd (ground arith)
      | inr (table, stored) ↦
          each_complete (punt_entry decode actions field) (λ s. is_some (lookup t s) ≡ true)
            (λ e. (r : ℕ) × EntryRule field e r) (entry_complete field) (entries table) punts punts'
            (rw (stored, punt_table) at h) (inl old)
    ]

check_punt_done :
    (decode : Bytes → ℕ) (tables : Tables) (p p' : Pipeline)
    → check_punt_to_cpu decode tables p ≡ done p'
    → punt_tables decode p.cpu_actions tables p.cpu_tables [] ≡ done p'.punt_to_cpu
unfolding check_punt_to_cpu
check_punt_done decode tables p p' h = ground arith

-- A rule that the recomputation leaves is made by a ternary match on the Ethernet type field of an
-- entry of a CPU table with a CPU action, and has the role agent id of that action.
pub check_punt_to_cpu_sound :
    (decode : Bytes → ℕ) (tables : Tables) (p p' : Pipeline) (t r : ℕ)
    → check_punt_to_cpu decode tables p ≡ done p'
    → has_punt_rule t p' ≡ some r
    → (cpu : ℕ × ℕ) × Memᴰ cpu p.cpu_tables × TableRule decode p.cpu_actions t tables cpu r
unfolding check_punt_to_cpu has_punt_rule punt_tables
check_punt_to_cpu_sound decode tables p p' t r h l =
    elim (each_sound (punt_table decode p.cpu_actions tables) (λ s. lookup t s ≡ some r)
      (λ cpu. TableRule decode p.cpu_actions t tables cpu r)
      (table_sound decode p.cpu_actions t tables r) p.cpu_tables [] p'.punt_to_cpu
      (check_punt_done decode tables p p' h) l) [
        | inl old ↦ absurd (unfold lookup in cc)
        | inr rule ↦ rule
      ]

-- After the recomputation, an Ethernet type has a rule if a ternary match on the Ethernet type field
-- of an entry of a CPU table with a CPU action names it.
pub check_punt_to_cpu_complete :
    (decode : Bytes → ℕ) (tables : Tables) (p p' : Pipeline) (t r : ℕ) (cpu : ℕ × ℕ)
    → check_punt_to_cpu decode tables p ≡ done p'
    → Memᴰ cpu p.cpu_tables
    → TableRule decode p.cpu_actions t tables cpu r
    → is_some (has_punt_rule t p') ≡ true
unfolding check_punt_to_cpu has_punt_rule punt_tables
check_punt_to_cpu_complete decode tables p p' t r cpu h among rule =
    each_complete (punt_table decode p.cpu_actions tables) (λ s. is_some (lookup t s) ≡ true)
      (λ cpu. (r : ℕ) × TableRule decode p.cpu_actions t tables cpu r)
      (table_complete decode p.cpu_actions t tables) p.cpu_tables [] p'.punt_to_cpu
      (check_punt_done decode tables p p' h) (inr (cpu, among, (r, rule)))
