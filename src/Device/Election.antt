-- ===== src/Device/Election.antt =====
-- The mastership election of pkg/simulator/device.go: RecordRoleElection and IsMaster. They
-- compare ids by value.
pub mod Highest
use fabric_sim.Prelude.{
  ℕ, nat_eq, bytes_eq, ◌==◌, Bytes, Bool, ◌&&◌, ◌||◌, Option, none, some, ltb, if◌then◌else◌, ◌≡◌,
  arith,
}
use fabric_sim.GoMap.{GoMap, lookup, insert, lookup-insert}
use fabric_sim.Outcome.{Error, conflict, unauthorized}

-- A p4api.Uint128 that is the id of an election: a pointer to it is its address, which tells objects
-- of equal value apart.
pub record ElectionId : Type 0 where
  pub address : ℕ
  pub high : ℕ
  pub low : ℕ

-- DeviceSimulator.roleConfigs: the election id of each roleConfig, whose other field holds what a
-- library has read of the role's configuration. The id of a roleConfig may be a nil pointer.
abbrev pub Elections : Type 0
Elections = GoMap Bytes (Option ElectionId)

-- What a call comes to that reads ids through pointers.
pub data Checked {ℓ} (A : Type ℓ) : Type ℓ where
  checked : A → Checked A
  nil_pointer : Checked A

unfoldable pub same_id : ElectionId → ElectionId → Bool
same_id a b = (a.high == b.high) && (a.low == b.low)

unfoldable pub less_id : ElectionId → ElectionId → Bool
less_id a b = ltb a.high b.high || ((a.high == b.high) && ltb a.low b.low)

-- The second test of IsMaster, of the pointer that the map holds.
unfoldable pub claims : Option (Option ElectionId) → Option ElectionId → Checked (Option Error)
unfolding same_id
claims none claim = checked (some unauthorized)
claims (some (some winner)) (some claim) =
    checked (if same_id winner claim then none else some unauthorized)
claims (some _) _ = nil_pointer

-- IsMaster; `device_id` is the chassis id of the device.
unfoldable pub is_master : ℕ → ℕ → Bytes → Option ElectionId → Elections → Checked (Option Error)
unfolding claims
is_master device_id chassis_id role claim elections =
    if chassis_id == device_id
    then claims (lookup role elections) claim
    else checked (some conflict)

-- RecordRoleElection: the elections after it, and the id that it returns. The name of a nil role is
-- empty, and is what the caller passes here.
unfoldable pub record_role_election :
    Bytes → Option ElectionId → Elections → Checked (Elections × Option ElectionId)
unfolding less_id same_id
record_role_election role id elections = elim (lookup role elections) [
  | none ↦ checked (insert role id elections, id)
  | some none ↦ nil_pointer
  | some (some winner) ↦ elim id [
    | none ↦ nil_pointer
    | some e ↦
        if less_id winner e
        then checked (insert role (some e) elections, some e)
        else if same_id winner e
        then checked (elections, none)
        else checked (elections, some winner)
  ]
]

-- The larger of two ids.
abbrev pub max_id : Option (Option ElectionId) → ElectionId → ElectionId
max_id (some (some w)) e = if less_id w e then e else w
max_id _ e = e

-- An id that an election records is the larger one of the id given and the one recorded for the
-- role before, and no other role changes; the call returns nil exactly if the two are the same, and
-- otherwise the recorded one.
pub record_role_election_lem :
    (role : Bytes) (e : ElectionId) (s s' : Elections) (answer : Option ElectionId)
    → record_role_election role (some e) s ≡ checked (s', answer)
    → ((r : Bytes)
        → lookup r s' ≡ (if role == r then some (some (max_id (lookup role s) e)) else lookup r s))
      × (answer ≡ elim (lookup role s) [
        | some (some w) ↦ if same_id w e then none else some (max_id (lookup role s) e)
        | _ ↦ some e
      ])
unfolding record_role_election
record_role_election_lem role e s s' answer h =
    (λ r. ground (arith, lookup-insert role r (some e) s, bytes_eq.beq_iff role r), ground arith)

-- At most one election id is master for a role: two that IsMaster accepts are the same.
pub is_master_unique :
    (device_id : ℕ) (role : Bytes) (a b : ElectionId) (s : Elections)
    → is_master device_id device_id role (some a) s ≡ checked none
    → is_master device_id device_id role (some b) s ≡ checked none
    → (a.high ≡ b.high) × (a.low ≡ b.low)
unfolding is_master
is_master_unique device_id role a b s ha hb = (
  ground (arith, nat_eq.beq_iff device_id device_id),
  ground (arith, nat_eq.beq_iff device_id device_id),
)

-- The id that an election has just recorded is master for its role exactly if no larger one was
-- recorded before.
pub is_master-record_role_election :
    (device_id : ℕ) (role : Bytes) (e : ElectionId) (s s' : Elections) (answer : Option ElectionId)
    → record_role_election role (some e) s ≡ checked (s', answer)
    → is_master device_id device_id role (some e) s'
      ≡ checked (if same_id (max_id (lookup role s) e) e then none else some unauthorized)
unfolding is_master
is_master-record_role_election device_id role e s s' answer h =
    let (after, answered) = record_role_election_lem role e s s' answer h in
    ground (arith, after role, bytes_eq.beq_iff role role, nat_eq.beq_iff device_id device_id)
