-- ===== src/Entries/Profile.antt =====
-- pkg/simulator/entries/profile.go: the members and groups of action profiles.
pub mod Capacity
pub mod Bounded
use fabric_sim.Prelude.{
  ℕ, nat_eq, ℤ, exceeds, Bytes, List, [], ◌∷◌, ◌++◌, map, Bool, Option, none, some, length,
  if◌then◌else◌,
}
use fabric_sim.GoMap.{GoMap, lookup, insert, delete, values}
use fabric_sim.Outcome.{
  Error, not_found, already_exists, unavailable, Outcome, done, failed, panic, lift, ◌>>=◌,
}
use fabric_sim.Entries.Message.{
  ActionProfileMember, ActionProfileGroup, CellsInfo, Entity, action_profile_group,
  action_profile_member,
}
use fabric_sim.Entries.Buffer.{BatchSender, Buffer, read_entities}

-- ActionProfileGroup of profile.go: the entry, and the name of the profile.
pub record Group : Type 0 where
  pub entry : ActionProfileGroup
  pub name : Bytes

-- ActionProfile; a member is its entry.
pub record Profile : Type 0 where
  pub info : CellsInfo
  pub members : GoMap ℕ ActionProfileMember
  pub groups : GoMap ℕ Group

-- ActionProfiles
abbrev pub Profiles : Type 0
Profiles = GoMap ℕ Profile

-- NewActionProfile
unfoldable pub new_profile : CellsInfo → Profile
new_profile info = record { info = info; members = []; groups = [] }

-- The loop of NewActionProfiles.
unfoldable pub add_profiles : List CellsInfo → Profiles → Profiles
unfolding new_profile
add_profiles [] ps = ps
add_profiles (pi ∷ pis) ps = add_profiles pis (insert pi.id (new_profile pi) ps)

-- NewActionProfiles
unfoldable pub new_profiles : List CellsInfo → Profiles
unfolding add_profiles
new_profiles infos = add_profiles infos []

-- ActionProfile.ModifyActionProfileMember
unfoldable pub modify_member : ActionProfileMember → Bool → Profile → Outcome Profile
modify_member e is_insert ap = elim (lookup e.member_id ap.members) [
  | some old ↦
      if is_insert
      then failed already_exists ap
      else done (record ap { members = insert e.member_id e ap.members })
  | none ↦
      if is_insert
      then (if exceeds (length ap.members) ap.info.size
          then failed unavailable ap
          else done (record ap { members = insert e.member_id e ap.members }))
      else failed not_found ap
]

-- ActionProfile.DeleteActionProfileMember
unfoldable pub delete_member : ActionProfileMember → Profile → Outcome Profile
delete_member e ap = done (record ap { members = delete e.member_id ap.members })

-- ActionProfile.ModifyActionProfileGroup: an update keeps the group's name.
unfoldable pub modify_group : ActionProfileGroup → Bool → Profile → Outcome Profile
modify_group e is_insert ap = elim (lookup e.group_id ap.groups) [
  | some old ↦
      if is_insert
      then failed already_exists ap
      else done (record ap { groups = insert e.group_id (record old { entry = e }) ap.groups })
  | none ↦
      if is_insert
      then (if exceeds (length ap.groups) ap.info.size
          then failed unavailable ap
          else done (record ap {
            groups = insert e.group_id (record { entry = e; name = ap.info.name }) ap.groups;
          }))
      else failed not_found ap
]

-- ActionProfile.DeleteActionProfileGroup
unfoldable pub delete_group : ActionProfileGroup → Profile → Outcome Profile
delete_group e ap = done (record ap { groups = delete e.group_id ap.groups })

-- The lookup of a profile and the call of its method.
unfoldable pub on_profile : ℕ → (Profile → Outcome Profile) → Profiles → Outcome Profiles
on_profile id op ps = elim (lookup id ps) [
  | none ↦ failed not_found ps
  | some ap ↦ lift (λ ap'. insert id ap' ps) (op ap)
]

-- ActionProfiles.ModifyActionProfileMember
unfoldable pub modify_profile_member : ActionProfileMember → Bool → Profiles → Outcome Profiles
unfolding on_profile modify_member
modify_profile_member e is_insert = on_profile e.action_profile_id (modify_member e is_insert)

-- ActionProfiles.DeleteActionProfileMember
unfoldable pub delete_profile_member : ActionProfileMember → Profiles → Outcome Profiles
unfolding on_profile delete_member
delete_profile_member e = on_profile e.action_profile_id (delete_member e)

-- ActionProfiles.ModifyActionProfileGroup
unfoldable pub modify_profile_group : ActionProfileGroup → Bool → Profiles → Outcome Profiles
unfolding on_profile modify_group
modify_profile_group e is_insert = on_profile e.action_profile_id (modify_group e is_insert)

-- ActionProfiles.DeleteActionProfileGroup
unfoldable pub delete_profile_group : ActionProfileGroup → Profiles → Outcome Profiles
unfolding on_profile delete_group
delete_profile_group e = on_profile e.action_profile_id (delete_group e)

-- ActionProfiles.Groups
unfoldable pub profile_groups : List Profile → List Group
profile_groups [] = []
profile_groups (ap ∷ aps) = values ap.groups ++ profile_groups aps

-- What a read was given: the state is what the sender got.
abbrev sent_by :
    BatchSender Entity → List Entity → List (List Entity) → Outcome (List (List Entity))
sent_by sender es sent = lift (λ (b : Buffer Entity). b.sent) (read_entities sender es sent)

-- ReadActionProfileMembers, of the profile that the entry names
unfoldable pub read_members :
    ActionProfileMember
    → BatchSender Entity
    → Profiles
    → List (List Entity)
    → Outcome (List (List Entity))
read_members e sender ps sent = elim (lookup e.action_profile_id ps) [
  | none ↦ failed not_found sent
  | some ap ↦ sent_by sender (map action_profile_member (values ap.members)) sent
]

-- ReadActionProfileGroups
unfoldable pub read_groups :
    ActionProfileGroup
    → BatchSender Entity
    → Profiles
    → List (List Entity)
    → Outcome (List (List Entity))
read_groups e sender ps sent = elim (lookup e.action_profile_id ps) [
  | none ↦ failed not_found sent
  | some ap ↦
      sent_by sender (map (λ (g : Group). action_profile_group g.entry) (values ap.groups)) sent
]
