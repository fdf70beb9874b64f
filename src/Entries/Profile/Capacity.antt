-- ===== src/Entries/Profile/Capacity.antt =====
-- The size of an action profile against its announced size.
use fabric_sim.Prelude.{
  ℕ, suc, ◌+◌, ◌≤◌, nat_eq, ◌≡◌, ℤ, pos, exceeds, Bool, true, false, none, arith, length, is_some,
}
use fabric_sim.GoMap.{lookup, insert, length-insert, length-delete-le}
use fabric_sim.Outcome.{done, Leaves, returned, refused}
use fabric_sim.Outcome.Rules.{Leaves-if, Leaves-option}
use fabric_sim.Entries.Message.{ActionProfileMember, ActionProfileGroup, CellsInfo}
use fabric_sim.Entries.Profile.{
  Profile, Group, modify_member, delete_member, modify_group, delete_group, new_profile,
}

-- At most one more than the announced size, for members and for groups.
pub record IsBounded (ap : Profile) : Type 0 where
  pub members_bounded : (n : ℕ) → ap.info.size ≡ pos n → length ap.members ≤ n + 1
  pub groups_bounded : (n : ℕ) → ap.info.size ≡ pos n → length ap.groups ≤ n + 1

-- The guard before a new entry.
room : (m n : ℕ) (z : ℤ) → exceeds m z ≡ false → z ≡ pos n → m ≤ n
room m n (pos k) h e = ground arith
room m n z h e = cc

-- The writes of a member and of a group.
put_member-IsBounded :
    (e : ActionProfileMember) (ap : Profile)
    → ((n : ℕ)
        → ap.info.size ≡ pos n
        → is_some (lookup e.member_id ap.members) ≡ false
        → length ap.members ≤ n)
    → IsBounded ap
    → IsBounded (record ap { members = insert e.member_id e ap.members })
put_member-IsBounded e ap small v = record {
  members_bounded = λ n s.
      ground (arith, small n s, v.members_bounded n s, length-insert e.member_id e ap.members);
  groups_bounded = v.groups_bounded;
}

put_group-IsBounded :
    (id : ℕ) (g : Group) (ap : Profile)
    → ((n : ℕ)
        → ap.info.size ≡ pos n
        → is_some (lookup id ap.groups) ≡ false
        → length ap.groups ≤ n)
    → IsBounded ap
    → IsBounded (record ap { groups = insert id g ap.groups })
put_group-IsBounded id g ap small v = record {
  members_bounded = v.members_bounded;
  groups_bounded =
      λ n s. ground (arith, small n s, v.groups_bounded n s, length-insert id g ap.groups);
}

-- A new profile is empty.
pub new_profile-IsBounded : (info : CellsInfo) → IsBounded (new_profile info)
unfolding new_profile
new_profile-IsBounded info = record {
  members_bounded = λ n s. omega arith;
  groups_bounded = λ n s. omega arith;
}

-- Writes of members keep the bounds.
pub modify_member-IsBounded :
    (e : ActionProfileMember) (is_insert : Bool) (ap : Profile)
    → IsBounded ap
    → Leaves IsBounded (modify_member e is_insert ap)
unfolding modify_member
modify_member-IsBounded e is_insert ap v =
    Leaves-option (lookup e.member_id ap.members)
      (Leaves-if is_insert
        (λ _.
          Leaves-if (exceeds (length ap.members) ap.info.size) (λ _. refused v)
            (λ fits. returned (
              put_member-IsBounded e ap (λ n s _. room (length ap.members) n ap.info.size fits s)
                v)))
        (λ _. refused v))
      (λ old found.
        Leaves-if is_insert (λ _. refused v)
          (λ _. returned (put_member-IsBounded e ap (λ n s free. ground arith) v)))

-- Writes of groups keep the bounds.
pub modify_group-IsBounded :
    (e : ActionProfileGroup) (is_insert : Bool) (ap : Profile)
    → IsBounded ap
    → Leaves IsBounded (modify_group e is_insert ap)
unfolding modify_group
modify_group-IsBounded e is_insert ap v =
    Leaves-option (lookup e.group_id ap.groups)
      (Leaves-if is_insert
        (λ _.
          Leaves-if (exceeds (length ap.groups) ap.info.size) (λ _. refused v)
            (λ fits. returned (
              put_group-IsBounded e.group_id _ ap
                (λ n s _. room (length ap.groups) n ap.info.size fits s) v)))
        (λ _. refused v))
      (λ old found.
        Leaves-if is_insert (λ _. refused v)
          (λ _. returned (put_group-IsBounded e.group_id _ ap (λ n s free. ground arith) v)))

-- Deletions keep the bounds.
pub delete_member-IsBounded :
    (e : ActionProfileMember) (ap : Profile) → IsBounded ap → Leaves IsBounded (delete_member e ap)
unfolding delete_member
delete_member-IsBounded e ap v = returned (record {
  members_bounded =
      λ n s. omega (arith, v.members_bounded n s, length-delete-le e.member_id ap.members);
  groups_bounded = v.groups_bounded;
})

pub delete_group-IsBounded :
    (e : ActionProfileGroup) (ap : Profile) → IsBounded ap → Leaves IsBounded (delete_group e ap)
unfolding delete_group
delete_group-IsBounded e ap v = returned (record {
  members_bounded = v.members_bounded;
  groups_bounded =
      λ n s. omega (arith, v.groups_bounded n s, length-delete-le e.group_id ap.groups);
})

-- The guard lets one entry too many in: a profile that holds as many members as its announced
-- size still takes a new one.
pub modify_member-exceeds_size :
    (e : ActionProfileMember) (ap : Profile) (n : ℕ)
    → ap.info.size ≡ pos n
    → length ap.members ≡ n
    → lookup e.member_id ap.members ≡ none
    → (ap' : Profile) × (modify_member e true ap ≡ done ap') × (length ap'.members ≡ suc n)
unfolding modify_member
modify_member-exceeds_size e ap n size full free = (
  record ap { members = insert e.member_id e ap.members },
  ground arith,
  ground (arith, length-insert e.member_id e ap.members),
)
