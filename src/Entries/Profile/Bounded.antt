-- ===== src/Entries/Profile/Bounded.antt =====
-- All action profiles of a device stay within one of their announced sizes.
use fabric_sim.Prelude.{ℕ, nat_eq, List, [], ◌∷◌, Bool}
use fabric_sim.GoMap.{lookup, insert}
use fabric_sim.GoMap.Every.{Every, insert-Every, lookup-Every}
use fabric_sim.Outcome.{Outcome, Leaves, refused}
use fabric_sim.Outcome.Rules.{Leaves-option, Leaves-map}
use fabric_sim.Entries.Message.{ActionProfileMember, ActionProfileGroup, CellsInfo}
use fabric_sim.Entries.Profile.{
  Profile, Profiles, new_profile, add_profiles, new_profiles, on_profile, modify_member,
  modify_group, delete_member, delete_group, modify_profile_member, modify_profile_group,
  delete_profile_member, delete_profile_group,
}
use fabric_sim.Entries.Profile.Capacity.{
  IsBounded, new_profile-IsBounded, modify_member-IsBounded, modify_group-IsBounded,
  delete_member-IsBounded, delete_group-IsBounded,
}

-- At most one more than the announced size, in every profile.
abbrev pub AreBounded : Profiles → Type 0
AreBounded = Every (λ id ap. IsBounded ap)

add_profiles-AreBounded :
    (infos : List CellsInfo) (ps : Profiles) → AreBounded ps → AreBounded (add_profiles infos ps)
unfolding add_profiles
add_profiles-AreBounded [] ps v = v
add_profiles-AreBounded (i ∷ is) ps v =
    add_profiles-AreBounded is (insert i.id (new_profile i) ps)
      (insert-Every (λ id ap. IsBounded ap) i.id (new_profile i) ps (new_profile-IsBounded i) v)

pub new_profiles-AreBounded : (infos : List CellsInfo) → AreBounded (new_profiles infos)
unfolding new_profiles
new_profiles-AreBounded infos = add_profiles-AreBounded infos [] tt

on_profile-AreBounded :
    (id : ℕ) (op : Profile → Outcome Profile) (ps : Profiles)
    → ((ap : Profile) → IsBounded ap → Leaves IsBounded (op ap))
    → AreBounded ps
    → Leaves AreBounded (on_profile id op ps)
unfolding on_profile
on_profile-AreBounded id op ps keep v = Leaves-option (lookup id ps) (refused v) (λ ap found.
    Leaves-map (λ ap'. insert id ap' ps) (op ap)
      (keep ap (lookup-Every (λ id ap. IsBounded ap) id ps found v))
      (λ ap' v'. insert-Every (λ id ap. IsBounded ap) id ap' ps v' v))

pub modify_profile_member-AreBounded :
    (e : ActionProfileMember) (is_insert : Bool) (ps : Profiles)
    → AreBounded ps
    → Leaves AreBounded (modify_profile_member e is_insert ps)
unfolding modify_profile_member
modify_profile_member-AreBounded e is_insert ps v =
    on_profile-AreBounded e.action_profile_id (modify_member e is_insert) ps
      (modify_member-IsBounded e is_insert) v

pub modify_profile_group-AreBounded :
    (e : ActionProfileGroup) (is_insert : Bool) (ps : Profiles)
    → AreBounded ps
    → Leaves AreBounded (modify_profile_group e is_insert ps)
unfolding modify_profile_group
modify_profile_group-AreBounded e is_insert ps v =
    on_profile-AreBounded e.action_profile_id (modify_group e is_insert) ps
      (modify_group-IsBounded e is_insert) v

pub delete_profile_member-AreBounded :
    (e : ActionProfileMember) (ps : Profiles)
    → AreBounded ps
    → Leaves AreBounded (delete_profile_member e ps)
unfolding delete_profile_member
delete_profile_member-AreBounded e ps v =
    on_profile-AreBounded e.action_profile_id (delete_member e) ps (delete_member-IsBounded e) v

pub delete_profile_group-AreBounded :
    (e : ActionProfileGroup) (ps : Profiles)
    → AreBounded ps
    → Leaves AreBounded (delete_profile_group e ps)
unfolding delete_profile_group
delete_profile_group-AreBounded e ps v =
    on_profile-AreBounded e.action_profile_id (delete_group e) ps (delete_group-IsBounded e) v
