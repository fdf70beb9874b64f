-- ===== src/Tests/Reads.antt =====
-- The theorems on reads and on cells and profiles.
use mathlib.Core.List.{flatten, Mem}
use fabric_sim.Prelude.{
  ℕ, suc, pos, ◌≡◌, refl, nat_eq, bytes_eq, List, [], ◌∷◌, ◌++◌, not, true, false, some, none,
  is_some, length, if◌then◌else◌, ◌==◌,
}
use fabric_sim.GoMap.{lookup}
use fabric_sim.Outcome.{unavailable, done, state_or}
use fabric_sim.Entries.Message.{
  Entity, register_entry, digest_entry, CounterEntry, MeterEntry, ActionProfileMember,
  MulticastGroupEntry, table_entry,
}
use fabric_sim.Entries.Buffer.{BatchSender, Buffer, new_buffer, read_entities}
use fabric_sim.Entries.Buffer.Batches.{
  Batched, IsCutShort, read_entities-batches, read_entities-IsCutShort,
}
use fabric_sim.Entries.Key.Canonical.{canonical}
use fabric_sim.Entries.Tables.{read_table_entry, read_table}
use fabric_sim.Entries.Tables.Read.{table_entities, read_table-batches, read-modify}
use fabric_sim.Entries.Cells.{
  Counters, Meters, new_counters, new_meters, modify_counter_entry, modify_meter_entry,
}
use fabric_sim.Entries.Cells.Laws.{IsWritten, modify_counter_entry-IsWritten}
use fabric_sim.Entries.Profile.{Profile, modify_member}
use fabric_sim.Entries.Profile.Capacity.{modify_member-exceeds_size}
use fabric_sim.Entries.Replication.{
  PacketReplication, new_packet_replication, modify_multicast, modify_multicast-done,
}
use fabric_sim.Tests.Data.{plain_hash, arp_entry, two_cells}
use fabric_sim.Tests.Table.{empty, filled, key, has_key, inserted}

abbrev pub accepting : BatchSender Entity
accepting past batch = none

abbrev refusing : BatchSender Entity
refusing past batch = some unavailable

read_entities-batches_example :
    (after : Buffer Entity) × (batches : List (List Entity)) × (read_entities accepting
        (register_entry ∷ digest_entry ∷ [])
        []
      ≡ done after)
    × (after.sent ≡ [] ++ batches)
    × (flatten batches ≡ register_entry ∷ digest_entry ∷ [])
    × Batched batches
read_entities-batches_example =
    read_entities-batches accepting (register_entry ∷ digest_entry ∷ []) [] (λ past batch. refl)

read_entities-IsCutShort_example :
    IsCutShort refusing
      (new_buffer [])
      (register_entry ∷ [])
      unavailable
      (record { entities = []; sent = (register_entry ∷ []) ∷ [] })
unfolding read_entities
read_entities-IsCutShort_example = read_entities-IsCutShort refusing (register_entry ∷ []) [] refl

read_table-batches_example :
    (batches : List (List Entity)) × (read_table arp_entry read_table_entry accepting filled []
      ≡ done ([] ++ batches))
    × (flatten batches ≡ table_entities read_table_entry filled)
    × Batched batches
read_table-batches_example =
    read_table-batches arp_entry read_table_entry accepting filled [] (λ past batch. refl)

read-modify_example :
    (batches : List (List Entity)) × (read_table arp_entry read_table_entry accepting filled []
      ≡ done ([] ++ batches))
    × Mem (table_entry (canonical arp_entry)) (flatten batches)
read-modify_example =
    read-modify plain_hash arp_entry true empty filled key refl has_key inserted arp_entry accepting
      [] (λ past batch. refl)

abbrev counted : CounterEntry
counted = record {
  counter_id = 4;
  index = some (pos 1);
  counter_data = some (record { byte_count = 10; packet_count = 1 });
}

unfoldable counters_before : Counters
unfolding new_counters
counters_before = state_or [] (new_counters (two_cells ∷ []))

unfoldable counters_after : Counters
unfolding counters_before modify_counter_entry
counters_after = state_or [] (modify_counter_entry counted false counters_before)

modify_counter_entry-IsWritten_example :
    IsWritten counted.counter_id counted.index counted false counters_before counters_after
unfolding counters_after lookup fabric_sim.GoMap.insert
modify_counter_entry-IsWritten_example =
    modify_counter_entry-IsWritten counted false counters_before counters_after refl

abbrev metered : MeterEntry
metered = record {
  meter_id = 4;
  index = some (pos 1);
  config = some (record { cir = 1; cburst = 2; pir = 3; pburst = 4 });
}

unfoldable meters_before : Meters
unfolding new_meters
meters_before = state_or [] (new_meters (two_cells ∷ []))

unfoldable meters_after : Meters
unfolding meters_before modify_meter_entry
meters_after = state_or [] (modify_meter_entry metered false meters_before)

abbrev member : ℕ → ActionProfileMember
member i = record { action_profile_id = 4; member_id = i; action = none }

abbrev full_profile : Profile
full_profile = record {
  info = two_cells;
  members = (1, member 1) ∷ (2, member 2) ∷ [];
  groups = [];
}

modify_member-exceeds_size_example :
    (ap' : Profile) × (modify_member (member 3) true full_profile ≡ done ap')
    × (length ap'.members ≡ suc 2)
unfolding lookup
modify_member-exceeds_size_example =
    modify_member-exceeds_size (member 3) full_profile 2 refl refl refl

abbrev group : MulticastGroupEntry
group = record { multicast_group_id = 6; replicas = [] }

abbrev with_group : PacketReplication
with_group = record { multicasts = (6, group) ∷ []; clone_sessions = [] }

modify_multicast-done_example :
    (is_some (lookup group.multicast_group_id new_packet_replication.multicasts) ≡ not true)
    × ((id : ℕ)
        → lookup id with_group.multicasts ≡ (
            if group.multicast_group_id == id
            then some group
            else lookup id new_packet_replication.multicasts))
    × (with_group.clone_sessions ≡ new_packet_replication.clone_sessions)
unfolding modify_multicast lookup fabric_sim.GoMap.insert
modify_multicast-done_example =
    modify_multicast-done group true new_packet_replication with_group refl
