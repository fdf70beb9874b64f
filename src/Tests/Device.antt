-- ===== src/Tests/Device.antt =====
-- The theorems on punt rules and on the reads of a device.
use mathlib.Core.List.{Memᴰ}
use fabric_sim.Prelude.{ℕ, ◌≡◌, refl, [], ◌∷◌, true, is_some, some, none}
use fabric_sim.Outcome.{done, state_or}
use fabric_sim.Entries.Message.{
  direct_counter_entry, DirectCounterEntry, register_entry, digest_entry,
}
use fabric_sim.Entries.Tables.{Tables, write_table_entry, new_tables}
use fabric_sim.Entries.Replication.{new_packet_replication}
use fabric_sim.Device.Pipeline.{Pipeline, Stores}
use fabric_sim.Device.Punt.{check_punt_to_cpu, has_punt_rule}
use fabric_sim.Device.Punt.Rules.{TableRule, check_punt_to_cpu_sound, check_punt_to_cpu_complete}
use fabric_sim.Device.Read.{process_reads, of_counter, process_reads-direct_crashes}
use fabric_sim.Tests.Data.{plain_hash, one_byte, arp_entry, acl}
use fabric_sim.Tests.Reads.{accepting}
use fabric_sim.Tests.Stores.{set_up}

unfoldable with_arp : Tables
unfolding new_tables write_table_entry
with_arp = state_or [] (write_table_entry plain_hash arp_entry true (new_tables (acl ∷ [])))

unfoldable punting : Pipeline
unfolding check_punt_to_cpu
punting = state_or set_up (check_punt_to_cpu one_byte with_arp set_up)

checked : check_punt_to_cpu one_byte with_arp set_up ≡ done punting
unfolding punting set_up fabric_sim.Entries.Cells.new_counters fabric_sim.Entries.Cells.new_meters
    fabric_sim.GoMap.lookup fabric_sim.GoMap.insert fabric_sim.Entries.Sorting.slice_stable
    fabric_sim.Entries.Sorting.place with_arp fabric_sim.Entries.Table.modify_table_entry
    fabric_sim.Entries.Key.entry_key fabric_sim.Entries.Key.Canonical.canonical
    fabric_sim.Entries.Key.sort_field_matches fabric_sim.Entries.Table.entries
    fabric_sim.GoMap.values
checked = refl

-- ARP, 0x0806, is punted with the role agent id of the entry's action.
arp_punted : has_punt_rule 2054 punting ≡ some 9
unfolding has_punt_rule punting fabric_sim.GoMap.lookup set_up fabric_sim.Entries.Cells.new_counters
    fabric_sim.Entries.Cells.new_meters fabric_sim.GoMap.insert
    fabric_sim.Entries.Sorting.slice_stable fabric_sim.Entries.Sorting.place with_arp
    fabric_sim.Entries.Table.modify_table_entry fabric_sim.Entries.Key.entry_key
    fabric_sim.Entries.Key.Canonical.canonical fabric_sim.Entries.Key.sort_field_matches
    fabric_sim.Entries.Table.entries fabric_sim.GoMap.values
arp_punted = refl

arp_rule :
    (cpu : ℕ × ℕ) × Memᴰ cpu set_up.cpu_tables
    × TableRule one_byte set_up.cpu_actions 2054 with_arp cpu 9
arp_rule = check_punt_to_cpu_sound one_byte with_arp set_up punting 2054 9 checked arp_punted

check_punt_to_cpu_sound_example :
    (cpu : ℕ × ℕ) × Memᴰ cpu set_up.cpu_tables
    × TableRule one_byte set_up.cpu_actions 2054 with_arp cpu 9
check_punt_to_cpu_sound_example =
    check_punt_to_cpu_sound one_byte with_arp set_up punting 2054 9 checked arp_punted

check_punt_to_cpu_complete_example : is_some (has_punt_rule 2054 punting) ≡ true
check_punt_to_cpu_complete_example =
    check_punt_to_cpu_complete one_byte with_arp set_up punting 2054 9 arp_rule.0 checked arp_rule.1
      arp_rule.2

abbrev no_stores : Stores
no_stores = record {
  tables = [];
  counters = [];
  meters = [];
  profiles = [];
  pre = new_packet_replication;
}

abbrev direct : DirectCounterEntry
direct = record { table_entry = some arp_entry; counter_data = none }

two_answers :
    process_reads (register_entry ∷ digest_entry ∷ []) accepting no_stores []
    ≡ some (none ∷ none ∷ [], [])
unfolding process_reads
two_answers = refl

process_reads-direct_crashes_example :
    process_reads (register_entry ∷ direct_counter_entry direct ∷ []) accepting no_stores [] ≡ none
process_reads-direct_crashes_example =
    process_reads-direct_crashes (direct_counter_entry direct)
      (register_entry ∷ direct_counter_entry direct ∷ []) accepting no_stores []
      (Memᴰ.tail (Memᴰ.head refl)) (of_counter direct)
