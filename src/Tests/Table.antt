-- ===== src/Tests/Table.antt =====
-- The theorems on one table, at a table with one entry.
use mathlib.Core.HLevel.{⊥_prop}
use mathlib.Core.Logic.{∥∥₁_elim}
use mathlib.Core.List.{Perm, Permᴰ, Nodup, Nodup-cons, Memᴰ, not-mem-nil, Pairwise}
use fabric_sim.Prelude.{◌≡◌, refl, nat_eq, bytes_eq, Bytes, [], ◌∷◌, map, true, none, arith}
use fabric_sim.GoMap.{lookup}
use fabric_sim.Outcome.{already_exists, done, failed, state_or, lift, ok}
use fabric_sim.Entries.Message.{FieldMatch}
use fabric_sim.Entries.Key.{entry_key, sort_field_matches}
use fabric_sim.Entries.Key.Injective.{entry_key-injective}
use fabric_sim.Entries.Key.Canonical.{canonical}
use fabric_sim.Entries.Sorting.{slice_stable, place}
use fabric_sim.Entries.Table.{Table, modify_table_entry, remove_table_entry}
use fabric_sim.Entries.Table.Refinement.{
  modify_table_entry-refines, remove_table_entry-refines, store, spec_modify, spec_remove,
}
use fabric_sim.Entries.Table.Effects.{remove-insert, insert-insert_perm, insert-insert_other_fields}
use fabric_sim.Entries.Key.Canonical.{canonical}
use fabric_sim.Entries.Key.Prefix.{entry_key-cut_prefixes}
use fabric_sim.Entries.Message.{MatchKind, TableEntry}
use fabric_sim.Tests.Data.{
  entry_of, plain_hash, arp_match, vlan_match, arp_entry, same_entry, on_field_one, on_field_two,
  acl,
}

abbrev pub empty : Table
empty = record {
  info = record acl {
    match_fields = record { id = 1; name = [] } ∷ record { id = 2; name = [] } ∷ [];
  };
  rows = [];
  default_row = none;
}

unfoldable pub filled : Table
unfolding modify_table_entry
filled = state_or empty (modify_table_entry plain_hash arp_entry true empty)

unfoldable pub key : Bytes
unfolding entry_key
key = 4 ∷ 255 ∷ 255 ∷ 8 ∷ 6 ∷ 1 ∷ 5 ∷ 0 ∷ 0 ∷ 0 ∷ 10 ∷ []

pub has_key : entry_key plain_hash empty.info.match_fields (canonical arp_entry) ≡ ok key
unfolding key canonical fabric_sim.Entries.Key.sort_field_matches slice_stable
    fabric_sim.Entries.Sorting.place
has_key = refl

pub inserted : modify_table_entry plain_hash arp_entry true empty ≡ done filled
unfolding filled entry_key canonical fabric_sim.Entries.Key.sort_field_matches slice_stable
    fabric_sim.Entries.Sorting.place lookup
inserted = refl

modify_table_entry-refines_example :
    lift store (modify_table_entry plain_hash arp_entry true empty)
    ≡ spec_modify plain_hash empty.info.match_fields arp_entry true (store empty)
modify_table_entry-refines_example = modify_table_entry-refines plain_hash arp_entry true empty

remove_table_entry-refines_example :
    lift store (remove_table_entry plain_hash same_entry filled)
    ≡ spec_remove plain_hash filled.info.match_fields same_entry (store filled)
remove_table_entry-refines_example = remove_table_entry-refines plain_hash same_entry filled

swapped : Perm arp_entry.matches same_entry.matches
swapped = ∣ Permᴰ.swap refl refl ∣₁

not_head : Memᴰ vlan_match.field_id (arp_match.field_id ∷ []) → ⊥
not_head (Memᴰ.head e) = absurd (omega arith)
not_head (Memᴰ.tail i) = elim i [ ]

distinct : Nodup (map (λ (m : FieldMatch). m.field_id) arp_entry.matches)
distinct = Nodup-cons.1 (λ m. ∥∥₁_elim m ⊥_prop not_head, Nodup-cons.1 (not-mem-nil, Pairwise.nil))

insert-insert_perm_example :
    modify_table_entry plain_hash same_entry true filled ≡ failed already_exists filled
insert-insert_perm_example =
    insert-insert_perm plain_hash arp_entry same_entry empty filled key refl refl swapped distinct
      refl has_key inserted

remove-insert_example :
    (u : Table) × (remove_table_entry plain_hash arp_entry filled ≡ done u)
    × ((j : Bytes) → lookup j u.rows ≡ lookup j empty.rows)
    × (u.default_row ≡ empty.default_row)
remove-insert_example = remove-insert plain_hash arp_entry empty filled key refl has_key inserted

one_key : entry_key plain_hash acl.match_fields on_field_one ≡ ok (1 ∷ 5 ∷ 0 ∷ 0 ∷ 0 ∷ 10 ∷ [])
unfolding entry_key
one_key = refl

other_key : entry_key plain_hash acl.match_fields on_field_two ≡ ok (1 ∷ 5 ∷ 0 ∷ 0 ∷ 0 ∷ 10 ∷ [])
unfolding entry_key
other_key = refl

entry_key-injective_example :
    (map (λ (m : FieldMatch). m.kind) on_field_one.matches
      ≡ map (λ (m : FieldMatch). m.kind) on_field_two.matches)
    × (on_field_one.priority ≡ on_field_two.priority)
entry_key-injective_example =
    entry_key-injective plain_hash acl.match_fields on_field_one on_field_two
      (1 ∷ 5 ∷ 0 ∷ 0 ∷ 0 ∷ 10 ∷ []) (λ e. e) (refl, tt) (ground arith) (ground arith) one_key
      other_key

unfoldable one_filled : Table
unfolding modify_table_entry
one_filled = state_or empty (modify_table_entry plain_hash on_field_one true empty)

one_inserted : modify_table_entry plain_hash on_field_one true empty ≡ done one_filled
unfolding one_filled entry_key canonical sort_field_matches slice_stable place lookup
one_inserted = refl

one_has_key :
    entry_key plain_hash empty.info.match_fields (canonical on_field_one)
    ≡ ok (1 ∷ 5 ∷ 0 ∷ 0 ∷ 0 ∷ 10 ∷ [])
unfolding entry_key canonical sort_field_matches slice_stable place
one_has_key = refl

same_kinds :
    map (λ (m : FieldMatch). m.kind) (canonical on_field_one).matches
    ≡ map (λ (m : FieldMatch). m.kind) (canonical on_field_two).matches
unfolding canonical sort_field_matches slice_stable place
same_kinds = refl

insert-insert_other_fields_example :
    modify_table_entry plain_hash on_field_two true one_filled ≡ failed already_exists one_filled
insert-insert_other_fields_example =
    insert-insert_other_fields plain_hash on_field_one on_field_two empty one_filled
      (1 ∷ 5 ∷ 0 ∷ 0 ∷ 0 ∷ 10 ∷ []) refl refl same_kinds refl one_has_key one_inserted

-- A prefix length of 2 ^ 24 + 1 has the key of a prefix length of 1.
abbrev long_prefix : TableEntry
long_prefix = entry_of (record { field_id = 1; kind = MatchKind.lpm (10 ∷ []) 16777217 } ∷ [])

entry_key-cut_prefixes_example :
    entry_key plain_hash acl.match_fields
      (entry_of (record { field_id = 1; kind = MatchKind.lpm (10 ∷ []) 1 } ∷ []))
    ≡ entry_key plain_hash acl.match_fields long_prefix
entry_key-cut_prefixes_example = entry_key-cut_prefixes plain_hash acl.match_fields long_prefix
