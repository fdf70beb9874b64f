-- ===== src/Entries/Key/Canonical.antt =====
-- `sortFieldMatches` before `entryKey`: the canonical order.
use mathlib.Core.List.{Nodup, Perm}
use fabric_sim.Prelude.{◌≡◌, Bytes, List, map, arith}
use fabric_sim.Entries.Message.{FieldMatch, MatchKind, TableEntry, MatchField}
use fabric_sim.Entries.Sorting.Laws.{slice_stable-eq_of_perm}
use fabric_sim.Entries.Key.{sort_field_matches, entry_key}

MatchKind-set : IsSet MatchKind
MatchKind-set = hlevel

FieldMatch-set : IsSet FieldMatch
FieldMatch-set = hlevel MatchKind-set

matches_set : IsSet (List FieldMatch)
matches_set = hlevel FieldMatch-set

-- The entry as the store keeps it: its matches are sorted in place.
unfoldable pub canonical : TableEntry → TableEntry
canonical entry = record entry { matches = sort_field_matches entry.matches }

-- Matches on distinct fields have one canonical order, in whatever order they were given.
pub sort_field_matches-eq_of_perm :
    (xs ys : List FieldMatch)
    → Perm xs ys
    → Nodup (map (λ m. m.field_id) xs)
    → sort_field_matches xs ≡ sort_field_matches ys
unfolding sort_field_matches
sort_field_matches-eq_of_perm xs ys p d =
    slice_stable-eq_of_perm (λ m. m.field_id) matches_set {xs = xs} {ys = ys} p d

-- So entries that differ only in the order of their matches have one key.
pub entry_key-canonical :
    (sha1 : Bytes → Bytes) (fields : List MatchField) (a b : TableEntry)
    → Perm a.matches b.matches
    → Nodup (map (λ m. m.field_id) a.matches)
    → a.priority ≡ b.priority
    → entry_key sha1 fields (canonical a) ≡ entry_key sha1 fields (canonical b)
unfolding entry_key canonical
entry_key-canonical sha1 fields a b p d priorities =
    ground (arith, sort_field_matches-eq_of_perm a.matches b.matches p d)
