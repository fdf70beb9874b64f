-- ===== src/Entries/Key/Prefix.antt =====
-- The prefix lengths of a table entry of which the key keeps 24 bits.
use mathlib.Core.Path.{ap₂}
use fabric_sim.Prelude.{
  suc, ◌/◌, ◌%◌, ◌^◌, Bytes, List, [], ◌∷◌, ◌++◌, length, ◌≡◌, refl, sym, ap, ◌∙◌, arith,
}
use fabric_sim.Entries.Message.{
  MatchKind, exact, lpm, range, ternary, optional, unset, FieldMatch, MatchField, TableEntry,
}
use fabric_sim.Entries.Key.{write_hash, match_bytes, put_uint32, entry_key}
use fabric_sim.Entries.Key.Injective.{matches_bytes, key_input, entry_key_lem}

-- A prefix length with its bits from the 24th on cut off.
abbrev pub cut_prefix : MatchKind → MatchKind
cut_prefix (lpm v n) = lpm v (n % 2 ^ 24)
cut_prefix kind = kind

match_bytes-cut_prefix : (kind : MatchKind) → match_bytes (cut_prefix kind) ≡ match_bytes kind
unfolding match_bytes write_hash
match_bytes-cut_prefix (lpm v n) =
    let second : n % 2 ^ 24 / 2 ^ 16 % 256 ≡ n / 2 ^ 16 % 256 = omega arith in
    let third : n % 2 ^ 24 / 2 ^ 8 % 256 ≡ n / 2 ^ 8 % 256 = omega arith in
    let fourth : n % 2 ^ 24 % 256 ≡ n % 256 = omega arith in rw second (rw third (rw fourth refl))
match_bytes-cut_prefix (exact v) = refl
match_bytes-cut_prefix (range low high) = refl
match_bytes-cut_prefix (ternary v mask) = refl
match_bytes-cut_prefix (optional v) = refl
match_bytes-cut_prefix unset = refl

-- Every match of a list with its prefix length cut.
abbrev pub cut_prefixes : List FieldMatch → List FieldMatch
cut_prefixes [] = []
cut_prefixes (m ∷ ms) = record m { kind = cut_prefix m.kind } ∷ cut_prefixes ms

length-cut_prefixes : (ms : List FieldMatch) → length (cut_prefixes ms) ≡ length ms
length-cut_prefixes [] = refl
length-cut_prefixes (m ∷ ms) = ap suc (length-cut_prefixes ms)

matches_bytes-cut_prefixes :
    (ms : List FieldMatch) → matches_bytes (cut_prefixes ms) ≡ matches_bytes ms
unfolding matches_bytes
matches_bytes-cut_prefixes [] = refl
matches_bytes-cut_prefixes (m ∷ ms) =
    ap₂ ◌++◌ (match_bytes-cut_prefix m.kind) (matches_bytes-cut_prefixes ms)

-- An entry has the key of the entry whose prefix lengths are those modulo 2 ^ 24, although its
-- prefix lengths may be others: writeHash loses the first of the four bytes.
pub entry_key-cut_prefixes :
    (sha1 : Bytes → Bytes) (fields : List MatchField) (entry : TableEntry)
    → entry_key sha1 fields (record entry { matches = cut_prefixes entry.matches })
      ≡ entry_key sha1 fields entry
unfolding key_input
entry_key-cut_prefixes sha1 fields entry =
    let cut : TableEntry = record entry { matches = cut_prefixes entry.matches } in
    let same_input : key_input cut ≡ key_input entry =
      ap (λ bytes. bytes ++ put_uint32 entry.priority) (matches_bytes-cut_prefixes entry.matches) in
    entry_key_lem sha1 fields cut
    ∙ rw (length-cut_prefixes entry.matches) (rw same_input refl)
    ∙ sym (entry_key_lem sha1 fields entry)
