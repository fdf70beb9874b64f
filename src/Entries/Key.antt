-- ===== src/Entries/Key.antt =====
-- The key of a table row: `entryKey`, `validateMatch`, `writeHash` and `sortFieldMatches` of
-- pkg/simulator/entries/table.go. The hash state of `sha1.New()` is the bytes written so far;
-- `hf.Sum(nil)` is the parameter `sha1` of those bytes.
pub mod Injective
pub mod Prefix
pub mod Canonical
use fabric_sim.Prelude.{
  ℕ, suc, ◌+◌, ◌*◌, ◌/◌, ◌%◌, ◌^◌, Bytes, List, [], ◌∷◌, ◌++◌, Option, none, some, leb,
  if◌then◌else◌, length,
}
use fabric_sim.Outcome.{Error, invalid, Result, ok, err}
use fabric_sim.Entries.Message.{
  FieldMatch, MatchKind, exact, lpm, range, ternary, optional, unset, TableEntry, MatchField,
}
use fabric_sim.Entries.Sorting.{slice_stable}

-- sortFieldMatches
unfoldable pub sort_field_matches : List FieldMatch → List FieldMatch
sort_field_matches = slice_stable (λ m. m.field_id)

-- `n & (0xff << 8 * k)`, for a 32-bit pattern `n`
abbrev pub mask_byte : ℕ → ℕ → ℕ
mask_byte k n = n / 2 ^ (8 * k) % 256 * 2 ^ (8 * k)

-- writeHash: the first byte takes the mask of the second one.
unfoldable pub write_hash : ℕ → Bytes
write_hash n =
    (mask_byte 2 n / 2 ^ 24 % 256)
    ∷ (mask_byte 2 n / 2 ^ 16 % 256)
    ∷ (mask_byte 1 n / 2 ^ 8 % 256)
    ∷ (n % 256)
    ∷ []

-- binary.BigEndian.PutUint32
unfoldable pub put_uint32 : ℕ → Bytes
put_uint32 n = (n / 2 ^ 24 % 256) ∷ (n / 2 ^ 16 % 256) ∷ (n / 2 ^ 8 % 256) ∷ (n % 256) ∷ []

-- The bytes that the `switch` of `entryKey` writes for one match.
unfoldable pub match_bytes : MatchKind → Bytes
unfolding write_hash
match_bytes (exact v) = 1 ∷ v
match_bytes (lpm v n) = 2 ∷ write_hash n ++ v
match_bytes (range low high) = 3 ∷ low ++ high
match_bytes (ternary v mask) = 4 ∷ mask ++ v
match_bytes (optional v) = 5 ∷ v
match_bytes unset = []

-- validateMatch: `nfields` is `len(t.info.MatchFields)`
unfoldable pub validate_match : ℕ → ℕ → Option Error
validate_match nfields i = if leb nfields i then some invalid else none

-- The loop of `entryKey` from index `i`: the bytes written, or the first validation error.
unfoldable pub key_loop : ℕ → ℕ → List FieldMatch → Result Bytes
unfolding validate_match match_bytes
key_loop nfields i [] = ok []
key_loop nfields i (m ∷ ms) =
    let rest = key_loop nfields (suc i) ms in
    elim (validate_match nfields i) [
      | some e ↦ err e
      | none ↦ elim rest [ ok b ↦ ok (match_bytes m.kind ++ b) | err e ↦ err e ]
    ]

-- entryKey, of matches in the order given
unfoldable pub entry_key : (Bytes → Bytes) → List MatchField → TableEntry → Result Bytes
unfolding key_loop put_uint32
entry_key sha1 fields entry = elim (key_loop (length fields) 0 entry.matches) [
  | ok b ↦ ok (sha1 (b ++ put_uint32 entry.priority))
  | err e ↦ err e
]
