-- ===== src/Entries/Key/Injective.antt =====
-- What `entryKey` accepts, and how much of an entry its bytes determine.
use fabric_sim.Prelude.{
  ℕ, suc, ◌+◌, ◌^◌, ◌≤◌, ◌<◌, ◌≡◌, refl, sym, ◌∙◌, Bytes, List, [], ◌∷◌, ◌++◌, map, arith, leb, inl,
  inr, if◌then◌else◌, length, length-append, Bool-cases,
}
use mathlib.Core.Path.{ap₂}
use mathlib.Core.List.{append_assoc}
use fabric_sim.Outcome.{invalid, ok, err}
use fabric_sim.Entries.Message.{
  FieldMatch, MatchKind, exact, lpm, range, ternary, optional, unset, TableEntry, MatchField,
}
use fabric_sim.Entries.Key.{write_hash, put_uint32, match_bytes, key_loop, entry_key}

module _ {ℓ} {A : Type ℓ} where
  -- Equal words whose first parts have one length are equal part by part.
  append-injective :
      (xs ys : List A) {us vs : List A}
      → length xs ≡ length ys
      → xs ++ us ≡ ys ++ vs
      → (xs ≡ ys) × (us ≡ vs)
  append-injective [] [] n e = (refl, e)
  append-injective (x ∷ xs) (y ∷ ys) {us} {vs} n e =
      ground (arith, append-injective xs ys {us = us} {vs = vs})
  append-injective [] (y ∷ ys) n e = absurd (omega arith)
  append-injective (x ∷ xs) [] n e = absurd (omega arith)

module _ {ℓ} {A : Type ℓ} where
  parts-injective :
      (xs xs' ys ys' : List A) {us vs : List A}
      → length xs ≡ length xs'
      → length ys ≡ length ys'
      → (xs ++ ys) ++ us ≡ (xs' ++ ys') ++ vs
      → (xs ≡ xs') × (ys ≡ ys') × (us ≡ vs)
  parts-injective xs xs' ys ys' {us} {vs} n m e =
      let (words, rest) =
        append-injective (xs ++ ys) (xs' ++ ys') {us = us} {vs = vs}
          (omega (arith, length-append xs ys, length-append xs' ys')) e in
      let (first, second) = append-injective xs xs' {us = ys} {vs = ys'} n words in
      (first, second, rest)

-- The loop reads only the kinds.
key_loop-kinds :
    (n i : ℕ) (as' bs : List FieldMatch)
    → map (λ m. m.kind) as' ≡ map (λ m. m.kind) bs
    → key_loop n i as' ≡ key_loop n i bs
unfolding key_loop
key_loop-kinds n i [] [] h = refl
key_loop-kinds n i (a ∷ as') (b ∷ bs) h = ground (arith, key_loop-kinds n (suc i) as' bs)
key_loop-kinds n i [] (b ∷ bs) h = cc
key_loop-kinds n i (a ∷ as') [] h = cc

-- All bytes that the loop writes.
unfoldable pub matches_bytes : List FieldMatch → Bytes
matches_bytes [] = []
matches_bytes (m ∷ ms) = match_bytes m.kind ++ matches_bytes ms

pub key_loop_lem :
    (n i : ℕ) (ms : List FieldMatch)
    → i ≤ n
    → key_loop n i ms ≡ (if leb (i + length ms) n then ok (matches_bytes ms) else err invalid)
unfolding key_loop matches_bytes
key_loop_lem n i [] h = ground arith
key_loop_lem n i (m ∷ ms) h = elim (Bool-cases (leb n i)) [
  | inl full ↦ ground arith
  | inr room ↦ ground (arith, key_loop_lem n (suc i) ms)
]

length-write_hash : (n : ℕ) → length (write_hash n) ≡ 4
unfolding write_hash
length-write_hash n = refl

-- The prefix length, below 2 ^ 24, can be read back from its bytes.
write_hash-injective : (m n : ℕ) → m < 2 ^ 24 → n < 2 ^ 24 → write_hash m ≡ write_hash n → m ≡ n
unfolding write_hash
write_hash-injective m n hm hn e = ground arith

put_uint32-injective : (m n : ℕ) → m < 2 ^ 32 → n < 2 ^ 32 → put_uint32 m ≡ put_uint32 n → m ≡ n
unfolding put_uint32
put_uint32-injective m n hm hn e = ground arith

-- Two matches of one kind, whose values have the same lengths and whose prefix lengths are in the
-- range that `writeHash` keeps.
abbrev pub SameShape : MatchKind → MatchKind → Type 0
SameShape (exact v) (exact w) = length v ≡ length w
SameShape (lpm v m) (lpm w n) = (length v ≡ length w) × (m < 2 ^ 24) × (n < 2 ^ 24)
SameShape (range low high) (range low' high') =
    (length low ≡ length low') × (length high ≡ length high')
SameShape (ternary v mask) (ternary w mask') = (length v ≡ length w) × (length mask ≡ length mask')
SameShape (optional v) (optional w) = length v ≡ length w
SameShape unset unset = Unit {0}
SameShape _ _ = ⊥

abbrev pub SameShapes : List FieldMatch → List FieldMatch → Type 0
SameShapes [] [] = Unit {0}
SameShapes (a ∷ as') (b ∷ bs) = SameShape a.kind b.kind × SameShapes as' bs
SameShapes _ _ = ⊥

match_bytes-injective :
    (a b : MatchKind) {us vs : Bytes}
    → SameShape a b
    → match_bytes a ++ us ≡ match_bytes b ++ vs
    → (a ≡ b) × (us ≡ vs)
unfolding match_bytes
match_bytes-injective (exact v) (exact w) {us} {vs} h e =
    ground (arith, append-injective v w {us = us} {vs = vs})
match_bytes-injective (optional v) (optional w) {us} {vs} h e =
    ground (arith, append-injective v w {us = us} {vs = vs})
match_bytes-injective unset unset h e = (refl, e)
match_bytes-injective (range l g) (range l' g') {us} {vs} h e =
    ground (arith, parts-injective l l' g g' {us = us} {vs = vs})
match_bytes-injective (ternary v m) (ternary v' m') {us} {vs} h e =
    ground (arith, parts-injective m m' v v' {us = us} {vs = vs})
match_bytes-injective (lpm v m) (lpm v' m') {us} {vs} h e = ground (
  arith,
  write_hash-injective m m',
  parts-injective (write_hash m) (write_hash m') v v' {us = us} {vs = vs}
      (length-write_hash m ∙ sym (length-write_hash m')),
)
match_bytes-injective a b h e = elim h [ ]

matches_bytes-injective :
    (as' bs : List FieldMatch) {us vs : Bytes}
    → SameShapes as' bs
    → matches_bytes as' ++ us ≡ matches_bytes bs ++ vs
    → (map (λ m. m.kind) as' ≡ map (λ m. m.kind) bs) × (us ≡ vs)
unfolding matches_bytes
matches_bytes-injective [] [] h e = (refl, e)
matches_bytes-injective (a ∷ as') (b ∷ bs) {us} {vs} h e =
    let (kinds, rest) =
      match_bytes-injective a.kind b.kind {us = matches_bytes as' ++ us}
        {vs = matches_bytes bs ++ vs} h.0
        (sym (append_assoc (match_bytes a.kind) (matches_bytes as') us)
          ∙ e
          ∙ append_assoc (match_bytes b.kind) (matches_bytes bs) vs) in
    let (others, after) = matches_bytes-injective as' bs {us = us} {vs = vs} h.1 rest in
    (ap₂ ◌∷◌ kinds others, after)
matches_bytes-injective [] (b ∷ bs) h e = elim h [ ]
matches_bytes-injective (a ∷ as') [] h e = elim h [ ]

-- What the hash is taken of.
unfoldable pub key_input : TableEntry → Bytes
unfolding matches_bytes put_uint32
key_input entry = matches_bytes entry.matches ++ put_uint32 entry.priority

-- `entryKey` fails exactly for more matches than the table has fields, and is otherwise the hash of
-- the bytes of all matches and of the priority.
pub entry_key_lem :
    (sha1 : Bytes → Bytes) (fields : List MatchField) (entry : TableEntry)
    → entry_key sha1 fields entry ≡ (
        if leb (length entry.matches) (length fields)
        then ok (sha1 (key_input entry))
        else err invalid)
unfolding entry_key key_input
entry_key_lem sha1 fields entry = ground (arith, key_loop_lem (length fields) 0 entry.matches)

key_input-injective :
    (a b : TableEntry)
    → SameShapes a.matches b.matches
    → a.priority < 2 ^ 32
    → b.priority < 2 ^ 32
    → key_input a ≡ key_input b
    → (map (λ m. m.kind) a.matches ≡ map (λ m. m.kind) b.matches) × (a.priority ≡ b.priority)
unfolding key_input
key_input-injective a b shape pa pb e =
    let (kinds, priorities) =
      matches_bytes-injective a.matches b.matches {us = put_uint32 a.priority}
        {vs = put_uint32 b.priority} shape e in
    (kinds, put_uint32-injective a.priority b.priority pa pb priorities)

-- For a hash that does not collide on the two inputs: two accepted entries whose matches have, in
-- order, the same kinds and value lengths and only prefix lengths below 2 ^ 24, whose priorities are
-- below 2 ^ 32, and which have one key, have the same match values and the same priority.
pub entry_key-injective :
    (sha1 : Bytes → Bytes) (fields : List MatchField) (a b : TableEntry) (k : Bytes)
    → (sha1 (key_input a) ≡ sha1 (key_input b) → key_input a ≡ key_input b)
    → SameShapes a.matches b.matches
    → a.priority < 2 ^ 32
    → b.priority < 2 ^ 32
    → entry_key sha1 fields a ≡ ok k
    → entry_key sha1 fields b ≡ ok k
    → (map (λ m. m.kind) a.matches ≡ map (λ m. m.kind) b.matches) × (a.priority ≡ b.priority)
entry_key-injective sha1 fields a b k free shape pa pb ka kb =
    key_input-injective a b shape pa pb
      (free (ground (arith, entry_key_lem sha1 fields a, entry_key_lem sha1 fields b)))

-- The ids of the matched fields are not part of the key: entries whose match values agree in
-- order, whichever fields they match on, and whose priorities agree, have one key.
pub entry_key-ignores_field_ids :
    (sha1 : Bytes → Bytes) (fields : List MatchField) (a b : TableEntry)
    → map (λ m. m.kind) a.matches ≡ map (λ m. m.kind) b.matches
    → a.priority ≡ b.priority
    → entry_key sha1 fields a ≡ entry_key sha1 fields b
unfolding entry_key
entry_key-ignores_field_ids sha1 fields a b kinds priorities =
    ground (arith, key_loop-kinds (length fields) 0 a.matches b.matches kinds)
