-- ===== src/Device/Election/Highest.antt =====
-- The election id that a device records of those that it is given for a role.
use mathlib.Core.Path.{subst}
use fabric_sim.Prelude.{
  ℕ, nat_eq, bytes_eq, ◌==◌, ◌<◌, ◌+◌, ◌*◌, ◌^◌, Bytes, List, [], ◌∷◌, false, Option, none, some,
  ltb, if◌then◌else◌, ◌≡◌, refl, ◌∙◌, arith, Bool-cases, inl, inr, beq-eq,
}
use fabric_sim.GoMap.{lookup, insert, lookup-insert, lookup-insert_self}
use fabric_sim.Device.Election.{
  ElectionId, Elections, Checked, checked, nil_pointer, less_id, same_id, record_role_election,
}

-- The number that the two halves of an id stand for.
abbrev pub id_value : ElectionId → ℕ
id_value e = e.high * 2 ^ 64 + e.low

abbrev pub greater : Option ℕ → ℕ → ℕ
greater none v = v
greater (some n) v = if ltb n v then v else n

-- The largest of a number and those of the ids that are given for a role.
abbrev pub highest : Bytes → Option ℕ → List (Bytes × ElectionId) → Option ℕ
highest role best [] = best
highest role best ((r, e) ∷ rest) =
    highest role (if r == role then some (greater best (id_value e)) else best) rest

abbrev pub AreUint64 : List (Bytes × ElectionId) → Type 0
AreUint64 [] = Unit
AreUint64 ((r, e) ∷ rest) = (e.low < 2 ^ 64) × AreUint64 rest

-- The elections after ids were given for roles, one after the other.
unfoldable pub record_all : List (Bytes × ElectionId) → Elections → Checked Elections
unfolding record_role_election
record_all [] s = checked s
record_all ((role, e) ∷ rest) s = elim (record_role_election role (some e) s) [
  | nil_pointer ↦ nil_pointer
  | checked (s', answer) ↦ record_all rest s'
]

-- What is recorded for a role has a number, if anything is.
abbrev pub Records : Option (Option ElectionId) → Option ℕ → Type 0
Records none none = Unit
Records (some (some w)) (some n) = (w.low < 2 ^ 64) × (id_value w ≡ n)
Records _ _ = ⊥

pub less_id_value :
    (a b : ElectionId)
    → a.low < 2 ^ 64
    → b.low < 2 ^ 64
    → less_id a b ≡ ltb (id_value a) (id_value b)
unfolding less_id
less_id_value a b ha hb = ground arith

pub same_id_value :
    (a b : ElectionId) → a.low < 2 ^ 64 → b.low < 2 ^ 64 → same_id a b ≡ (id_value a == id_value b)
unfolding same_id
same_id_value a b ha hb = ground arith

record-Records :
    (role : Bytes) (e : ElectionId) (s : Elections) (best : Option ℕ)
    → e.low < 2 ^ 64
    → Records (lookup role s) best
    → (s' : Elections) × (answer : Option ElectionId) × (record_role_election role (some e) s
        ≡ checked (s', answer))
      × Records (lookup role s') (some (greater best (id_value e)))
      × ((r : Bytes) → (role == r) ≡ false → lookup r s' ≡ lookup r s)
unfolding record_role_election
record-Records role e s best small r = go (lookup role s) refl best r
  where
    new : Elections
    new = insert role (some e) s

    new_held : lookup role new ≡ some (some e)
    new_held = lookup-insert_self role (some e) s

    new_others : (r : Bytes) → (role == r) ≡ false → lookup r new ≡ lookup r s
    new_others r other = lookup-insert role r (some e) s ∙ rw other refl

    go :
        (m : Option (Option ElectionId))
        → lookup role s ≡ m
        → (best : Option ℕ) → Records m best
        → (s' : Elections) × (answer : Option ElectionId) × (record_role_election role (some e) s
            ≡ checked (s', answer))
          × Records (lookup role s') (some (greater best (id_value e)))
          × ((r : Bytes) → (role == r) ≡ false → lookup r s' ≡ lookup r s)
    go none h none r =
        (new, some e, rw (h, record_role_election) refl, rw new_held (small, refl), new_others)
    go (some (some w)) h (some n) (small', at_n) = elim (Bool-cases (less_id w e)) [
      | inl less ↦ (
        new,
        some e,
        rw (h, record_role_election) (rw less refl),
        rw new_held (small, ground (arith, less_id_value w e small' small)),
        new_others,
      )
      | inr more ↦ (
        s,
        (if same_id w e then none else some w),
        rw (h, record_role_election) (rw more (ground arith)),
        rw h (small', ground (arith, less_id_value w e small' small)),
        λ r other. refl,
      )
    ]
    go none h (some n) r = elim r [ ]
    go (some none) h best r = elim r [ ]
    go (some (some w)) h none r = elim r [ ]

record_all-Records :
    (given : List (Bytes × ElectionId)) (s : Elections) (best : Bytes → Option ℕ)
    → AreUint64 given
    → ((role : Bytes) → Records (lookup role s) (best role))
    → (s' : Elections) × (record_all given s ≡ checked s')
      × ((role : Bytes) → Records (lookup role s') (highest role (best role) given))
unfolding record_all
record_all-Records [] s best small r = (s, refl, r)
record_all-Records ((role, e) ∷ rest) s best small r =
    let (s1, answer, e1, held, others) = record-Records role e s (best role) small.0 (r role) in
    let after : Bytes → Option ℕ =
      λ x. if role == x then some (greater (best x) (id_value e)) else best x in
    let (s2, e2, all) = record_all-Records rest s1 after small.1 (λ x. step s1 held others x) in
    (s2, rw (e1, record_all) e2, all)
  where
    step :
        (s1 : Elections)
        → Records (lookup role s1) (some (greater (best role) (id_value e)))
        → ((x : Bytes) → (role == x) ≡ false → lookup x s1 ≡ lookup x s)
        → (x : Bytes)
        → Records (lookup x s1) (if role == x then some (greater (best x) (id_value e)) else best x)
    step s1 held others x = elim (Bool-cases (role == x)) [
      | inl same ↦ rw same (
          subst (λ y. Records (lookup y s1) (some (greater (best y) (id_value e))))
            (beq-eq role x same) held)
      | inr other ↦ rw other (rw (others x other) (r x))
    ]

-- After ids of two 64-bit halves were given, for any roles and in any order, to a device that had
-- recorded none, no nil pointer was read, and for each role it has recorded an id whose 128-bit number
-- is the largest of those that were given for the role, and nothing for a role that none was given.
pub record_all-highest :
    (given : List (Bytes × ElectionId))
    → AreUint64 given
    → (s : Elections) × (record_all given [] ≡ checked s)
      × ((role : Bytes) → Records (lookup role s) (highest role none given))
unfolding lookup
record_all-highest given small = record_all-Records given [] (λ role. none) small (λ role. tt)
