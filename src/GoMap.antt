-- ===== src/GoMap.antt =====
-- Go's `map[K]V` as the list of its entries. A `range` loop of the source visits the list in
-- order; the order itself is arbitrary, so the theorems hold for every list of entries.
pub mod Every
use fabric_sim.Prelude.{
  suc, ◌≤◌, ◌≡◌, ◌≢◌, refl, ap, Option, none, some, List, [], ◌∷◌, arith, if◌then◌else◌, Eq, ◌==◌,
  beq_refl, beq-ne, length, is_some,
}

abbrev pub GoMap {ℓ κ} : Type ℓ → Type κ → Type (ℓ ⊔ κ)
GoMap K V = List (K × V)

module _ {ℓ κ} {K : Type ℓ} {V : Type κ} where
  -- The values, in the order of iteration.
  unfoldable pub values : GoMap K V → List V
  values [] = []
  values ((k, v) ∷ m) = v ∷ values m

  pub length-values : (m : GoMap K V) → length (values m) ≡ length m
  unfolding values
  length-values [] = refl
  length-values ((k, v) ∷ m) = ap suc (length-values m)

module _ {ℓ κ} {K : Type ℓ} ⦃e : Eq K⦄ {V : Type κ} where
  -- v, ok := m[k]
  unfoldable pub lookup : K → GoMap K V → Option V
  lookup key [] = none
  lookup key ((at, held) ∷ rest) = if at == key then some held else lookup key rest

  -- m[k] = v
  unfoldable pub insert : K → V → GoMap K V → GoMap K V
  insert key value [] = (key, value) ∷ []
  insert key value ((at, held) ∷ rest) =
      let after = insert key value rest in
      if at == key then (key, value) ∷ rest else (at, held) ∷ after

  -- delete(m, k)
  unfoldable pub delete : K → GoMap K V → GoMap K V
  delete k [] = []
  delete k ((j, w) ∷ m) = let rest = delete k m in if j == k then rest else (j, w) ∷ rest

  -- A Go map holds a key once.
  abbrev pub HasDistinctKeys : GoMap K V → Type κ
  HasDistinctKeys [] = Unit
  HasDistinctKeys ((k, v) ∷ m) = (lookup k m ≡ none) × HasDistinctKeys m

  pub lookup-insert :
      (k j : K) (v : V) (m : GoMap K V)
      → lookup j (insert k v m) ≡ (if k == j then some v else lookup j m)
  unfolding lookup insert
  lookup-insert k j v [] = refl
  lookup-insert k j v ((at, held) ∷ rest) =
      let behind = lookup-insert k j v rest in
      ground (arith, e.beq_iff at k, e.beq_iff at j, e.beq_iff k j, behind)

  pub lookup-insert_self : (k : K) (v : V) (m : GoMap K V) → lookup k (insert k v m) ≡ some v
  lookup-insert_self k v m = ground (arith, lookup-insert k k v m, beq_refl k)

  pub lookup-insert_ne :
      (k j : K) (v : V) (m : GoMap K V) → k ≢ j → lookup j (insert k v m) ≡ lookup j m
  lookup-insert_ne k j v m h = ground (arith, lookup-insert k j v m, beq-ne k j h)

  pub lookup-delete :
      (k j : K) (m : GoMap K V) → lookup j (delete k m) ≡ (if k == j then none else lookup j m)
  unfolding lookup delete
  lookup-delete k j [] = ground arith
  lookup-delete k j ((i, w) ∷ m) =
      ground (arith, e.beq_iff k j, e.beq_iff i k, e.beq_iff i j, lookup-delete k j m)

  pub lookup-delete_self : (k : K) (m : GoMap K V) → lookup k (delete k m) ≡ none
  lookup-delete_self k m = ground (arith, lookup-delete k k m, beq_refl k)

  pub lookup-delete_ne : (k j : K) (m : GoMap K V) → k ≢ j → lookup j (delete k m) ≡ lookup j m
  lookup-delete_ne k j m h = ground (arith, lookup-delete k j m, beq-ne k j h)

  -- An update keeps the size, and a new key adds one.
  pub length-insert :
      (k : K) (v : V) (m : GoMap K V)
      → length (insert k v m) ≡ (if is_some (lookup k m) then length m else suc (length m))
  unfolding lookup insert
  length-insert k v [] = refl
  length-insert k v ((i, w) ∷ m) = ground (arith, length-insert k v m)

  pub length-delete-le : (k : K) (m : GoMap K V) → length (delete k m) ≤ length m
  unfolding delete
  length-delete-le k [] = omega arith
  length-delete-le k ((i, w) ∷ m) = ground (arith, length-delete-le k m)

  pub delete_absent : (k : K) (m : GoMap K V) → lookup k m ≡ none → delete k m ≡ m
  unfolding lookup delete
  delete_absent k [] h = refl
  delete_absent k ((i, w) ∷ m) h = ground (arith, delete_absent k m)

  -- Deleting a key that is there removes exactly one entry.
  pub length-delete :
      (k : K) (m : GoMap K V)
      → HasDistinctKeys m
      → (if is_some (lookup k m) then suc (length (delete k m)) else length (delete k m)) ≡ length m
  unfolding lookup delete
  length-delete k [] d = refl
  length-delete k ((i, w) ∷ m) d =
      ground (arith, e.beq_iff i k, delete_absent k m, length-delete k m d.1)

  pub insert-HasDistinctKeys :
      (k : K) (v : V) (m : GoMap K V) → HasDistinctKeys m → HasDistinctKeys (insert k v m)
  unfolding lookup insert
  insert-HasDistinctKeys k v [] d = (refl, tt)
  insert-HasDistinctKeys k v ((i, w) ∷ m) d =
      ground (
        arith,
        e.beq_iff i k,
        e.beq_iff k i,
        lookup-insert k i v m,
        insert-HasDistinctKeys k v m d.1,
      )

  pub delete-HasDistinctKeys :
      (k : K) (m : GoMap K V) → HasDistinctKeys m → HasDistinctKeys (delete k m)
  unfolding lookup delete
  delete-HasDistinctKeys k [] d = tt
  delete-HasDistinctKeys k ((i, w) ∷ m) d =
      ground (arith, lookup-delete k i m, delete-HasDistinctKeys k m d.1)

pub ruleset map_laws = (lookup-insert, lookup-delete, lookup-insert_self, lookup-delete_self)
