-- ===== src/Topo/Fabrics/Names.antt =====
-- The names of spines and leaves are different, and have no slash.
use mathlib.Core.List.{Memᴰ}
use fabric_sim.Prelude.{
  ℕ, zero, suc, ◌+◌, ◌%◌, ◌/◌, ◌≤◌, nat_eq, bytes_eq, ◌==◌, beq-ne, Bytes, List, [], ◌∷◌, ◌++◌,
  false, none, ◌≡◌, ◌⊎◌, refl, ◌∙◌, arith, inl, inr,
}
use fabric_sim.Simulation.Ports.{before_slash, extract_device_id}
use fabric_sim.Topo.Text.{digits, decimal, decimal_injective}
use fabric_sim.Topo.Fabrics.{spine_id, leaf_id}
use fabric_sim.Topo.Fabrics.Ids.{names_from}

tail_eq : (a b : ℕ) (s t : Bytes) → (a ∷ s) ≡ (b ∷ t) → s ≡ t
tail_eq a b s t h = ground arith

spine_id_injective : (m n : ℕ) → spine_id m ≡ spine_id n → m ≡ n
unfolding spine_id
spine_id_injective m n h = decimal_injective m n (ground arith)

leaf_id_injective : (m n : ℕ) → leaf_id m ≡ leaf_id n → m ≡ n
unfolding leaf_id
leaf_id_injective m n h = decimal_injective m n (ground arith)

pub spine_id-leaf_id : (m n : ℕ) → (spine_id m == leaf_id n) ≡ false
unfolding spine_id leaf_id
spine_id-leaf_id m n = refl

digits-before_slash :
    (fuel n : ℕ) (s : Bytes) → before_slash s ≡ none → before_slash (digits fuel n s) ≡ none
unfolding digits before_slash
digits-before_slash zero n s h = h
digits-before_slash (suc fuel) n s h =
    ground (arith, digits-before_slash fuel (n / 10) ((48 + n % 10) ∷ s))

Memᴰ-append_cases : (x : Bytes) (xs ys : List Bytes) → Memᴰ x (xs ++ ys) → Memᴰ x xs ⊎ Memᴰ x ys
Memᴰ-append_cases x [] ys m = inr m
Memᴰ-append_cases x (z ∷ xs) ys (Memᴰ.head e) = inl (Memᴰ.head e)
Memᴰ-append_cases x (z ∷ xs) ys (Memᴰ.tail m) = elim (Memᴰ-append_cases x xs ys m) [
  | inl before ↦ inl (Memᴰ.tail before)
  | inr behind ↦ inr behind
]

-- Ids that are all different.
abbrev pub AreDistinct : List Bytes → Type 0
AreDistinct [] = Unit
AreDistinct (x ∷ xs) = ((y : Bytes) → Memᴰ y xs → (x == y) ≡ false) × AreDistinct xs

module _ (name : ℕ → Bytes) (injective : (m n : ℕ) → name m ≡ name n → m ≡ n) where
  names_from-Memᴰ :
      (i count : ℕ) (y : Bytes)
      → Memᴰ y (names_from name i count)
      → (j : ℕ) × (i ≤ j) × (y ≡ name j)
  names_from-Memᴰ i zero y m = elim m [ ]
  names_from-Memᴰ i (suc count) y (Memᴰ.head e) = (i, omega arith, e)
  names_from-Memᴰ i (suc count) y (Memᴰ.tail m) =
      let (j, later, e) = names_from-Memᴰ (i + 1) count y m in (j, omega arith, e)

  names_from-AreDistinct : (i count : ℕ) → AreDistinct (names_from name i count)
  names_from-AreDistinct i zero = tt
  names_from-AreDistinct i (suc count) = (
    λ y m.
        let (j, later, e) = names_from-Memᴰ (i + 1) count y m in
        beq-ne (name i) y (λ same. let i_is_j = injective i j (same ∙ e) in absurd (omega arith)),
    names_from-AreDistinct (i + 1) count,
  )

AreDistinct-append :
    (xs ys : List Bytes)
    → AreDistinct xs
    → AreDistinct ys
    → ((x y : Bytes) → Memᴰ x xs → Memᴰ y ys → (x == y) ≡ false)
    → AreDistinct (xs ++ ys)
AreDistinct-append [] ys dx dy apart = dy
AreDistinct-append (x ∷ xs) ys dx dy apart = (
  λ y m. either y (Memᴰ-append_cases y xs ys m),
  AreDistinct-append xs ys dx.1 dy (λ a b ma mb. apart a b (Memᴰ.tail ma) mb),
)
  where
    either : (y : Bytes) → Memᴰ y xs ⊎ Memᴰ y ys → (x == y) ≡ false
    either y (inl m) = dx.0 y m
    either y (inr m) = apart x y (Memᴰ.head refl) m

-- The ids of the spines and leaves of a fabric.
abbrev pub fabric_ids : ℕ → ℕ → List Bytes
fabric_ids spines leaves = names_from spine_id 1 spines ++ names_from leaf_id 1 leaves

pub fabric_ids-AreDistinct : (spines leaves : ℕ) → AreDistinct (fabric_ids spines leaves)
fabric_ids-AreDistinct spines leaves =
    AreDistinct-append (names_from spine_id 1 spines) (names_from leaf_id 1 leaves)
      (names_from-AreDistinct spine_id spine_id_injective 1 spines)
      (names_from-AreDistinct leaf_id leaf_id_injective 1 leaves)
      λ x y mx my.
        let (i, p, ex) = names_from-Memᴰ spine_id spine_id_injective 1 spines x mx in
        let (j, q, ey) = names_from-Memᴰ leaf_id leaf_id_injective 1 leaves y my in
        rw ex (rw ey (spine_id-leaf_id i j))

spine_id-extract_device_id : (n : ℕ) → extract_device_id (spine_id n) ≡ none
unfolding spine_id decimal extract_device_id before_slash
spine_id-extract_device_id n = ground (arith, digits-before_slash (suc n) n [])

leaf_id-extract_device_id : (n : ℕ) → extract_device_id (leaf_id n) ≡ none
unfolding leaf_id decimal extract_device_id before_slash
leaf_id-extract_device_id n = ground (arith, digits-before_slash (suc n) n [])

pub fabric_ids-extract_device_id :
    (spines leaves : ℕ) (id : Bytes)
    → Memᴰ id (fabric_ids spines leaves)
    → extract_device_id id ≡ none
fabric_ids-extract_device_id spines leaves id m =
    go (Memᴰ-append_cases id (names_from spine_id 1 spines) (names_from leaf_id 1 leaves) m)
  where
    go :
        Memᴰ id (names_from spine_id 1 spines) ⊎ Memᴰ id (names_from leaf_id 1 leaves)
        → extract_device_id id ≡ none
    go (inl m) =
        let (i, p, e) = names_from-Memᴰ spine_id spine_id_injective 1 spines id m in
        rw e (spine_id-extract_device_id i)
    go (inr m) =
        let (i, p, e) = names_from-Memᴰ leaf_id leaf_id_injective 1 leaves id m in
        rw e (leaf_id-extract_device_id i)
