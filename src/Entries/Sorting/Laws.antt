-- ===== src/Entries/Sorting/Laws.antt =====
-- `slice_stable` sorts, keeps the elements and the order of equal ones, and depends only on the
-- set of elements where the keys are distinct.
use mathlib.Core.List.Perm
use mathlib.Core.List.{Nodup, Perm, Permᴰ, Nodup-cons, mem-cons_self}
use mathlib.Core.Logic.{∥∥₁_elim}
use fabric_sim.Prelude.{
  ℕ, ◌≤◌, ◌≡◌, ◌≢◌, refl, ◌∙◌, List, [], ◌∷◌, map, arith, ltb, nat_eq, ◌==◌, if◌then◌else◌, All,
  Bool-cases, inl, inr,
}
use fabric_sim.Entries.Sorting.{place, slice_stable}

module _ {ℓ} {A : Type ℓ} (key : A → ℕ) where
  -- Ascending keys.
  abbrev pub IsSorted : List A → Type 0
  IsSorted [] = Unit
  IsSorted (x ∷ xs) = All (λ y. key x ≤ key y) xs × IsSorted xs

  -- The elements with one key, in their order.
  pub with_key : ℕ → List A → List A
  with_key k [] = []
  with_key k (x ∷ xs) = let rest = with_key k xs in if key x == k then x ∷ rest else rest

  All-le_place :
      (k : ℕ) (x : A) (ys : List A)
      → k ≤ key x
      → All (λ y. k ≤ key y) ys
      → All (λ y. k ≤ key y) (place key x ys)
  unfolding place
  All-le_place k x [] h a = (h, tt)
  All-le_place k x (y ∷ ys) h a = ground (arith, All-le_place k x ys h a.1)

  All-le_trans : (j k : ℕ) (ys : List A) → j ≤ k → All (λ y. k ≤ key y) ys → All (λ y. j ≤ key y) ys
  All-le_trans j k [] h a = tt
  All-le_trans j k (y ∷ ys) h a = (omega (arith, a.0), All-le_trans j k ys h a.1)

  place-IsSorted : (x : A) (ys : List A) → IsSorted ys → IsSorted (place key x ys)
  unfolding place
  place-IsSorted x [] s = (tt, tt)
  place-IsSorted x (y ∷ ys) s =
      ground
        (arith, All-le_place (key y) x ys, All-le_trans (key x) (key y) ys, place-IsSorted x ys s.1)

  pub slice_stable-IsSorted : (xs : List A) → IsSorted (slice_stable key xs)
  unfolding slice_stable
  slice_stable-IsSorted [] = tt
  slice_stable-IsSorted (x ∷ xs) = place-IsSorted x (slice_stable key xs) (slice_stable-IsSorted xs)

  place-perm : (x : A) (ys : List A) → Perm (place key x ys) (x ∷ ys)
  unfolding place
  place-perm x [] = Perm.refl (x ∷ [])
  place-perm x (y ∷ ys) = elim (Bool-cases (ltb (key y) (key x))) [
    | inl later ↦ rw later (Perm.trans (Perm.cons y (place-perm x ys)) (Perm.swap x y ys))
    | inr here ↦ rw here (Perm.refl (x ∷ y ∷ ys))
  ]

  pub slice_stable-perm : (xs : List A) → Perm (slice_stable key xs) xs
  unfolding slice_stable
  slice_stable-perm [] = Perm.refl []
  slice_stable-perm (x ∷ xs) =
      Perm.trans (place-perm x (slice_stable key xs)) (Perm.cons x (slice_stable-perm xs))

  with_key-place : (k : ℕ) (x : A) (ys : List A) → with_key k (place key x ys) ≡ with_key k (x ∷ ys)
  unfolding with_key place
  with_key-place k x [] = refl
  with_key-place k x (y ∷ ys) = ground (arith, with_key-place k x ys)

  -- The sort is stable.
  pub with_key-slice_stable :
      (k : ℕ) (xs : List A) → with_key k (slice_stable key xs) ≡ with_key k xs
  unfolding with_key slice_stable
  with_key-slice_stable k [] = refl
  with_key-slice_stable k (x ∷ xs) =
      ground (arith, with_key-place k x (slice_stable key xs), with_key-slice_stable k xs)

  place_comm :
      (x y : A) (l : List A)
      → key x ≢ key y
      → place key x (place key y l) ≡ place key y (place key x l)
  unfolding place
  place_comm x y [] h = ground arith
  place_comm x y (z ∷ l) h = ground (arith, place_comm x y l h)

  -- Rearranged lists with distinct keys are sorted into one list.
  slice_stable-eq_of_permᴰ :
      {xs ys : List A}
      → Permᴰ xs ys
      → Nodup (map key xs)
      → slice_stable key xs ≡ slice_stable key ys
  unfolding slice_stable
  slice_stable-eq_of_permᴰ Permᴰ.nil d = refl
  slice_stable-eq_of_permᴰ (Permᴰ.cons e p) d =
      rw (e, slice_stable-eq_of_permᴰ p (Nodup-cons.0 d).1)
  slice_stable-eq_of_permᴰ (Permᴰ.swap {a = a} {b = b} {l = l} e f) d =
      rw (← e, ← f)
        (place_comm a b (slice_stable key l) (λ same. (Nodup-cons.0 d).0 (rw same mem-cons_self)))
  slice_stable-eq_of_permᴰ (Permᴰ.trans p q) d =
      slice_stable-eq_of_permᴰ p d ∙ slice_stable-eq_of_permᴰ q (Perm.nodup (Perm.map key ∣ p ∣₁) d)

  pub slice_stable-eq_of_perm :
      IsSet (List A)
      → {xs ys : List A} → Perm xs ys
      → Nodup (map key xs)
      → slice_stable key xs ≡ slice_stable key ys
  slice_stable-eq_of_perm set {xs} {ys} p d =
      ∥∥₁_elim p (set (slice_stable key xs) (slice_stable key ys))
        (λ q. slice_stable-eq_of_permᴰ q d)
