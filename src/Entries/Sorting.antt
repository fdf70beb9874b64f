-- ===== src/Entries/Sorting.antt =====
-- `sort.SliceStable` by a number, as table.go uses it: insertion behind the elements that are not
-- larger, which keeps the order of equal ones.
pub mod Laws
use fabric_sim.Prelude.{ℕ, ltb, if◌then◌else◌, List, [], ◌∷◌}

module _ {ℓ} {A : Type ℓ} (key : A → ℕ) where
  -- `x` comes from before the elements of the list, so it stays before its equals.
  unfoldable pub place : A → List A → List A
  place x [] = x ∷ []
  place x (y ∷ ys) = let later = place x ys in if ltb (key y) (key x) then y ∷ later else x ∷ y ∷ ys

  unfoldable pub slice_stable : List A → List A
  slice_stable [] = []
  slice_stable (x ∷ xs) = place x (slice_stable xs)
