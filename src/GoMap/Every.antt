-- ===== src/GoMap/Every.antt =====
-- A property of every entry of a Go map, and how the writes keep it.
use fabric_sim.Prelude.{◌≡◌, some, [], ◌∷◌, arith, inl, inr, Bool-cases, Eq, ◌==◌, beq-eq}
use fabric_sim.GoMap.{GoMap, lookup, insert, delete}

module _ {ℓ κ μ} {K : Type ℓ} {V : Type κ} (P : K → V → Type μ) where
  abbrev pub Every : GoMap K V → Type μ
  Every [] = Unit
  Every ((k, v) ∷ m) = P k v × Every m

module _ {ℓ κ μ} {K : Type ℓ} ⦃e : Eq K⦄ {V : Type κ} (P : K → V → Type μ) where
  pub insert-Every : (k : K) (v : V) (m : GoMap K V) → P k v → Every P m → Every P (insert k v m)
  unfolding insert
  insert-Every k v [] p a = (p, tt)
  insert-Every k v ((j, w) ∷ m) p a = ground (arith, insert-Every k v m p a.1)

  pub delete-Every : (k : K) (m : GoMap K V) → Every P m → Every P (delete k m)
  unfolding delete
  delete-Every k [] a = tt
  delete-Every k ((j, w) ∷ m) a = ground (arith, delete-Every k m a.1)

  pub lookup-Every : (k : K) {v : V} (m : GoMap K V) → lookup k m ≡ some v → Every P m → P k v
  unfolding lookup
  lookup-Every k {v} [] h a = cc
  lookup-Every k {v} ((j, w) ∷ m) h a = elim (Bool-cases (j == k)) [
    | inl same ↦ let q : w ≡ v = ground arith in rw (← beq-eq j k same, ← q) a.0
    | inr other ↦ lookup-Every k m (ground arith) a.1
  ]
