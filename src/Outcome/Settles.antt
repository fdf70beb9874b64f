-- ===== src/Outcome/Settles.antt =====
-- Calls that always return, and what holds of the state that they leave.
use fabric_sim.Prelude.{
  ◌≡◌, refl, Bool, true, false, List, [], ◌∷◌, Option, none, some, if◌then◌else◌,
}
use fabric_sim.Outcome.{
  Error, Outcome, done, failed, panic, lift, ◌>>=◌, Result, ok, err, Leaves, returned, refused,
}
use fabric_sim.Outcome.Each.{each}

pub data Settles {ℓ κ} {S : Type ℓ} (P : S → Type κ) : Outcome S → Type (ℓ ⊔ κ) where
  ended : {s : S} → P s → Settles P (done s)
  stopped : {e : Error} {s : S} → P s → Settles P (failed e s)

module _ {ℓ κ} {S : Type ℓ} {P : S → Type κ} where
  pub Settles-Leaves : {m : Outcome S} → Settles P m → Leaves P m
  Settles-Leaves (ended {s = s} p) = returned p
  Settles-Leaves (stopped {s = s} p) = refused p

  pub Settles-cases :
      (m : Outcome S)
      → (m ≡ panic → ⊥)
      → ((s : S) → m ≡ done s → P s)
      → ((e : Error) (s : S) → m ≡ failed e s → P s)
      → Settles P m
  Settles-cases (done s) q p r = ended (p s refl)
  Settles-cases (failed e s) q p r = stopped (r e s refl)
  Settles-cases panic q p r = absurd (q refl)

  pub Settles-if :
      (b : Bool) {x y : Outcome S}
      → (b ≡ true → Settles P x)
      → (b ≡ false → Settles P y)
      → Settles P (if b then x else y)
  Settles-if true p q = p refl
  Settles-if false p q = q refl

  pub Settles-option {μ} :
      {A : Type μ} (o : Option A) {x : Outcome S} {f : A → Outcome S}
      → (o ≡ none → Settles P x)
      → ((a : A) → o ≡ some a → Settles P (f a))
      → Settles P (elim o [ none ↦ x | some a ↦ f a ])
  Settles-option none p q = p refl
  Settles-option (some a) p q = q a refl

  pub Settles-result {μ} :
      {A : Type μ} (r : Result A) {f : A → Outcome S} {g : Error → Outcome S}
      → ((a : A) → r ≡ ok a → Settles P (f a))
      → ((e : Error) → Settles P (g e))
      → Settles P (elim r [ ok a ↦ f a | err e ↦ g e ])
  Settles-result (ok a) p q = p a refl
  Settles-result (err e) p q = q e

  pub Settles->>= :
      (m : Outcome S) (f : S → Outcome S)
      → Settles P m
      → ((s : S) → P s → Settles P (f s))
      → Settles P (m >>= f)
  Settles->>= (done s) f (ended p) q = q s p
  Settles->>= (failed e s) f (stopped p) q = stopped p
  Settles->>= panic f x q = elim x [ ]

  pub Settles-each {μ} :
      {A : Type μ} (step : A → S → Outcome S)
      → ((x : A) (s : S) → P s → Settles P (step x s))
      → (xs : List A) (s : S) → P s
      → Settles P (each step xs s)
  unfolding each
  Settles-each step keep [] s p = ended p
  Settles-each step keep (x ∷ xs) s p =
      Settles->>= (step x s) (each step xs) (keep x s p) (Settles-each step keep xs)

pub Settles-lift {ℓ κ μ} :
    {S : Type ℓ} {T : Type μ} {P : T → Type κ} (f : S → T) (m : Outcome S)
    → Settles (λ s. P (f s)) m
    → Settles P (lift f m)
Settles-lift f (done s) (ended p) = ended p
Settles-lift f (failed e s) (stopped p) = stopped p
Settles-lift f panic x = elim x [ ]

pub Settles-map {ℓ κ μ} :
    {S : Type ℓ} {P : S → Type κ} {Q : S → Type μ} (m : Outcome S)
    → ((s : S) → P s → Q s)
    → Settles P m
    → Settles Q m
Settles-map (done s) f (ended p) = ended (f s p)
Settles-map (failed e s) f (stopped p) = stopped (f s p)
Settles-map panic f x = elim x [ ]
