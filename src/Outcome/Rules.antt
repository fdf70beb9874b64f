-- ===== src/Outcome/Rules.antt =====
-- What a call leaves, by the shape of its body: one rule for each way to branch.
use fabric_sim.Prelude.{
  ◌≡◌, refl, Bool, true, false, Option, none, some, inl, inr, ◌⊎◌, arith, if◌then◌else◌,
}
use fabric_sim.Outcome.{
  Error, Outcome, done, failed, panic, lift, Leaves, returned, refused, crashed, Result, ok, err,
  ◌>>=◌,
}

module _ {ℓ κ} {S : Type ℓ} {P : S → Type κ} where
  pub Leaves-if :
      (b : Bool) {x y : Outcome S}
      → (b ≡ true → Leaves P x)
      → (b ≡ false → Leaves P y)
      → Leaves P (if b then x else y)
  Leaves-if true p q = p refl
  Leaves-if false p q = q refl

  pub Leaves-option {μ} :
      {A : Type μ} (o : Option A) {x : Outcome S} {f : A → Outcome S}
      → Leaves P x
      → ((a : A) → o ≡ some a → Leaves P (f a))
      → Leaves P (elim o [ none ↦ x | some a ↦ f a ])
  Leaves-option none p q = p
  Leaves-option (some a) p q = q a refl

  pub Leaves-result {μ} :
      {A : Type μ} (r : Result A) {f : A → Outcome S} {g : Error → Outcome S}
      → ((a : A) → r ≡ ok a → Leaves P (f a))
      → ((e : Error) → Leaves P (g e))
      → Leaves P (elim r [ ok a ↦ f a | err e ↦ g e ])
  Leaves-result (ok a) p q = p a refl
  Leaves-result (err e) p q = q e

  pub Leaves->>= :
      (m : Outcome S) (f : S → Outcome S)
      → Leaves P m
      → ((s : S) → P s → Leaves P (f s))
      → Leaves P (m >>= f)
  Leaves->>= (done s) f (returned p) q = q s p
  Leaves->>= (failed e s) f (refused p) q = refused p
  Leaves->>= panic f p q = crashed

  pub Leaves-map {μ ν} :
      {T : Type μ} {Q : T → Type ν} (f : T → S) (m : Outcome T)
      → Leaves Q m
      → ((t : T) → Q t → P (f t))
      → Leaves P (lift f m)
  Leaves-map f (done t) (returned p) q = returned (q t p)
  Leaves-map f (failed e t) (refused p) q = refused (q t p)
  Leaves-map f panic p q = crashed

  pub Leaves-weaken {μ} :
      {Q : S → Type μ} {m : Outcome S} → ((s : S) → Q s → P s) → Leaves Q m → Leaves P m
  Leaves-weaken w (returned {s = s} q) = returned (w s q)
  Leaves-weaken w (refused {s = s} q) = refused (w s q)
  Leaves-weaken w crashed = crashed

  -- The state that is left, read back.
  pub Leaves-done : {m : Outcome S} {s : S} → Leaves P m → m ≡ done s → P s
  Leaves-done {s = s} (returned {s = s'} p) h = let q : s' ≡ s = cc in rw q at p
  Leaves-done (refused p) h = cc
  Leaves-done crashed h = cc

-- To split on a result and keep the equation.
pub Result-cases {ℓ} :
    {A : Type ℓ} (r : Result A) → ((a : A) × (r ≡ ok a)) ⊎ ((e : Error) × (r ≡ err e))
Result-cases (ok a) = inl (a, refl)
Result-cases (err e) = inr (e, refl)

module _ {ℓ} {S : Type ℓ} where
  pub bind_assoc : (m : Outcome S) (f g : S → Outcome S) → (m >>= f >>= g) ≡ (m >>= λ s. f s >>= g)
  bind_assoc (done s) f g = refl
  bind_assoc (failed e s) f g = refl
  bind_assoc panic f g = refl

  pub bind-done : (m : Outcome S) → (m >>= done) ≡ m
  bind-done (done s) = refl
  bind-done (failed e s) = refl
  bind-done panic = refl

-- A call of a part that returned, seen from the whole.
pub lift-done {ℓ κ} :
    {S : Type ℓ} {T : Type κ} (f : S → T) (m : Outcome S) {t : T}
    → lift f m ≡ done t
    → (s : S) × (m ≡ done s) × (t ≡ f s)
lift-done f (done s) h = (s, refl, ground arith)
lift-done f (failed e s) h = cc
lift-done f panic h = cc

-- The same behind a lookup that fails on a missing key.
pub lookup-lift-done {ℓ κ μ} :
    {A : Type ℓ} {S : Type κ} {T : Type μ} (o : Option A) (e : Error) (u : T) (f : A → S → T)
    (op : A → Outcome S) {t : T}
    → elim o [ none ↦ failed e u | some a ↦ lift (f a) (op a) ] ≡ done t
    → (a : A) × (o ≡ some a) × (s : S) × (op a ≡ done s) × (t ≡ f a s)
lookup-lift-done none e u f op h = cc
lookup-lift-done (some a) e u f op h =
    let (s, run, result) = lift-done (f a) (op a) h in (a, refl, s, run, result)

pub ruleset leaves_rules = (returned, refused, crashed, Leaves-if, Leaves-option, Leaves-result)

pub Leaves-mono {ℓ κ μ} :
    {S : Type ℓ} {P : S → Type κ} {Q : S → Type μ} (m : Outcome S)
    → ((s : S) → P s → Q s)
    → Leaves P m
    → Leaves Q m
Leaves-mono (done s) f (returned p) = returned (f s p)
Leaves-mono (failed e s) f (refused p) = refused (f s p)
Leaves-mono panic f x = crashed
