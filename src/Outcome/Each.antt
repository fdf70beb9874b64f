-- ===== src/Outcome/Each.antt =====
-- A `range` loop whose body may return an error: it stops at the first one.
use mathlib.Core.List.{Memᴰ}
use fabric_sim.Prelude.{◌++◌, ap, ◌∙◌, ◌≡◌, refl, ◌⊎◌, inl, inr, List, [], ◌∷◌, arith}
use fabric_sim.Outcome.{Error, Outcome, done, failed, panic, Leaves, returned, ◌>>=◌}
use fabric_sim.Outcome.Rules.{Leaves->>=}

-- A call that returned, in two steps.
pub >>=-eq_done {ℓ} :
    {S : Type ℓ} (m : Outcome S) (f : S → Outcome S) {s : S}
    → (m >>= f) ≡ done s
    → (u : S) × (m ≡ done u) × (f u ≡ done s)
>>=-eq_done (done u) f h = (u, refl, h)
>>=-eq_done (failed e u) f h = cc
>>=-eq_done panic f h = cc

module _ {ℓ κ} {A : Type ℓ} {S : Type κ} where
  unfoldable pub each : (A → S → Outcome S) → List A → S → Outcome S
  each step [] s = done s
  each step (x ∷ xs) s = step x s >>= each step xs

  -- Two loops in a row are one.
  pub each-append :
      (step : A → S → Outcome S) (xs ys : List A) (s : S)
      → each step (xs ++ ys) s ≡ (each step xs s >>= each step ys)
  unfolding each
  each-append step [] ys s = refl
  each-append step (x ∷ xs) ys s = go (step x s) (each-append step xs ys)
    where
      go :
          (m : Outcome S)
          → ((u : S) → each step (xs ++ ys) u ≡ (each step xs u >>= each step ys))
          → (m >>= each step (xs ++ ys)) ≡ (m >>= each step xs >>= each step ys)
      go (done u) rest = rest u
      go (failed e u) rest = refl
      go panic rest = refl

  -- Where a loop that failed has stopped.
  pub record IsStopped (step : A → S → Outcome S) (xs : List A) (s : S) (e : Error) (s' : S)
      : Type (ℓ ⊔ κ) where
    pub before : List A
    pub at : A
    pub behind : List A
    pub split : xs ≡ before ++ at ∷ behind
    pub reached : S
    pub run : each step before s ≡ done reached
    pub stop : step at reached ≡ failed e s'

  pub each_failed :
      (step : A → S → Outcome S) (xs : List A) (s : S) (e : Error) (s' : S)
      → each step xs s ≡ failed e s'
      → IsStopped step xs s e s'
  unfolding each
  each_failed step [] s e s' h = cc
  each_failed step (x ∷ xs) s e s' h = go (step x s) refl (λ u. each_failed step xs u e s') h
    where
      go :
          (m : Outcome S)
          → step x s ≡ m
          → ((u : S) → each step xs u ≡ failed e s' → IsStopped step xs u e s')
          → (m >>= each step xs) ≡ failed e s'
          → IsStopped step (x ∷ xs) s e s'
      go (done u) first rest g =
          let r = rest u g in
          record {
            before = x ∷ r.before;
            at = r.at;
            behind = r.behind;
            split = ap (◌∷◌ x) r.split;
            reached = r.reached;
            run = rw (first, each) r.run;
            stop = r.stop;
          }
      go (failed y u) first rest g = record {
        before = [];
        at = x;
        behind = xs;
        split = refl;
        reached = s;
        run = refl;
        stop = first ∙ g;
      }
      go panic first rest g = cc

  module _ {μ ν} (step : A → S → Outcome S) (P : S → Type μ) (R : A → Type ν) where
    -- What holds after the loop held before it, or an element brought it.
    pub each_sound :
        ((x : A) (s s' : S) → step x s ≡ done s' → P s' → P s ⊎ R x)
        → (xs : List A) (s s' : S) → each step xs s ≡ done s'
        → P s'
        → P s ⊎ ((x : A) × Memᴰ x xs × R x)
    unfolding each
    each_sound one [] s s' h p = inl (let e : s ≡ s' = ground arith in rw e p)
    each_sound one (x ∷ xs) s s' h p =
        let (u, first, rest) = >>=-eq_done (step x s) (each step xs) h in
        elim (each_sound one xs u s' rest p) [
          | inr (y, m, r) ↦ inr (y, Memᴰ.tail m, r)
          | inl q ↦ elim (one x s u first q) [
            | inl old ↦ inl old
            | inr r ↦ inr (x, Memᴰ.head refl, r)
          ]
        ]

    -- What an element brings, or held before the loop, holds after it.
    pub each_complete :
        ((x : A) (s s' : S) → step x s ≡ done s' → P s ⊎ R x → P s')
        → (xs : List A) (s s' : S) → each step xs s ≡ done s'
        → P s ⊎ ((x : A) × Memᴰ x xs × R x)
        → P s'
    unfolding each
    each_complete one [] s s' h (inl p) = let e : s ≡ s' = ground arith in rw (← e) p
    each_complete one [] s s' h (inr (y, m, r)) = elim m [ ]
    each_complete one (x ∷ xs) s s' h (inl p) =
        let (u, first, rest) = >>=-eq_done (step x s) (each step xs) h in
        each_complete one xs u s' rest (inl (one x s u first (inl p)))
    each_complete one (x ∷ xs) s s' h (inr (y, Memᴰ.head e, r)) =
        let (u, first, rest) = >>=-eq_done (step x s) (each step xs) h in
        each_complete one xs u s' rest (inl (one x s u first (inr (rw (← e) r))))
    each_complete one (x ∷ xs) s s' h (inr (y, Memᴰ.tail m, r)) =
        let (u, first, rest) = >>=-eq_done (step x s) (each step xs) h in
        each_complete one xs u s' rest (inr (y, m, r))

  -- An invariant of the body is one of the loop.
  pub Leaves-each {μ} :
      (step : A → S → Outcome S) (P : S → Type μ)
      → ((x : A) (s : S) → P s → Leaves P (step x s))
      → (xs : List A) (s : S) → P s
      → Leaves P (each step xs s)
  unfolding each
  Leaves-each step P one [] s p = returned p
  Leaves-each step P one (x ∷ xs) s p =
      Leaves->>= (step x s) (each step xs) (one x s p) (λ u q. Leaves-each step P one xs u q)
