-- ===== src/Outcome.antt =====
-- The error values of onos-lib-go's `errors` that the program makes (their kinds; the formatted
-- text is left out), and what a call of the program may come to.
pub mod Rules
pub mod Each
pub mod Settles

pub data Error : Type 0 where
  not_found already_exists invalid unavailable conflict unauthorized : Error

-- `done`: the call returned nil. `failed`: it returned the error. Either way the state that it
-- left is kept. `panic`: a nil pointer was read or an index was out of range.
pub data Outcome {ℓ} (S : Type ℓ) : Type ℓ where
  done : S → Outcome S
  failed : Error → S → Outcome S
  panic : Outcome S

-- Puts the state of a part back into the whole.
abbrev pub lift {ℓ κ} : {S : Type ℓ} {T : Type κ} → (S → T) → Outcome S → Outcome T
lift f (done s) = done (f s)
lift f (failed e s) = failed e (f s)
lift f panic = panic

-- The next statement, after `if err != nil { return err }`.
infixl 5 ◌>>=◌
abbrev pub ◌>>=◌ {ℓ} : {S : Type ℓ} → Outcome S → (S → Outcome S) → Outcome S
done s >>= f = f s
failed e s >>= f = failed e s
panic >>= f = panic

-- The state that is left, or the given one after a panic.
abbrev pub state_or {ℓ} : {S : Type ℓ} → S → Outcome S → S
state_or d (done s) = s
state_or d (failed e s) = s
state_or d panic = d

-- What holds of the state that is left, whether the call returned nil or an error.
pub data Leaves {ℓ κ} {S : Type ℓ} (P : S → Type κ) : Outcome S → Type (ℓ ⊔ κ) where
  returned : {s : S} → P s → Leaves P (done s)
  refused : {e : Error} {s : S} → P s → Leaves P (failed e s)
  crashed : Leaves P panic

-- A pure function that may return an error.
pub data Result {ℓ} (A : Type ℓ) : Type ℓ where
  ok : A → Result A
  err : Error → Result A
