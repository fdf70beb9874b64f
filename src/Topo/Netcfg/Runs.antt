-- ===== src/Topo/Netcfg/Runs.antt =====
-- The runs of digits in the ids of ports.
use fabric_sim.Prelude.{
  ℕ, zero, suc, ◌+◌, ◌%◌, ◌/◌, ◌≤◌, nat_eq, bytes_eq, Bytes, List, [], ◌∷◌, ◌++◌, Bool, true, false,
  ltb, if◌then◌else◌, length, ◌≡◌, refl, arith, Bool-cases, inl, inr,
}
use fabric_sim.Topo.Text.{digits, decimal, port_id}
use fabric_sim.Topo.Robot.{is_digit}
use fabric_sim.Topo.Netcfg.{starts_with_digit, join_digit, digit_runs}

-- The number of runs of digits of a text.
abbrev pub runs : Bytes → ℕ
runs s = length (digit_runs s)

length-join_digit :
    (c : ℕ) (b : Bool) (r : List Bytes)
    → (b ≡ true → 1 ≤ length r)
    → length (join_digit c b r) ≡ (if b then length r else suc (length r))
length-join_digit c false r some_run = refl
length-join_digit c true [] some_run = absurd (omega (arith, some_run refl))
length-join_digit c true (x ∷ r) some_run = refl

-- A text that starts with a digit has a run.
runs-digit : (s : Bytes) → starts_with_digit s ≡ true → 1 ≤ runs s
unfolding digit_runs
runs-digit [] d = absurd (ground (arith, d))
runs-digit (c ∷ s) d = rw d (elim (Bool-cases (starts_with_digit s)) [
  | inl more ↦
      rw more
        (rw (length-join_digit c true (digit_runs s) (λ e. runs-digit s more)) (runs-digit s more))
  | inr last ↦ rw last (omega arith)
])

runs-cons :
    (c : ℕ) (s : Bytes)
    → runs (c ∷ s)
      ≡ (if is_digit c then (if starts_with_digit s then runs s else suc (runs s)) else runs s)
unfolding digit_runs
runs-cons c s = elim (Bool-cases (is_digit c)) [
  | inl digit ↦ rw digit (length-join_digit c (starts_with_digit s) (digit_runs s) (runs-digit s))
  | inr other ↦ rw other refl
]

-- The decimal text of a number starts with a digit.
digits_start :
    (fuel n : ℕ) (s : Bytes)
    → starts_with_digit s ≡ true
    → starts_with_digit (digits fuel n s) ≡ true
unfolding digits
digits_start zero n s k = k
digits_start (suc fuel) n s k = elim (Bool-cases (ltb n 10)) [
  | inl few ↦ rw few (ground arith)
  | inr many ↦ rw many (digits_start fuel (n / 10) ((48 + n % 10) ∷ s) (ground arith))
]

decimal_start : (n : ℕ) → starts_with_digit (decimal n) ≡ true
unfolding decimal digits
decimal_start n = elim (Bool-cases (ltb n 10)) [
  | inl few ↦ rw few (ground arith)
  | inr many ↦ rw many (digits_start n (n / 10) ((48 + n % 10) ∷ []) (ground arith))
]

-- The text before a slash keeps its runs, and the text after it has its own.
runs-slash : (id s : Bytes) → runs (id ++ 47 ∷ s) ≡ runs id + runs s
unfolding digit_runs
runs-slash [] s = omega arith
runs-slash (c ∷ []) s = ground (arith, runs-cons c (47 ∷ s), runs-cons c [])
runs-slash (c ∷ d ∷ id) s =
    ground (arith, runs-cons c (d ∷ (id ++ 47 ∷ s)), runs-cons c (d ∷ id), runs-slash (d ∷ id) s)

-- The id of a port has two runs if that of its device has one.
pub runs-port_id : (id : Bytes) (n : ℕ) → 1 ≤ runs id → 2 ≤ runs (port_id id n)
unfolding port_id
runs-port_id id n h =
    omega (arith, runs-slash id (decimal n), runs-digit (decimal n) (decimal_start n))
