-- ===== src/Topo/Text.antt =====
-- The texts that pkg/topo makes with fmt.Sprintf, and strconv.ParseUint, which reads one back.
use fabric_sim.Prelude.{
  ℕ, zero, suc, ◌+◌, ◌-◌, ◌*◌, ◌/◌, ◌%◌, ◌<◌, Bytes, [], ◌∷◌, ◌++◌, ltb, if◌then◌else◌, ◌≡◌, sym,
  ap, ◌∙◌, arith, Bool-cases, inl, inr,
}

-- The decimal digits of a number before a text; `fuel` above the number is enough.
unfoldable pub digits : ℕ → ℕ → Bytes → Bytes
digits zero n acc = acc
digits (suc fuel) n acc =
    let more = digits fuel (n / 10) ((48 + n % 10) ∷ acc) in
    if ltb n 10 then (48 + n) ∷ acc else more

-- %d
unfoldable pub decimal : ℕ → Bytes
unfolding digits
decimal n = digits (suc n) n []

-- %02d
unfoldable pub two_digits : ℕ → Bytes
unfolding decimal
two_digits n = if ltb n 10 then 48 ∷ decimal n else decimal n

-- fmt.Sprintf("%s/%d", id, number)
unfoldable pub port_id : Bytes → ℕ → Bytes
unfolding decimal
port_id id number = id ++ 47 ∷ decimal number

-- The number that the digits after `n` give.
read_on : ℕ → Bytes → ℕ
read_on n [] = n
read_on n (c ∷ s) = read_on (n * 10 + (c - 48)) s

digits_read : (fuel n : ℕ) (acc : Bytes) → n < fuel → read_on 0 (digits fuel n acc) ≡ read_on n acc
unfolding digits read_on
digits_read zero n acc h = absurd (omega arith)
digits_read (suc fuel) n acc h = elim (Bool-cases (ltb n 10)) [
  | inl few ↦ rw few (ap (λ (k : ℕ). read_on k acc) (omega arith))
  | inr many ↦
      let step : n / 10 < fuel = ground arith in
      rw many (
        digits_read fuel (n / 10) ((48 + n % 10) ∷ acc) step
        ∙ ap (λ (k : ℕ). read_on k acc) (omega arith))
]

-- Two numbers with one decimal text are the same.
pub decimal_injective : (m n : ℕ) → decimal m ≡ decimal n → m ≡ n
unfolding decimal read_on
decimal_injective m n e =
    sym (digits_read (suc m) m [] (omega arith))
    ∙ ap (read_on 0) e
    ∙ digits_read (suc n) n [] (omega arith)
