-- ===== src/Topo/Robot/Ports.antt =====
-- The ports that the topology for tests of the controller names.
use fabric_sim.Prelude.{
  ℕ, zero, suc, ◌+◌, ◌-◌, ◌*◌, ◌/◌, ◌%◌, ◌^◌, ◌<◌, ◌≤◌, nat_eq, ◌==◌, Bytes, codes, [], ◌∷◌, ◌++◌,
  true, ltb, ◌≡◌, refl, ap, ◌∙◌, arith, Bool-cases, inl, inr,
}
use fabric_sim.Topo.Schema.{Device}
use fabric_sim.Topo.Text.{digits, decimal}
use fabric_sim.Topo.Builder.{ports_from, create_ports}
use fabric_sim.Topo.Robot.{is_digit, parse_on, parse_uint, internal_port, pid}

parse_on-digit :
    (n c : ℕ) (s : Bytes)
    → c < 10
    → n * 10 + c < 2 ^ 32
    → parse_on n ((48 + c) ∷ s) ≡ parse_on (n * 10 + c) s
unfolding parse_on
parse_on-digit n c s h k =
    let digit : is_digit (48 + c) ≡ true = ground arith in
    let value : n * 10 + (48 + c - 48) ≡ n * 10 + c = omega arith in
    let fits : ltb (n * 10 + c) (2 ^ 32) ≡ true = ground arith in
    rw (digit, parse_on) (rw value (rw fits refl))

parse_on-digits :
    (fuel n : ℕ) (s : Bytes) → n < fuel → n < 2 ^ 32 → parse_on 0 (digits fuel n s) ≡ parse_on n s
unfolding digits
parse_on-digits zero n s h k = absurd (omega arith)
parse_on-digits (suc fuel) n s h k = elim (Bool-cases (ltb n 10)) [
  | inl few ↦ rw few (
      parse_on-digit 0 n s (ground arith) (omega arith)
      ∙ ap (λ (m : ℕ). parse_on m s) (omega arith))
  | inr many ↦
      let step : n / 10 < fuel = ground arith in
      rw many (
        parse_on-digits fuel (n / 10) ((48 + n % 10) ∷ s) step (omega arith)
        ∙ parse_on-digit (n / 10) (n % 10) s (omega arith) (omega arith)
        ∙ ap (λ (m : ℕ). parse_on m s) (omega arith))
]

-- The number of a port is read back from its text.
pub parse_uint-decimal : (n : ℕ) → n < 2 ^ 32 → parse_uint (decimal n) ≡ n
unfolding parse_uint decimal parse_on
parse_uint-decimal n h = parse_on-digits (suc n) n [] (omega arith) h

internal_port_absent :
    (n found i count : ℕ) → n < i → internal_port n found (ports_from i count) ≡ found
unfolding internal_port ports_from
internal_port_absent n found i zero h = refl
internal_port_absent n found i (suc count) h =
    ground (arith, internal_port_absent n found (i + 1) count)

internal_port-ports_from :
    (n found i count : ℕ)
    → i ≤ n
    → n < i + count
    → internal_port n found (ports_from i count) ≡ (n + 200) % 2 ^ 32
unfolding internal_port ports_from
internal_port-ports_from n found i zero h k = absurd (omega arith)
internal_port-ports_from n found i (suc count) h k = elim (Bool-cases (i == n)) [
  | inl here ↦
      let e : i ≡ n = ground arith in
      rw (here, internal_port)
        (internal_port_absent n _ (i + 1) count (omega arith)
          ∙ ap (λ (m : ℕ). (m + 200) % 2 ^ 32) e)
  | inr there ↦
      rw (there, internal_port)
        (internal_port-ports_from n found (i + 1) count (ground arith) (omega arith))
]

-- The port of a switch that createSwitch has made is named by its number and by its SDN number, which
-- is 200 more, for up to 2 ^ 32 - 201 ports.
pub pid-create_ports :
    (n count : ℕ) (d : Device)
    → d.ports ≡ create_ports count
    → count < 2 ^ 32 - 200
    → 1 ≤ n
    → n ≤ count
    → pid (decimal n) d
      ≡ codes "[" ++ (decimal n ++ (codes "](" ++ (decimal (n + 200) ++ codes ")")))
unfolding pid create_ports
pid-create_ports n count d made small first last =
    let whole : count % 2 ^ 32 ≡ count = omega arith in
    let value : internal_port n 0 d.ports ≡ n + 200 =
      rw made (internal_port-ports_from n 0 1 (count % 2 ^ 32) first (omega arith) ∙ omega arith) in
    let read = parse_uint-decimal n (omega arith) in
    let both : internal_port (parse_uint (decimal n)) 0 d.ports ≡ n + 200 =
      ap (λ (m : ℕ). internal_port m 0 d.ports) read ∙ value in
    ap (λ (m : ℕ). codes "[" ++ (decimal n ++ (codes "](" ++ (decimal m ++ codes ")")))) both
