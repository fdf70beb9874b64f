-- ===== src/Simulation/RandomHost.antt =====
-- GetRandomHostSimulator of pkg/simulator/core.go: the host that an ARP request is for. The read lock
-- that a further draw takes again is left out.
use mathlib.Core.List.{Memᴰ}
use fabric_sim.Prelude.{
  ℕ, zero, suc, nat_eq, bytes_eq, ◌==◌, List, [], ◌∷◌, Bool, false, Option, none, some, length,
  get_elem?, ltb, if◌then◌else◌, ◌≡◌, refl, sym, ap, ◌∙◌, arith, Option-cases, Bool-cases, inl, inr,
}
use fabric_sim.Simulation.Ports.{Host}

-- Two HostSimulators are the same object if they have one id.
unfoldable pub is_except : Option Host → Host → Bool
is_except none h = false
is_except (some e) h = e.id == h.id

-- A draw: the hosts in the order in which they are ranged over this time, and the number that
-- rand.Intn gives.
pub record Draw : Type 0 where
  pub hosts : List Host
  pub number : ℕ

-- GetRandomHostSimulator: the outer result is absent if there are too few draws.
unfoldable pub random_host : Option Host → List Draw → Option (Option Host)
unfolding is_except
random_host except [] = none
random_host except (d ∷ ds) = elim (get_elem? d.hosts d.number) [
  | none ↦ some none
  | some h ↦
      let again = random_host except ds in
      if is_except except h
      then (if ltb 1 (length d.hosts) then again else some none)
      else some (some h)
]

get_elem?-Memᴰ : (hs : List Host) (i : ℕ) (h : Host) → get_elem? hs i ≡ some h → Memᴰ h hs
get_elem?-Memᴰ [] i h e = absurd (ground (arith, e))
get_elem?-Memᴰ (x ∷ hs) zero h e = Memᴰ.head (ground (arith, e))
get_elem?-Memᴰ (x ∷ hs) (suc i) h e = Memᴰ.tail (get_elem?-Memᴰ hs i h e)

-- A host that is drawn is one of those that a draw ranges over, and not the excepted one.
random_host-drawn :
    (except : Option Host) (ds : List Draw) (h : Host)
    → random_host except ds ≡ some (some h)
    → ((d : Draw) × Memᴰ d ds × Memᴰ h d.hosts) × (is_except except h ≡ false)
unfolding random_host
random_host-drawn except [] h e = absurd (ground (arith, e))
random_host-drawn except (d ∷ ds) h e = elim (Option-cases (get_elem? d.hosts d.number)) [
  | inl outside ↦ absurd (ground (arith, outside, e))
  | inr (x, found) ↦ elim (Bool-cases (is_except except x)) [
    | inr other ↦
        let same : x ≡ h = ground (arith, other, found, e) in
        (
          (d, Memᴰ.head refl, get_elem?-Memᴰ d.hosts d.number h (found ∙ ap some same)),
          ap (is_except except) (sym same) ∙ other,
        )
    | inl excepted ↦
        let later : random_host except ds ≡ some (some h) = ground (arith, excepted, found, e) in
        let ((d', i, j), k) = random_host-drawn except ds h later in ((d', Memᴰ.tail i, j), k)
  ]
]
