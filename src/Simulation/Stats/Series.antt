-- ===== src/Simulation/Stats/Series.antt =====
-- What the collector of I/O statistics holds after any rounds.
use fabric_sim.Prelude.{
  ℕ, suc, ◌+◌, ◌≤◌, ◌<◌, ltb, List, [], ◌∷◌, ◌++◌, length, length-append, true, false, ◌≡◌, refl,
  sym, ap, ◌∙◌, arith, Bool-cases, inl, inr,
}
use fabric_sim.Device.IoStats.{IoStats, add_and_reset_stats}
use fabric_sim.Simulation.Stats.{
  StatsCollector, new_stats_collector, new_sample, add_all, rest_of, create_sample, collect,
}

-- Each sample starts when the one before it ends, and the last one ends at a time.
abbrev pub Abut : List IoStats → ℕ → Type 0
Abut [] t = Unit
Abut (s ∷ []) t = s.last_update_time ≡ t
Abut (s ∷ r ∷ ss) t = (s.last_update_time ≡ r.first_update_time) × Abut (r ∷ ss) t

Abut-append :
    (ss : List IoStats) (s : IoStats) (t u : ℕ)
    → Abut ss t
    → s.first_update_time ≡ t
    → s.last_update_time ≡ u
    → Abut (ss ++ s ∷ []) u
Abut-append [] s t u a f l = l
Abut-append (x ∷ []) s t u a f l = (a ∙ sym f, l)
Abut-append (x ∷ y ∷ ss) s t u a f l = (a.0, Abut-append (y ∷ ss) s t u a.1 f l)

Abut-rest_of : (ss : List IoStats) (t : ℕ) → Abut ss t → Abut (rest_of ss) t
Abut-rest_of [] t a = a
Abut-rest_of (x ∷ []) t a = tt
Abut-rest_of (x ∷ y ∷ ss) t a = a.1

-- The devices add to the counters of a sample and not to its times.
add_all-times :
    (now : ℕ) (ss : List IoStats) (total : IoStats)
    → ((add_all now ss total).1.first_update_time ≡ total.first_update_time)
      × ((add_all now ss total).1.last_update_time ≡ total.last_update_time)
unfolding add_all
add_all-times now [] total = (refl, refl)
add_all-times now (s ∷ ss) total = add_all-times now ss (add_and_reset_stats now s total).1

create_sample-Abut :
    (grow : ℕ → ℕ) (now : ℕ) (counters : List IoStats) (c : StatsCollector)
    → Abut c.stats c.last_time
    → Abut
        (create_sample grow now counters c).1.stats
        (create_sample grow now counters c).1.last_time
unfolding create_sample
create_sample-Abut grow now counters c a =
    let sample = (add_all now counters (new_sample c.last_time now)).1 in
    let times = add_all-times now counters (new_sample c.last_time now) in
    elim (Bool-cases (ltb (length c.stats) c.capacity)) [
      | inl room ↦ rw room (Abut-append c.stats sample c.last_time now a times.0 times.1)
      | inr full ↦ rw full (
          Abut-append (rest_of c.stats) sample c.last_time now (Abut-rest_of c.stats c.last_time a)
            times.0 times.1)
    ]

run-Abut :
    (grow : ℕ → ℕ) (rounds : List (ℕ × List IoStats)) (c : StatsCollector)
    → Abut c.stats c.last_time
    → Abut (collect grow rounds c).stats (collect grow rounds c).last_time
unfolding collect
run-Abut grow [] c a = a
run-Abut grow ((now, counters) ∷ rounds) c a =
    run-Abut grow rounds (create_sample grow now counters c).1
      (create_sample-Abut grow now counters c a)

-- After any rounds of a new collector, however append grows its array, each sample that it holds
-- starts when the one before it ends, and the last one ends at the time of the last round.
pub collect-Abut :
    (grow : ℕ → ℕ) (start : ℕ) (rounds : List (ℕ × List IoStats))
    → Abut
        (collect grow rounds (new_stats_collector start)).stats
        (collect grow rounds (new_stats_collector start)).last_time
collect-Abut grow start rounds = run-Abut grow rounds (new_stats_collector start) tt

-- What a sample makes of the number of samples and of the capacity.
create_sample-room :
    (grow : ℕ → ℕ) (now : ℕ) (counters : List IoStats) (c : StatsCollector)
    → length c.stats < c.capacity
    → (length (create_sample grow now counters c).1.stats ≡ suc (length c.stats))
      × ((create_sample grow now counters c).1.capacity ≡ c.capacity)
unfolding create_sample
create_sample-room grow now counters c h =
    let sample = (add_all now counters (new_sample c.last_time now)).1 in
    let room : ltb (length c.stats) c.capacity ≡ true = ground arith in
    rw room (omega (arith, length-append c.stats (sample ∷ [])), refl)

length-rest_of : (ss : List IoStats) → 1 ≤ length ss → suc (length (rest_of ss)) ≡ length ss
length-rest_of [] h = absurd (omega (arith, h))
length-rest_of (s ∷ ss) h = refl

create_sample-full :
    (grow : ℕ → ℕ) (now : ℕ) (counters : List IoStats) (c : StatsCollector)
    → length c.stats ≡ c.capacity
    → 1 ≤ c.capacity
    → (length (create_sample grow now counters c).1.stats ≡ c.capacity)
      × ((create_sample grow now counters c).1.capacity ≡ grow c.capacity)
unfolding create_sample
create_sample-full grow now counters c h some_room =
    let sample = (add_all now counters (new_sample c.last_time now)).1 in
    let full : ltb (length c.stats) c.capacity ≡ false = ground arith in
    rw full (
      omega (
        arith,
        length-append (rest_of c.stats) (sample ∷ []),
        length-rest_of c.stats (omega arith),
      ),
      refl,
    )

-- A full collector holds one more sample than its capacity after two more rounds, if the array that
-- append makes for that many samples has room for more.
pub collect-exceeds :
    (grow : ℕ → ℕ) (rounds : List (ℕ × List IoStats)) (a b : ℕ × List IoStats) (c : StatsCollector)
    → length c.stats + length rounds ≡ c.capacity
    → 1 ≤ c.capacity
    → c.capacity < grow c.capacity
    → length (collect grow (rounds ++ a ∷ b ∷ []) c).stats ≡ suc c.capacity
unfolding collect
collect-exceeds grow [] (t, x) (u, y) c full some_room grows =
    let s = create_sample-full grow t x c (omega arith) some_room in
    let r = create_sample-room grow u y (create_sample grow t x c).1 (omega (arith, s.0, s.1)) in
    omega (arith, r.0, s.0)
collect-exceeds grow ((now, counters) ∷ rounds) a b c full some_room grows =
    let s = create_sample-room grow now counters c (omega arith) in
    let c' = (create_sample grow now counters c).1 in
    collect-exceeds grow rounds a b c' (omega (arith, s.0, s.1)) (omega (arith, s.1)) (rw s.1 grows)
    ∙ ap suc s.1
