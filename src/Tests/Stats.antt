-- ===== src/Tests/Stats.antt =====
-- The collector of statistics at small numbers.
use fabric_sim.Prelude.{ℕ, suc, ◌*◌, List, [], ◌∷◌, ◌++◌, length, ◌≡◌, refl, arith}
use fabric_sim.Device.IoStats.{IoStats}
use fabric_sim.Simulation.Stats.{StatsCollector, new_stats_collector, new_sample, collect}
use fabric_sim.Simulation.Stats.Series.{Abut, collect-Abut, collect-exceeds}

abbrev device_counters : IoStats
device_counters = record (new_sample 3 9) { in_bytes = 64; in_messages = 1 }

abbrev rounds : List (ℕ × List IoStats)
rounds = (10, device_counters ∷ device_counters ∷ []) ∷ (15, []) ∷ []

abbrev double : ℕ → ℕ
double n = n * 2

collect-Abut_example :
    Abut
      (collect double rounds (new_stats_collector 5)).stats
      (collect double rounds (new_stats_collector 5)).last_time
collect-Abut_example = collect-Abut double 5 rounds

-- A collector with room for two samples.
abbrev of_two : StatsCollector
of_two = record { stats = []; capacity = 2; last_time = 5 }

collect-exceeds_example :
    length (collect double (rounds ++ (20, []) ∷ (25, []) ∷ []) of_two).stats ≡ suc 2
collect-exceeds_example =
    collect-exceeds double rounds (20, []) (25, []) of_two refl (omega arith) (omega arith)

two_devices :
    (collect double rounds (new_stats_collector 5)).stats
    ≡ record (new_sample 5 10) { in_bytes = 128; in_messages = 2 } ∷ new_sample 10 15 ∷ []
unfolding collect
two_devices = refl
