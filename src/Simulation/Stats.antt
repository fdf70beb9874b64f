-- ===== src/Simulation/Stats.antt =====
-- The collector of I/O statistics of pkg/simulator/stats.go. The counters of the devices are a list
-- in the order in which they are ranged over, and `now` is the time that the clock gives. `grow` is
-- the capacity of the array that append makes for a number of elements that do not fit.
pub mod Series
use fabric_sim.Prelude.{ℕ, zero, suc, ◌+◌, ltb, List, [], ◌∷◌, ◌++◌, if◌then◌else◌, length}
use fabric_sim.Device.IoStats.{IoStats, add_and_reset_stats}

-- StatsCollector; `capacity` is that of the slice.
pub record StatsCollector : Type 0 where
  pub stats : List IoStats
  pub capacity : ℕ
  pub last_time : ℕ

-- newStatsCollector
abbrev pub new_stats_collector : ℕ → StatsCollector
new_stats_collector now = record { stats = []; capacity = 1000; last_time = now }

-- The loop over the devices: their counters and the total after it
unfoldable pub add_all : ℕ → List IoStats → IoStats → List IoStats × IoStats
unfolding add_and_reset_stats
add_all now [] total = ([], total)
add_all now (s ∷ ss) total =
    let (s', total') = add_and_reset_stats now s total in
    let (ss', after) = add_all now ss total' in (s' ∷ ss', after)

-- c.stats[1:] of a full slice; its capacity is at least 1, so that it is not empty
abbrev pub rest_of : List IoStats → List IoStats
rest_of [] = []
rest_of (s ∷ ss) = ss

-- The sample that createSample starts with
abbrev pub new_sample : ℕ → ℕ → IoStats
new_sample last now = record {
  in_bytes = 0;
  in_messages = 0;
  out_bytes = 0;
  out_messages = 0;
  first_update_time = last;
  last_update_time = now;
}

-- createSample: the counters of the devices and the collector after it
unfoldable pub create_sample :
    (ℕ → ℕ) → ℕ → List IoStats → StatsCollector → List IoStats × StatsCollector
unfolding add_all
create_sample grow now counters c =
    let (counters', sample) = add_all now counters (new_sample c.last_time now) in
    (
      counters',
      if ltb (length c.stats) c.capacity
          then record { stats = c.stats ++ sample ∷ []; capacity = c.capacity; last_time = now }
          else record {
            stats = rest_of c.stats ++ sample ∷ [];
            capacity = grow c.capacity;
            last_time = now;
          },
    )

-- The rounds of the loop of collect, each with the time of its sample and the counters that the
-- devices have reached by then
unfoldable pub collect : (ℕ → ℕ) → List (ℕ × List IoStats) → StatsCollector → StatsCollector
unfolding create_sample
collect grow [] c = c
collect grow ((now, counters) ∷ rounds) c =
    let (counters', c') = create_sample grow now counters c in collect grow rounds c'
