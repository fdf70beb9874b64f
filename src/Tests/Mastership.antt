-- ===== src/Tests/Mastership.antt =====
-- The theorems on elections and streams, at two controllers of one role.
use fabric_sim.Prelude.{
  List, arith, ℕ, nat_eq, bytes_eq, Bytes, codes, [], ◌∷◌, none, some, ◌≡◌, refl, All,
}
use fabric_sim.GoMap.{lookup}
use fabric_sim.Device.Election.{ElectionId, Elections, checked, is_master}
use fabric_sim.Device.Pipeline.{new_pipeline}
use fabric_sim.Device.Write.{process_write}
use fabric_sim.Device.Election.Highest.{AreUint64, Records, highest, record_all, record_all-highest}
use fabric_sim.Device.Service.{server_write}
use fabric_sim.Device.Service.Master.{server_write-highest}
use fabric_sim.Tests.Data.{plain_hash, one_byte}
use fabric_sim.Device.Streams.{Stream, new_stream, arbitration, run_arbitration}
use fabric_sim.Device.Streams.Orderly.{IsOrderly, run_arbitration-IsOrderly}

abbrev id : ℕ → ℕ → ElectionId
id at low = record { address = at; high = 0; low = low }

abbrev role : Bytes
role = codes "r"

-- The larger id comes first, and a smaller one of another role between.
abbrev given : List (Bytes × ElectionId)
given = (role, id 200 2) ∷ (codes "other", id 50 9) ∷ (role, id 100 1) ∷ []

unfoldable after : Elections
after = (role, some (id 200 2)) ∷ (codes "other", some (id 50 9)) ∷ []

given-AreUint64 : AreUint64 given
given-AreUint64 = (omega arith, (omega arith, (omega arith, tt)))

record_all-highest_example :
    (s : Elections) × (record_all given [] ≡ checked s)
    × ((r : Bytes) → Records (lookup r s) (highest r none given))
record_all-highest_example = record_all-highest given given-AreUint64

all_recorded : record_all given [] ≡ checked after
unfolding record_all after lookup fabric_sim.GoMap.insert
all_recorded = refl

accepted : (at : ℕ) → is_master 1 1 role (some (id at 2)) after ≡ checked none
unfolding is_master lookup after
accepted at = refl

-- A stream of the nil role whose id is that of the election.
abbrev candidate : Stream
candidate = record (new_stream 1 none) { election_id = some (id 200 2) }

abbrev winner : Stream
winner = record candidate {
  sent_code = some 0;
  sent =
      arbitration (record { device_id = 0; role = none; election_id = some (id 200 2); status = 0 })
      ∷ [];
}

notified :
    run_arbitration none (some (id 200 2)) [] (candidate ∷ [])
    ≡ checked (([], some (id 200 2)) ∷ [], winner ∷ [])
unfolding run_arbitration lookup fabric_sim.GoMap.insert
notified = refl

candidate-IsOrderly : IsOrderly candidate
unfolding IsOrderly
candidate-IsOrderly = refl

run_arbitration-IsOrderly_example : All IsOrderly (winner ∷ [])
run_arbitration-IsOrderly_example =
    run_arbitration-IsOrderly none (some (id 200 2)) [] (([], some (id 200 2)) ∷ [])
      (candidate ∷ []) (winner ∷ []) notified (candidate-IsOrderly, tt)

-- The number of the claim counts, and not its address.
server_write-highest_example :
    server_write plain_hash one_byte 1
      (record { device_id = 1; role = role; election_id = some (id 300 2) })
      []
      after
      new_pipeline
    ≡ process_write plain_hash one_byte [] new_pipeline
server_write-highest_example =
    server_write-highest plain_hash one_byte 1 1 role (id 300 2) [] new_pipeline given after
      given-AreUint64 (omega arith) all_recorded
