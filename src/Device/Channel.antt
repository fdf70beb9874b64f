-- ===== src/Device/Channel.antt =====
-- The stream channel of pkg/northbound/device/p4runtime/v1/p4runtime.go, as far as the device goes: a
-- stream that opens, asks for mastership and closes.
pub mod Lifecycle
pub mod Addresses
use fabric_sim.Prelude.{
  ℕ, nat_eq, ◌==◌, Bytes, List, [], ◌∷◌, Bool, Option, none, some, if◌then◌else◌,
}
use fabric_sim.Outcome.{Outcome, done, failed, panic, ◌>>=◌}
use fabric_sim.Device.Election.{ElectionId, Checked, checked, nil_pointer}
use fabric_sim.Device.Streams.{
  RoleAny, RoleConfig, Role, Stream, new_stream, latch, run_arbitration,
}
use fabric_sim.Device.State.{DeviceSim, add_stream_responder, remove_stream_responder}

-- RunMastershipArbitration of the device
unfoldable pub arbitrate : Option Role → Option ElectionId → DeviceSim → Outcome DeviceSim
unfolding run_arbitration
arbitrate role id d = elim (run_arbitration role id d.elections d.streams) [
  | nil_pointer ↦ panic
  | checked (elections, streams) ↦ done (record d { elections = elections; streams = streams })
]

-- The responder of a stream, by its address
unfoldable pub find_stream : ℕ → List Stream → Option Stream
find_stream address [] = none
find_stream address (st ∷ sts) =
    let rest = find_stream address sts in if st.address == address then some st else rest

-- A change of a responder
unfoldable pub update_stream : (Stream → Stream) → ℕ → List Stream → List Stream
update_stream f address [] = []
update_stream f address (st ∷ sts) =
    let rest = update_stream f address sts in
    if st.address == address then f st ∷ sts else st ∷ rest

-- The start of StreamChannel
unfoldable pub open_stream : ℕ → Option Bytes → DeviceSim → DeviceSim
unfolding add_stream_responder
open_stream address connection d = add_stream_responder (new_stream address connection) d

-- The deferred function of StreamChannel, which reads the role and the election id that the
-- responder has at the end
unfoldable pub close_stream : ℕ → DeviceSim → Outcome DeviceSim
unfolding find_stream remove_stream_responder arbitrate
close_stream address d = elim (find_stream address d.streams) [
  | none ↦ done d
  | some st ↦ remove_stream_responder st d >>= arbitrate st.role st.election_id
]

-- The arbitration branch of processRequest
unfoldable pub request_mastership :
    (RoleAny → RoleConfig) → ℕ → ℕ → Option Role → Option ElectionId → DeviceSim → Outcome DeviceSim
unfolding latch update_stream arbitrate
request_mastership read_any address device_id role id d =
    arbitrate role id
      (record d { streams = update_stream (latch read_any device_id role id) address d.streams })
