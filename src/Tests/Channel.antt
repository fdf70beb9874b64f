-- ===== src/Tests/Channel.antt =====
-- The theorems on the stream channel, at a device with two streams.
use fabric_sim.Prelude.{suc, nat_eq, bytes_eq, codes, [], ◌∷◌, ◌++◌, none, some, ◌≡◌, refl}
use fabric_sim.GoMap.{lookup}
use fabric_sim.Outcome.{done, panic}
use fabric_sim.Device.Election.{ElectionId, checked, record_role_election}
use fabric_sim.Device.Streams.{Stream, new_stream}
use fabric_sim.Device.State.{DeviceSim, new_device_simulator, remove_stream_responder}
use fabric_sim.Device.Channel.{arbitrate, open_stream}
use fabric_sim.Device.Channel.Lifecycle.{
  remove_stream_responder-open_stream, arbitrate_panics, HasNoStream, HasNoConnection,
}
use fabric_sim.Prelude.{List, true, false, All, ◌==◌}
use fabric_sim.Outcome.{Leaves, state_or}
use fabric_sim.Simulation.Ports.{Simulation}
use fabric_sim.Device.Streams.{Role, RoleAny, RoleConfig}
use fabric_sim.Device.Channel.Addresses.{addresses}
use fabric_sim.Simulation.Channel.{Request, packet, mastership, digest_ack, stream_channel}
use fabric_sim.Simulation.Channel.Streams.{Serves, stream_channel-Serves}
use fabric_sim.Tests.Traffic.{libraries, out_of_first, receiver, linked, held}
use fabric_sim.Tests.Inventory.{device}

unfoldable idle : DeviceSim
unfolding new_device_simulator open_stream
idle = open_stream 1 (some (codes "10.0.0.1")) (new_device_simulator (device (codes "a")))

no_stream : HasNoStream 2 idle.streams
unfolding idle
no_stream = (refl, tt)

no_connection : HasNoConnection (codes "10.0.0.2") idle.device.connections
unfolding idle
no_connection = ((codes "10.0.0.1", refl, refl), tt)

remove_stream_responder-open_stream_example :
    remove_stream_responder
      (new_stream 2 (some (codes "10.0.0.2")))
      (open_stream 2 (some (codes "10.0.0.2")) idle)
    ≡ done (record idle {
      device = record idle.device { total_connections = suc idle.device.total_connections };
    })
remove_stream_responder-open_stream_example =
    remove_stream_responder-open_stream 2 (codes "10.0.0.2") idle no_stream no_connection

abbrev elected : ElectionId
elected = record { address = 100; high = 0; low = 1 }

-- The first stream has sent nothing; the second one is asking for mastership.
abbrev asking : Stream
asking = record (new_stream 2 none) { election_id = some elected }

unfoldable with_asking : DeviceSim
unfolding idle
with_asking = record idle { streams = idle.streams ++ asking ∷ [] }

silent : with_asking.streams ≡ new_stream 1 (some (codes "10.0.0.1")) ∷ asking ∷ []
unfolding with_asking
silent = refl

recorded :
    record_role_election [] (some elected) with_asking.elections
    ≡ checked (([], some elected) ∷ [], some elected)
unfolding record_role_election with_asking lookup fabric_sim.GoMap.insert
recorded = refl

arbitrate_panics_example : arbitrate none (some elected) with_asking ≡ panic
arbitrate_panics_example =
    arbitrate_panics elected elected (([], some elected) ∷ []) [] (asking ∷ [])
      (new_stream 1 (some (codes "10.0.0.1"))) with_asking silent recorded tt refl refl

abbrev named_role : Role
named_role = record { address = 5; name = codes "r"; config = none }

abbrev requests : List Request
requests =
    mastership 1 (some named_role) (some elected)
    ∷ packet (codes "lldp") out_of_first
    ∷ digest_ack
    ∷ []

abbrev no_filter : RoleAny → RoleConfig
no_filter any = record { receives_packet_ins = true; packet_in_filter = none }

other_stream : All (λ b. (b == 2) ≡ false) (addresses receiver.streams)
unfolding receiver
other_stream = (refl, tt)

-- A second stream of device "b", which has one already.
stream_channel-Serves_example :
    Leaves
      (Serves (codes "b") (addresses receiver.streams))
      (stream_channel libraries no_filter (codes "b") 2 (some (codes "10.0.0.1")) requests linked)
stream_channel-Serves_example =
    stream_channel-Serves libraries no_filter (codes "b") 2 (some (codes "10.0.0.1")) requests
      linked receiver held other_stream

-- It ends without an error.
unfoldable closed : Simulation
unfolding stream_channel
closed =
    state_or linked
      (stream_channel libraries no_filter (codes "b") 2 (some (codes "10.0.0.1")) requests linked)

ends :
    stream_channel libraries no_filter (codes "b") 2 (some (codes "10.0.0.1")) requests linked
    ≡ done closed
unfolding closed lookup linked fabric_sim.GoMap.insert
ends = refl
