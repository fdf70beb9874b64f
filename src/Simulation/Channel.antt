-- ===== src/Simulation/Channel.antt =====
-- StreamChannel and processRequest of pkg/northbound/device/p4runtime/v1/p4runtime.go, for a device of
-- the inventory and the messages that a stream receives, with no other call in between.
pub mod Streams
use fabric_sim.Prelude.{
  ℕ, bytes_eq, ◌==◌, Bytes, List, [], ◌∷◌, Bool, Option, none, some, ◌≡◌, refl, arith, Option-cases,
  inl, inr,
}
use fabric_sim.GoMap.{lookup, insert}
use fabric_sim.Outcome.{Error, not_found, Outcome, done, failed, panic, lift, ◌>>=◌}
use fabric_sim.Outcome.Each.{each}
use fabric_sim.Device.Election.{ElectionId}
use fabric_sim.Device.Streams.{RoleAny, RoleConfig, Role, PacketMetadata}
use fabric_sim.Device.State.{DeviceSim}
use fabric_sim.Device.Channel.{open_stream, close_stream, request_mastership}
use fabric_sim.Simulation.Ports.{Simulation}
use fabric_sim.Simulation.Lldp.{process_packet_out}
use fabric_sim.Simulation.Attached.Events.{Libraries}

-- p4api.StreamMessageRequest
pub data Request : Type 0 where
  packet : Bytes → List PacketMetadata → Request
  mastership : ℕ → Option Role → Option ElectionId → Request
  digest_ack other_request : Request

-- A call of the device of a server. The source holds a pointer to the device; a server whose device was
-- removed from the inventory is not modelled, and the error has no meaning then.
unfoldable pub on_device : (DeviceSim → Outcome DeviceSim) → Bytes → Simulation → Outcome Simulation
on_device op id s = elim (lookup id s.devices) [
  | none ↦ failed not_found s
  | some d ↦ lift (λ d'. record s { devices = insert id d' s.devices }) (op d)
]

module _ (lib : Libraries) (read_any : RoleAny → RoleConfig) (id : Bytes) (address : ℕ) where
  -- processRequest; ProcessDigestAck does nothing but log.
  unfoldable pub process_request : Request → Simulation → Outcome Simulation
  unfolding process_packet_out on_device request_mastership
  process_request (packet payload mds) s = elim (lookup id s.devices) [
    | none ↦ failed not_found s
    | some d ↦ process_packet_out lib.encode lib.dials lib.egress_of lib.is_lldp payload mds d s
  ]
  process_request (mastership device_id role election_id) s =
      on_device (request_mastership read_any address device_id role election_id) id s
  process_request digest_ack s = done s
  process_request other_request s = done s

  -- The loop of StreamChannel and the deferred function after it, which runs beside an error too.
  unfoldable pub close_channel : Outcome Simulation → Outcome Simulation
  unfolding on_device close_stream
  close_channel (done s) = on_device (close_stream address) id s
  close_channel (failed e s) = elim (on_device (close_stream address) id s) [
    | done s' ↦ failed e s'
    | failed e' s' ↦ failed e s'
    | panic ↦ panic
  ]
  close_channel panic = panic

  -- StreamChannel
  unfoldable pub stream_channel : Option Bytes → List Request → Simulation → Outcome Simulation
  unfolding on_device open_stream each process_request close_channel
  stream_channel connection requests s = close_channel (
      on_device (λ d. done (open_stream address connection d)) id s
      >>= each process_request requests)
