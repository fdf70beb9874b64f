-- ===== src/Simulation/Channel/Streams.antt =====
-- The streams of a device before and after a stream channel.
use fabric_sim.Prelude.{
  ℕ, nat_eq, bytes_eq, ◌==◌, beq-eq, Bytes, List, [], ◌∷◌, ◌++◌, false, Option, none, some, All,
  ◌≡◌, refl, sym, ap, ◌∙◌, arith, Bool-cases, Option-cases, inl, inr,
}
use fabric_sim.GoMap.{lookup, insert, lookup-insert, lookup-insert_self}
use fabric_sim.Outcome.{Outcome, done, failed, panic, Leaves, returned, refused, crashed}
use fabric_sim.Outcome.Rules.{Leaves-option, Leaves-if, Leaves->>=, Leaves-map}
use fabric_sim.Outcome.Each.{each, Leaves-each}
use fabric_sim.Device.Punt.{has_punt_rule}
use fabric_sim.Device.Streams.{RoleAny, RoleConfig, PacketMetadata}
use fabric_sim.Device.State.{port_by_id, port_by_number, Port, DeviceSim}
use fabric_sim.Device.Channel.{open_stream, close_stream, request_mastership}
use fabric_sim.Simulation.Ports.{Simulation, extract_device_id, is_external_link}
use fabric_sim.Simulation.Links.{get_link_from_port}
use fabric_sim.Simulation.Peers.{first_field, after_delimiter, get_peer, emit_via_peer}
use fabric_sim.Simulation.Lldp.{lldp_type, receive, emit_lldp, process_lldp, process_packet_out}
use fabric_sim.Simulation.Attached.Events.{Libraries}
use fabric_sim.Simulation.Channel.{
  Request, packet, mastership, digest_ack, other_request, on_device, process_request, close_channel,
  stream_channel,
}
use fabric_sim.Device.Channel.Addresses.{
  addresses, HasStreams, request_mastership-HasStreams, close_stream-HasStreams,
  open_stream-HasStreams, send_packet_in-addresses,
}

-- A device of the inventory with streams at these addresses.
abbrev pub Serves : Bytes → List ℕ → Simulation → Type 0
Serves id as' s = (d : DeviceSim) × (lookup id s.devices ≡ some d) × (addresses d.streams ≡ as')

on_device-Serves :
    (op : DeviceSim → Outcome DeviceSim) (id : Bytes) (as' bs : List ℕ) (s : Simulation)
    → ((d : DeviceSim) → HasStreams as' d → Leaves (HasStreams bs) (op d))
    → Serves id as' s
    → Leaves (Serves id bs) (on_device op id s)
unfolding on_device
on_device-Serves op id as' bs s does (d, held, h) =
    rw (held, on_device)
      (Leaves-map (λ d'. record s { devices = insert id d' s.devices }) (op d) (does d h)
        (λ d' k. (d', lookup-insert_self id d' s.devices, k)))

-- Another device may change, and this one in what its streams have been sent.
put-Serves :
    (id id' : Bytes) (as' : List ℕ) (d d' : DeviceSim) (s : Simulation)
    → lookup id' s.devices ≡ some d
    → addresses d'.streams ≡ addresses d.streams
    → Serves id as' s
    → Serves id as' (record s { devices = insert id' d' s.devices })
put-Serves id id' as' d d' s held' same (e, held, h) = elim (Bool-cases (id' == id)) [
  | inl here ↦
      let one : some d ≡ some e =
        sym held' ∙ ap (λ x. lookup x s.devices) (beq-eq id' id here) ∙ held in
      (
        d',
        lookup-insert id' id d' s.devices ∙ rw here refl,
        same ∙ ap (λ m. addresses (device_or d m).streams) one ∙ h,
      )
  | inr there ↦ (e, lookup-insert id' id d' s.devices ∙ rw there held, h)
]
  where
    device_or : DeviceSim → Option DeviceSim → DeviceSim
    device_or x none = x
    device_or x (some y) = y

module _ (lib : Libraries) (id : Bytes) (as' : List ℕ) where
  receive-Serves :
      (eth_type : ℕ) (payload id' : Bytes) (p : Port) (d : DeviceSim) (s : Simulation)
      → lookup id' s.devices ≡ some d
      → Serves id as' s
      → Serves id as' (receive lib.encode eth_type payload id' p d s)
  unfolding receive
  receive-Serves eth_type payload id' p d s held v = elim (Bool-cases p.enabled) [
    | inr disabled ↦ rw (disabled, receive) v
    | inl enabled ↦ elim (Option-cases (has_punt_rule eth_type d.pipeline)) [
      | inl unset ↦ rw (enabled, receive) (rw (unset, receive) v)
      | inr (role, found) ↦
          rw (enabled, receive)
            (rw (found, receive)
              (put-Serves id id' as' d _ s held (send_packet_in-addresses lib.encode payload _ d)
                v))
    ]
  ]

  emit_lldp-Serves :
      (payload port : Bytes) (s : Simulation)
      → Serves id as' s
      → Leaves (Serves id as') (emit_lldp lib.encode payload port s)
  unfolding emit_lldp
  emit_lldp-Serves payload port s v = Leaves-option (extract_device_id port) (returned v) λ id' _.
      Leaves-option (lookup id' s.devices) crashed λ d held.
        Leaves-option (port_by_id port d) crashed
          λ p _. returned (receive-Serves lldp_type payload id' p d s held v)

  emit_via_peer-Serves :
      (payload remote : Bytes) (s : Simulation)
      → Serves id as' s
      → Leaves (Serves id as') (emit_via_peer lib.dials payload remote s)
  unfolding emit_via_peer get_peer
  emit_via_peer-Serves payload remote s v =
      let kept : (get_peer lib.dials (first_field remote) s).0.devices ≡ s.devices = ground arith in
      Leaves-option (after_delimiter remote) crashed λ rest _.
        Leaves-if (get_peer lib.dials (first_field remote) s).1 (λ _. returned (rw kept v))
          (λ _. returned (rw kept v))

  process_packet_out-Serves :
      (payload : Bytes) (mds : List PacketMetadata) (d : DeviceSim) (s : Simulation)
      → Serves id as' s
      → Leaves
          (Serves id as')
          (process_packet_out lib.encode lib.dials lib.egress_of lib.is_lldp payload mds d s)
  unfolding process_packet_out process_lldp
  process_packet_out-Serves payload mds d s v =
      Leaves-if d.pipeline.codec_set
        (λ _.
          Leaves-if (lib.is_lldp payload)
            (λ _.
              Leaves-option (port_by_number (lib.egress_of d.pipeline.config mds) d) (returned v)
                λ p _.
                  Leaves-if p.enabled
                    (λ _. Leaves-option (get_link_from_port p.id s) (returned v) λ l _.
                      Leaves-if (is_external_link l)
                        (λ _. emit_via_peer-Serves payload l.tgt_id s v)
                        (λ _. emit_lldp-Serves payload l.tgt_id s v))
                    (λ _. returned v))
            (λ _. returned v))
        (λ _. refused v)

  module _ (read_any : RoleAny → RoleConfig) (a : ℕ) where
    process_request-Serves :
        (r : Request) (s : Simulation)
        → Serves id as' s
        → Leaves (Serves id as') (process_request lib read_any id a r s)
    unfolding process_request
    process_request-Serves (packet payload mds) s v =
        Leaves-option (lookup id s.devices) (refused v)
          λ d _. process_packet_out-Serves payload mds d s v
    process_request-Serves (mastership device_id role election_id) s v =
        on_device-Serves (request_mastership read_any a device_id role election_id) id as' as' s
          (request_mastership-HasStreams read_any a device_id role election_id as') v
    process_request-Serves digest_ack s v = returned v
    process_request-Serves other_request s v = returned v

close_channel-Serves :
    (lib : Libraries) (read_any : RoleAny → RoleConfig) (id : Bytes) (a : ℕ) (as' : List ℕ)
    (m : Outcome Simulation)
    → All (λ b. (b == a) ≡ false) as'
    → Leaves (Serves id (as' ++ a ∷ [])) m
    → Leaves (Serves id as') (close_channel lib read_any id a m)
unfolding close_channel
close_channel-Serves lib read_any id a as' (done s) new (returned v) =
    on_device-Serves (close_stream a) id (as' ++ a ∷ []) as' s
      (λ d. close_stream-HasStreams a as' d new) v
close_channel-Serves lib read_any id a as' (failed e s) new (refused v) =
    go (on_device (close_stream a) id s) (
      on_device-Serves (close_stream a) id (as' ++ a ∷ []) as' s
        (λ d. close_stream-HasStreams a as' d new) v)
  where
    go :
        (m : Outcome Simulation)
        → Leaves (Serves id as') m
        → Leaves
            (Serves id as')
            (elim m [ done s' ↦ failed e s' | failed e' s' ↦ failed e s' | panic ↦ panic ])
    go (done s') (returned w) = refused w
    go (failed e' s') (refused w) = refused w
    go panic x = crashed
close_channel-Serves lib read_any id a as' panic new x = crashed

-- Whatever messages the stream of a device of the inventory receives, a stream channel that ends, with
-- or without an error and with no panic, leaves the device in the inventory with the streams that
-- it had before, in order. No stream of the device may be at the address of the new one.
pub stream_channel-Serves :
    (lib : Libraries) (read_any : RoleAny → RoleConfig) (id : Bytes) (a : ℕ)
    (connection : Option Bytes) (requests : List Request) (s : Simulation) (d : DeviceSim)
    → lookup id s.devices ≡ some d
    → All (λ b. (b == a) ≡ false) (addresses d.streams)
    → Leaves
        (Serves id (addresses d.streams))
        (stream_channel lib read_any id a connection requests s)
unfolding stream_channel
stream_channel-Serves lib read_any id a connection requests s d held new =
    let before = addresses d.streams in
    close_channel-Serves lib read_any id a before _ new (
      Leaves->>= (on_device (λ d. done (open_stream a connection d)) id s)
        (each (process_request lib read_any id a) requests)
        (on_device-Serves (λ d. done (open_stream a connection d)) id before (before ++ a ∷ []) s
          (λ d' h. returned (open_stream-HasStreams a connection before d' h)) (d, held, refl))
        (λ t v.
          Leaves-each (process_request lib read_any id a) (Serves id (before ++ a ∷ []))
            (process_request-Serves lib id (before ++ a ∷ []) read_any a) requests t v))
