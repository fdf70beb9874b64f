-- ===== src/Simulation/Lldp/Delivery.antt =====
-- Where an LLDP packet that a controller sends out of a port arrives.
use mathlib.Core.Path.{subst, sym}
use fabric_sim.Prelude.{
  ℕ, nat_eq, bytes_eq, ◌==◌, Bytes, List, [], ◌∷◌, map, Bool, true, false, some, if◌then◌else◌, ◌≡◌,
  refl, arith,
}
use fabric_sim.GoMap.{lookup, lookup-insert}
use fabric_sim.Outcome.{Outcome, done}
use fabric_sim.Device.Pipeline.{PipelineConfig}
use fabric_sim.Device.Punt.{has_punt_rule}
use fabric_sim.Device.Streams.{PacketMetadata, PacketIn, packet_in, Stream, send}
use fabric_sim.Device.State.{Port, DeviceSim, port_by_id, port_by_number}
use fabric_sim.Device.Packets.{PacketInMetadata, matches_metadata, deliver, send_packet_in}
use fabric_sim.Simulation.Ports.{Link, Simulation, extract_device_id, is_external_link}
use fabric_sim.Simulation.Links.{get_link_from_port}
use fabric_sim.Simulation.Lldp.{lldp_type, receive, emit_lldp, process_lldp, process_packet_out}

-- A stream after a packet-in: it is sent the packet if its role wants it.
abbrev pub after_packet : PacketIn → Stream → Stream
after_packet p st = if matches_metadata st.role_config p.metadata then send (packet_in p) st else st

deliver-map : (p : PacketIn) (sts : List Stream) → deliver p sts ≡ map (after_packet p) sts
unfolding deliver
deliver-map p [] = refl
deliver-map p (st ∷ sts) = ground (arith, deliver-map p sts)

module _ (encode : PipelineConfig → PacketInMetadata → List PacketMetadata) (payload : Bytes)
    (id : Bytes) (d : DeviceSim) (p : Port) (role : ℕ) (s : Simulation) where
  -- The packet-in that arrives with the port's SDN number and the role agent id of the punt rule.
  abbrev pub arriving : PacketIn
  arriving = record {
    payload = payload;
    metadata =
        encode d.pipeline.config
          (record { ingress_port = p.internal_number; role_agent_id = role });
  }

  -- The simulation has sent the arriving packet to the streams of the one device whose role wants it.
  pub record Arrives (o : Outcome Simulation) : Type 0 where
    pub after : Simulation
    pub ends : o ≡ done after
    pub device : DeviceSim
    pub received : lookup id after.devices ≡ some device
    pub sent : device.streams ≡ map (after_packet arriving) d.streams
    pub others :
        (id' : Bytes) → (id == id') ≡ false → lookup id' after.devices ≡ lookup id' s.devices

  receive-Arrives :
      lookup id s.devices ≡ some d
      → p.enabled ≡ true
      → has_punt_rule lldp_type d.pipeline ≡ some role
      → d.pipeline.codec_set ≡ true
      → Arrives (done (receive encode lldp_type payload id p d s))
  unfolding receive send_packet_in
  receive-Arrives held enabled punted codec = record {
    after = receive encode lldp_type payload id p d s;
    ends = refl;
    device = record d { streams = deliver arriving d.streams };
    received = ground (
      arith,
      lookup-insert id id (record d { streams = deliver arriving d.streams }) s.devices,
      bytes_eq.beq_iff id id,
    );
    sent = deliver-map arriving d.streams;
    others = λ id' apart.
        ground (
          arith,
          lookup-insert id id' (record d { streams = deliver arriving d.streams }) s.devices,
        );
  }

-- An LLDP packet that a device is told to send out of an enabled port with an internal link
-- arrives, if the device at the other end exists and has the target port, enabled, a punt rule for
-- LLDP and a packet codec: that device's streams whose role wants the packet are each sent it
-- once, with the metadata of the target port, no other stream is sent anything, and no other device
-- changes.
pub process_packet_out-Arrives :
    (encode : PipelineConfig → PacketInMetadata → List PacketMetadata) (dials : Bytes → Bool)
    (egress_of : PipelineConfig → List PacketMetadata → ℕ) (is_lldp : Bytes → Bool)
    (payload : Bytes) (mds : List PacketMetadata) (from : DeviceSim) (out : Port) (l : Link)
    (id : Bytes) (d : DeviceSim) (p : Port) (role : ℕ) (s : Simulation)
    → from.pipeline.codec_set ≡ true
    → is_lldp payload ≡ true
    → port_by_number (egress_of from.pipeline.config mds) from ≡ some out
    → out.enabled ≡ true
    → get_link_from_port out.id s ≡ some l
    → is_external_link l ≡ false
    → extract_device_id l.tgt_id ≡ some id
    → lookup id s.devices ≡ some d
    → port_by_id l.tgt_id d ≡ some p
    → p.enabled ≡ true
    → has_punt_rule lldp_type d.pipeline ≡ some role
    → d.pipeline.codec_set ≡ true
    → Arrives encode payload id d p role s
        (process_packet_out encode dials egress_of is_lldp payload mds from s)
unfolding process_packet_out process_lldp emit_lldp
process_packet_out-Arrives encode dials egress_of is_lldp payload mds from out l id d p role s
      from_codec lldp port out_enabled leaves inner named held target enabled punted codec =
    subst (Arrives encode payload id d p role s) (sym sends)
      (receive-Arrives encode payload id d p role s held enabled punted codec)
  where
    sends :
        process_packet_out encode dials egress_of is_lldp payload mds from s
        ≡ done (receive encode lldp_type payload id p d s)
    sends = ground arith
