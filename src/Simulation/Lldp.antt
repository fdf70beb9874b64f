-- ===== src/Simulation/Lldp.antt =====
-- ProcessPacketOut, processLLDPPacket and EmitLLDPPacket of pkg/simulator/device.go: a packet-out
-- becomes a packet-in of the device at the other end of a link.
pub mod Delivery
use fabric_sim.Prelude.{
  ℕ, nat_eq, bytes_eq, ◌==◌, Bytes, List, [], ◌∷◌, Bool, true, false, Option, none, some,
  if◌then◌else◌, ◌≡◌, refl, arith,
}
use fabric_sim.GoMap.{GoMap, lookup, insert}
use fabric_sim.Outcome.{Error, invalid, Outcome, done, failed, panic, Result, ok, err}
use fabric_sim.Device.Pipeline.{PipelineConfig}
use fabric_sim.Device.Punt.{has_punt_rule}
use fabric_sim.Device.Streams.{PacketMetadata}
use fabric_sim.Device.State.{Port, DeviceSim, port_by_id, port_by_number}
use fabric_sim.Device.Packets.{PacketInMetadata, send_packet_in}
use fabric_sim.Simulation.Ports.{
  Link, Simulation, extract_device_id, is_external_link, get_device_for_port,
}
use fabric_sim.Simulation.Links.{get_link_from_port}
use fabric_sim.Simulation.Peers.{emit_via_peer}

-- layers.EthernetTypeLinkLayerDiscovery
abbrev pub lldp_type : ℕ
lldp_type = 35020

module _ (encode : PipelineConfig → PacketInMetadata → List PacketMetadata) where
  -- The end of EmitLLDPPacket, for the device and the port found.
  unfoldable pub receive : ℕ → Bytes → Bytes → Port → DeviceSim → Simulation → Simulation
  unfolding send_packet_in has_punt_rule
  receive eth_type payload id p d s =
      if p.enabled
      then elim (has_punt_rule eth_type d.pipeline) [
        | none ↦ s
        | some role_agent ↦
            let md : PacketInMetadata = record {
              ingress_port = p.internal_number;
              role_agent_id = role_agent;
            } in
            record s { devices = insert id (send_packet_in encode payload md d) s.devices }
      ]
      else s

  -- EmitLLDPPacket, whose warnings for a missing device or port are followed by a read through the
  -- nil pointer
  unfoldable pub emit_lldp : Bytes → Bytes → Simulation → Outcome Simulation
  unfolding extract_device_id port_by_id receive
  emit_lldp payload port s = elim (extract_device_id port) [
    | none ↦ done s
    | some id ↦ elim (lookup id s.devices) [
      | none ↦ panic
      | some d ↦ elim (port_by_id port d) [
        | none ↦ panic
        | some p ↦ done (receive lldp_type payload id p d s)
      ]
    ]
  ]

  -- Server.EmitLLDPPacket of pkg/northbound/fabricsim/devices.go
  unfoldable pub server_emit_lldp : Bytes → Bytes → Simulation → Outcome Simulation
  unfolding get_device_for_port emit_lldp
  server_emit_lldp payload port s = elim (get_device_for_port port s) [
    | err e ↦ failed e s
    | ok d ↦ emit_lldp payload port s
  ]

  module _ (dials : Bytes → Bool) where
    -- processLLDPPacket of the device `d`
    unfoldable pub process_lldp : Bytes → ℕ → DeviceSim → Simulation → Outcome Simulation
    unfolding port_by_number get_link_from_port emit_via_peer emit_lldp
    process_lldp payload egress_port d s = elim (port_by_number egress_port d) [
      | none ↦ done s
      | some p ↦
          if p.enabled
          then elim (get_link_from_port p.id s) [
            | none ↦ done s
            | some l ↦
                if is_external_link l
                then emit_via_peer dials payload l.tgt_id s
                else emit_lldp payload l.tgt_id s
          ]
          else done s
    ]

    -- ProcessPacketOut: `egress_of` stands for the codec that reads the egress port of the
    -- metadata, and `is_lldp` for gopacket. Packets of other kinds are logged.
    unfoldable pub process_packet_out :
        (PipelineConfig → List PacketMetadata → ℕ)
        → (Bytes → Bool)
        → Bytes
        → List PacketMetadata
        → DeviceSim
        → Simulation
        → Outcome Simulation
    unfolding process_lldp
    process_packet_out egress_of is_lldp payload mds d s =
        if d.pipeline.codec_set
        then (if is_lldp payload
            then process_lldp payload (egress_of d.pipeline.config mds) d s
            else done s)
        else failed invalid s
