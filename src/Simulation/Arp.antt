-- ===== src/Simulation/Arp.antt =====
-- The ARP requests of pkg/simulator/host.go, and EmitARPs of pkg/simulator/core.go.
use fabric_sim.Prelude.{ℕ, nat_eq, bytes_eq, Bytes, List, [], ◌∷◌, Option, none, some}
use fabric_sim.GoMap.{lookup}
use fabric_sim.Outcome.{not_found, Outcome, done, failed, panic, ok, err}
use fabric_sim.Outcome.Each.{each}
use fabric_sim.Device.Pipeline.{PipelineConfig}
use fabric_sim.Device.Streams.{PacketMetadata}
use fabric_sim.Device.State.{port_by_id}
use fabric_sim.Device.Packets.{PacketInMetadata}
use fabric_sim.Simulation.Ports.{Nic, Simulation, get_device_for_port}
use fabric_sim.Simulation.Hosts.{nic_by_mac}
use fabric_sim.Simulation.Lldp.{receive}

-- layers.EthernetTypeARP
abbrev pub arp_type : ℕ
arp_type = 2054

module _ (encode : PipelineConfig → PacketInMetadata → List PacketMetadata)
    (arp_request : Bytes → Bytes → Bytes → Option Bytes) where
  -- One round of EmitARPRequests: `arp_request` stands for packet.ARPRequestPacket, of the wanted
  -- address, the MAC address and the address of the interface.
  unfoldable pub emit_arp_request : Nic → Bytes → Simulation → Outcome Simulation
  unfolding get_device_for_port port_by_id receive
  emit_arp_request nic ip s = elim (arp_request ip nic.mac nic.ip) [
    | none ↦ done s
    | some arp ↦ elim (get_device_for_port nic.id s) [
      | err e ↦ done s
      | ok d ↦ elim (port_by_id nic.id d) [
        | none ↦ panic
        | some p ↦ done (receive encode arp_type arp d.device.id p d s)
      ]
    ]
  ]

  -- EmitARPRequests
  unfoldable pub emit_arp_requests : Nic → List Bytes → Simulation → Outcome Simulation
  unfolding emit_arp_request each
  emit_arp_requests nic = each (emit_arp_request nic)

  -- SendARPRequest
  unfoldable pub send_arp_request : List Nic → Bytes → Simulation → Outcome Simulation
  unfolding emit_arp_requests each
  send_arp_request nics ip = each (λ nic. emit_arp_requests nic (ip ∷ [])) nics

  -- Simulation.EmitARPs
  unfoldable pub emit_arps : Bytes → Bytes → List Bytes → Simulation → Outcome Simulation
  unfolding nic_by_mac emit_arp_requests
  emit_arps id mac ips s = elim (lookup id s.hosts) [
    | none ↦ failed not_found s
    | some h ↦ elim (nic_by_mac mac h.interfaces) [
      | none ↦ failed not_found s
      | some nic ↦ emit_arp_requests nic ips s
    ]
  ]
