-- ===== src/Simulation/Attached/Traffic.antt =====
-- Packets keep what is attached attached, and never read through a nil pointer.
use mathlib.Core.List.{Memᴰ}
use fabric_sim.Prelude.{
  ℕ, nat_eq, bytes_eq, ◌==◌, Bytes, codes, contains, List, [], ◌∷◌, Bool, true, Option, some, ◌≡◌,
  refl, arith, Option-cases, Bool-cases, inl, inr,
}
use fabric_sim.GoMap.{lookup}
use fabric_sim.Outcome.Settles.{
  Settles, ended, stopped, Settles-option, Settles-if, Settles-each, Settles-map,
}
use fabric_sim.Device.Pipeline.{PipelineConfig}
use fabric_sim.Device.Punt.{has_punt_rule}
use fabric_sim.Device.Streams.{PacketMetadata}
use fabric_sim.Device.State.{Port, DeviceSim, port_by_number}
use fabric_sim.Device.Packets.{PacketInMetadata, send_packet_in}
use fabric_sim.Simulation.Ports.{Nic, Simulation, is_external_link}
use fabric_sim.Simulation.Links.{get_link_from_port}
use fabric_sim.Simulation.Hosts.{nic_by_mac}
use fabric_sim.Simulation.Peers.{
  get_peer, emit_via_peer, after_delimiter, first_field, after_delimiter_found,
}
use fabric_sim.Simulation.Lldp.{lldp_type, receive, emit_lldp, process_lldp, process_packet_out}
use fabric_sim.Simulation.Arp.{arp_type, emit_arp_request, emit_arp_requests, emit_arps}
use fabric_sim.Simulation.Attached.{Exists, IsAttached, Exists-IsPort, port_found}
use fabric_sim.Simulation.Attached.Kept.{SamePorts, Keeps, Keeps-refl, put-Keeps, device_found}

-- The peers and what they are sent are of no concern to what is attached.
same-Keeps :
    (s s' : Simulation)
    → (s'.devices ≡ s.devices) × (s'.used_egress ≡ s.used_egress) × (s'.hosts ≡ s.hosts)
    → IsAttached s
    → Keeps s s'
same-Keeps s s' (devices, egress, hosts) a = record {
  attached = record {
    good = λ id d held. a.good id d (rw (← devices) held);
    link_lands = λ port l used inner. rw devices (a.link_lands port l (rw (← egress) used) inner);
    nic_lands = λ id h n held m. rw devices (a.nic_lands id h n (rw (← hosts) held) m);
  };
  existing = λ port e. rw devices e;
}

get_peer-kept :
    (dials : Bytes → Bool) (domain : Bytes) (s : Simulation)
    → ((get_peer dials domain s).0.devices ≡ s.devices)
      × ((get_peer dials domain s).0.used_egress ≡ s.used_egress)
      × ((get_peer dials domain s).0.hosts ≡ s.hosts)
unfolding get_peer
get_peer-kept dials domain s = ground arith

emit_via_peer-Settles :
    (dials : Bytes → Bool) (payload remote : Bytes) (s : Simulation)
    → contains (codes "::") remote ≡ true
    → IsAttached s
    → Settles (Keeps s) (emit_via_peer dials payload remote s)
unfolding emit_via_peer
emit_via_peer-Settles dials payload remote s external a =
    elim (Option-cases (after_delimiter remote)) [
      | inl missing ↦ absurd (ground (arith, after_delimiter_found remote external))
      | inr (rest, found) ↦
          rw (found, emit_via_peer)
            (Settles-if (get_peer dials (first_field remote) s).1
              (λ _. ended (same-Keeps s _ (get_peer-kept dials (first_field remote) s) a))
              (λ _. ended (same-Keeps s _ (get_peer-kept dials (first_field remote) s) a)))
    ]

nic_by_mac-Memᴰ : (mac : Bytes) (ns : List Nic) (n : Nic) → nic_by_mac mac ns ≡ some n → Memᴰ n ns
unfolding nic_by_mac
nic_by_mac-Memᴰ mac [] n h = absurd (cc)
nic_by_mac-Memᴰ mac (m ∷ ns) n h = elim (Bool-cases (m.mac == mac)) [
  | inl here ↦ Memᴰ.head (ground arith)
  | inr there ↦ Memᴰ.tail (nic_by_mac-Memᴰ mac ns n (ground arith))
]

module _ (encode : PipelineConfig → PacketInMetadata → List PacketMetadata) where
  send_packet_in-SamePorts :
      (payload : Bytes) (md : PacketInMetadata) (d : DeviceSim)
      → SamePorts d (send_packet_in encode payload md d)
  unfolding send_packet_in
  send_packet_in-SamePorts payload md d = record {
    same_id = ground arith;
    same_map = ground arith;
    same_count = ground arith;
  }

  receive-Keeps :
      (eth_type : ℕ) (payload id : Bytes) (p : Port) (d : DeviceSim) (s : Simulation)
      → lookup id s.devices ≡ some d
      → IsAttached s
      → Keeps s (receive encode eth_type payload id p d s)
  unfolding receive
  receive-Keeps eth_type payload id p d s held a = elim (Bool-cases p.enabled) [
    | inr disabled ↦ rw (disabled, receive) (Keeps-refl s a)
    | inl enabled ↦ elim (Option-cases (has_punt_rule eth_type d.pipeline)) [
      | inl unset ↦ rw (enabled, receive) (rw (unset, receive) (Keeps-refl s a))
      | inr (role, found) ↦
          rw (enabled, receive)
            (rw (found, receive)
              (put-Keeps id d _ s _ held (send_packet_in-SamePorts payload _ d) refl refl refl a))
    ]
  ]

  -- EmitLLDPPacket never reads through a nil pointer for a port that exists.
  emit_lldp-Settles :
      (payload port : Bytes) (s : Simulation)
      → Exists port s
      → IsAttached s
      → Settles (Keeps s) (emit_lldp encode payload port s)
  unfolding emit_lldp
  emit_lldp-Settles payload port s e a =
      let p = Exists-IsPort port s e in
      let (x, found) = port_found port s p a in
      rw (p.named, emit_lldp)
        (rw (p.held, emit_lldp)
          (rw (found, emit_lldp)
            (ended (receive-Keeps lldp_type payload p.device_id x p.device s p.held a))))

  emit_arp_request-Settles :
      (arp_request : Bytes → Bytes → Bytes → Option Bytes) (nic : Nic) (ip : Bytes) (s : Simulation)
      → Exists nic.id s
      → IsAttached s
      → Settles (Keeps s) (emit_arp_request encode arp_request nic ip s)
  unfolding emit_arp_request
  emit_arp_request-Settles arp_request nic ip s e a =
      let p = Exists-IsPort nic.id s e in
      let (x, found) = port_found nic.id s p a in
      elim (Option-cases (arp_request ip nic.mac nic.ip)) [
        | inl bad ↦ rw (bad, emit_arp_request) (ended (Keeps-refl s a))
        | inr (arp, made) ↦
            rw (made, emit_arp_request)
              (rw (device_found nic.id s p, emit_arp_request)
                (rw (found, emit_arp_request)
                  (ended (
                    receive-Keeps arp_type arp p.device.device.id x p.device s
                      (rw (a.good p.device_id p.device p.held).keyed p.held) a))))
      ]

  module _ (dials : Bytes → Bool) where
    process_lldp-Settles :
        (payload : Bytes) (egress : ℕ) (d : DeviceSim) (s : Simulation)
        → IsAttached s
        → Settles (Keeps s) (process_lldp encode dials payload egress d s)
    unfolding process_lldp get_link_from_port is_external_link
    process_lldp-Settles payload egress d s a =
        Settles-option (port_by_number egress d) (λ _. ended (Keeps-refl s a))
          λ p _.
            Settles-if p.enabled
              (λ _.
                Settles-option (get_link_from_port p.id s) (λ _. ended (Keeps-refl s a))
                  λ l found.
                    Settles-if (is_external_link l)
                      (λ external. emit_via_peer-Settles dials payload l.tgt_id s external a)
                      (λ inner.
                        emit_lldp-Settles payload l.tgt_id s
                          (a.link_lands p.id l (ground arith) inner) a))
              (λ _. ended (Keeps-refl s a))

    pub process_packet_out-Settles :
        (egress_of : PipelineConfig → List PacketMetadata → ℕ) (is_lldp : Bytes → Bool)
        (payload : Bytes) (mds : List PacketMetadata) (d : DeviceSim) (s : Simulation)
        → IsAttached s
        → Settles (Keeps s) (process_packet_out encode dials egress_of is_lldp payload mds d s)
    unfolding process_packet_out
    process_packet_out-Settles egress_of is_lldp payload mds d s a =
        Settles-if d.pipeline.codec_set
          (λ _.
            Settles-if (is_lldp payload) (λ _. process_lldp-Settles payload _ d s a)
              (λ _. ended (Keeps-refl s a)))
          (λ _. stopped (Keeps-refl s a))

  pub emit_arps-Settles :
      (arp_request : Bytes → Bytes → Bytes → Option Bytes) (id mac : Bytes) (ips : List Bytes)
      (s : Simulation)
      → IsAttached s
      → Settles IsAttached (emit_arps encode arp_request id mac ips s)
  unfolding emit_arps emit_arp_requests
  emit_arps-Settles arp_request id mac ips s a =
      Settles-option (lookup id s.hosts) (λ _. stopped a)
        λ h held.
          Settles-option (nic_by_mac mac h.interfaces) (λ _. stopped a)
            λ nic found.
              Settles-map _ (λ s' k. k.0)
                (Settles-each {P = λ t. IsAttached t × Exists nic.id t}
                  (emit_arp_request encode arp_request nic)
                  (λ ip t k.
                    Settles-map _ (λ t' kept. (kept.attached, kept.existing nic.id k.1))
                      (emit_arp_request-Settles arp_request nic ip t k.1 k.0))
                  ips s (a, a.nic_lands id h nic held (nic_by_mac-Memᴰ mac h.interfaces nic found)))
