-- ===== src/Simulation/Attached/Events.antt =====
-- What happens to a simulation: calls that change the inventory, port changes of the management API,
-- packet-outs that the devices receive and ARP requests of the hosts.
use fabric_sim.Prelude.{ℕ, bytes_eq, Bytes, List, [], ◌∷◌, Bool, Option, ◌≡◌, refl}
use fabric_sim.Outcome.{Outcome, done, failed, panic, ok, err}
use fabric_sim.Outcome.Settles.{Settles, ended, stopped, Settles-map, Settles-result}
use fabric_sim.Device.Pipeline.{PipelineConfig}
use fabric_sim.Device.Streams.{PacketMetadata}
use fabric_sim.Device.Packets.{PacketInMetadata}
use fabric_sim.Simulation.Ports.{LinkStatus, Simulation, get_device}
use fabric_sim.Simulation.Status.{change_port}
use fabric_sim.Simulation.Lldp.{process_packet_out}
use fabric_sim.Simulation.Arp.{emit_arps}
use fabric_sim.Simulation.Exclusive.Reached.{
  Call, adds_device, removes_device, adds_link, removes_link, adds_host, removes_host, answer,
}
use fabric_sim.Simulation.Attached.{IsAttached}
use fabric_sim.Simulation.Attached.Inventory.{
  add_device-IsAttached, add_link-IsAttached, remove_link-IsAttached, add_host-IsAttached,
  remove_host-IsAttached,
}
use fabric_sim.Simulation.Attached.Kept.{change_port-Settles}
use fabric_sim.Simulation.Attached.Traffic.{process_packet_out-Settles, emit_arps-Settles}

pub data Event : Type 0 where
  inventory : Call → Event
  port_changed : Bytes → LinkStatus → Event
  packet_out : Bytes → Bytes → List PacketMetadata → Event
  arp_requests : Bytes → Bytes → List Bytes → Event

-- No device is removed.
abbrev pub KeepsDevices : List Event → Type 0
KeepsDevices [] = Unit
KeepsDevices (inventory (removes_device id) ∷ events) = ⊥
KeepsDevices (event ∷ events) = KeepsDevices events

-- What the source takes from libraries: the codec of packet-ins and packet-outs, gopacket, the
-- dialler and the maker of ARP requests.
pub record Libraries : Type 0 where
  pub encode : PipelineConfig → PacketInMetadata → List PacketMetadata
  pub egress_of : PipelineConfig → List PacketMetadata → ℕ
  pub is_lldp : Bytes → Bool
  pub dials : Bytes → Bool
  pub arp_request : Bytes → Bytes → Bytes → Option Bytes

module _ (lib : Libraries) where
  -- A packet-out reaches ProcessPacketOut through a stream of a device of the inventory.
  unfoldable pub perform : Event → Simulation → Outcome Simulation
  unfolding answer get_device
  perform (inventory call) s = answer call s
  perform (port_changed port status) s = change_port port status s
  perform (packet_out id payload mds) s = elim (get_device id s) [
    | err e ↦ failed e s
    | ok d ↦ process_packet_out lib.encode lib.dials lib.egress_of lib.is_lldp payload mds d s
  ]
  perform (arp_requests id mac ips) s = emit_arps lib.encode lib.arp_request id mac ips s

  -- One after the other; one that returns an error does not stop the next.
  unfoldable pub perform_all : List Event → Simulation → Outcome Simulation
  unfolding perform
  perform_all [] s = done s
  perform_all (event ∷ events) s = elim (perform event s) [
    | done s' ↦ perform_all events s'
    | failed e s' ↦ perform_all events s'
    | panic ↦ panic
  ]

  perform_inventory-IsAttached :
      (call : Call) (s : Simulation)
      → KeepsDevices (inventory call ∷ [])
      → IsAttached s
      → Settles IsAttached (answer call s)
  unfolding answer
  perform_inventory-IsAttached (adds_device d) s k a = add_device-IsAttached d s a
  perform_inventory-IsAttached (removes_device id) s k a = elim k [ ]
  perform_inventory-IsAttached (adds_link l) s k a = add_link-IsAttached l s a
  perform_inventory-IsAttached (removes_link id) s k a = remove_link-IsAttached id s a
  perform_inventory-IsAttached (adds_host h) s k a = add_host-IsAttached h s a
  perform_inventory-IsAttached (removes_host id) s k a = remove_host-IsAttached id s a

  perform-IsAttached :
      (event : Event) (s : Simulation)
      → KeepsDevices (event ∷ [])
      → IsAttached s
      → Settles IsAttached (perform event s)
  unfolding perform
  perform-IsAttached (inventory call) s k a = perform_inventory-IsAttached call s k a
  perform-IsAttached (port_changed port status) s k a =
      Settles-map _ (λ t kept. kept.attached) (change_port-Settles port status s a)
  perform-IsAttached (packet_out id payload mds) s k a =
      Settles-result (get_device id s)
        (λ d _.
          Settles-map _ (λ t kept. kept.attached)
            (process_packet_out-Settles lib.encode lib.dials lib.egress_of lib.is_lldp payload mds d
              s a))
        (λ e. stopped a)
  perform-IsAttached (arp_requests id mac ips) s k a =
      emit_arps-Settles lib.encode lib.arp_request id mac ips s a

  KeepsDevices-parts :
      (event : Event) (events : List Event)
      → KeepsDevices (event ∷ events)
      → KeepsDevices (event ∷ []) × KeepsDevices events
  KeepsDevices-parts (inventory (adds_device d)) events k = (tt, k)
  KeepsDevices-parts (inventory (removes_device id)) events k = elim k [ ]
  KeepsDevices-parts (inventory (adds_link l)) events k = (tt, k)
  KeepsDevices-parts (inventory (removes_link id)) events k = (tt, k)
  KeepsDevices-parts (inventory (adds_host h)) events k = (tt, k)
  KeepsDevices-parts (inventory (removes_host id)) events k = (tt, k)
  KeepsDevices-parts (port_changed port status) events k = (tt, k)
  KeepsDevices-parts (packet_out id payload mds) events k = (tt, k)
  KeepsDevices-parts (arp_requests id mac ips) events k = (tt, k)

  -- In a simulation in which what is attached ends on ports that exist, whatever its pipelines, punt
  -- rules and streams are: whatever inventory calls, port changes, packet-outs and ARP requests
  -- follow, as long as no device is removed, none of them panics, and in the state that they leave
  -- every link that a port is used for ends on a port that exists, unless it is external, as does
  -- every interface of a host.
  pub perform_all_settles :
      (events : List Event) (s : Simulation)
      → KeepsDevices events
      → IsAttached s
      → (s' : Simulation) × (perform_all events s ≡ done s') × IsAttached s'
  unfolding perform_all
  perform_all_settles [] s k a = (s, refl, a)
  perform_all_settles (event ∷ events) s k a =
      let parts = KeepsDevices-parts event events k in
      go (perform event s) refl (perform-IsAttached event s parts.0 a)
        (λ t. perform_all_settles events t parts.1)
    where
      go :
          (m : Outcome Simulation)
          → perform event s ≡ m
          → Settles IsAttached m
          → ((t : Simulation)
              → IsAttached t
              → (s' : Simulation) × (perform_all events t ≡ done s') × IsAttached s')
          → (s' : Simulation) × (perform_all (event ∷ events) s ≡ done s') × IsAttached s'
      go (done t) e (ended b) rest = rw (e, perform_all) (rest t b)
      go (failed f t) e (stopped b) rest = rw (e, perform_all) (rest t b)
      go panic e x rest = elim x [ ]
