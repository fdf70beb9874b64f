-- ===== src/Simulation/Exclusive/Devices.antt =====
-- Devices come and go without a change of the uses of the ports in pkg/simulator/core.go.
use fabric_sim.Device.Pipeline.{new_pipeline}
use mathlib.Core.List.{Memᴰ}
use fabric_sim.Prelude.{
  ℕ, suc, ap, bytes_eq, nat_eq, ◌==◌, Bytes, List, [], ◌∷◌, some, ◌≡◌, refl, ◌⊎◌, arith, Bool-cases,
  inl, inr,
}
use fabric_sim.GoMap.{lookup, insert, lookup-insert, lookup-delete}
use fabric_sim.Outcome.{Leaves, returned, refused}
use fabric_sim.Outcome.Rules.{Leaves-option}
use fabric_sim.Device.State.{Port, Device, DeviceSim, add_ports, new_device_simulator}
use fabric_sim.Simulation.Ports.{Simulation, add_device, remove_device}
use fabric_sim.Simulation.Exclusive.{IsLocal, IsConsistent}

-- The ports of the port map of a device come from its description.
add_ports-IsLocal :
    (i : ℕ) (ps : List Port) (d : DeviceSim)
    → ((p : Port) → Memᴰ p ps → IsLocal p.id)
    → ((port : Bytes) (p : ℕ) → lookup port d.ports ≡ some p → IsLocal port)
    → (port : Bytes) (p : ℕ) → lookup port (add_ports i ps d).ports ≡ some p
    → IsLocal port
unfolding add_ports
add_ports-IsLocal i [] d new old port p h = old port p h
add_ports-IsLocal i (q ∷ ps) d new old port p h =
    add_ports-IsLocal (suc i) ps
      (record d {
        ports = insert q.id i d.ports;
        sdn_ports = insert q.internal_number i d.sdn_ports;
      })
      (λ r m. new r (Memᴰ.tail m))
      (λ port' p' h'. elim (Bool-cases (q.id == port')) [
        | inl here ↦
            let same : q.id ≡ port' = ground (arith, bytes_eq.beq_iff q.id port') in
            rw (← same) (new q (Memᴰ.head refl))
        | inr there ↦ old port' p' (ground (arith, lookup-insert q.id port' i d.ports))
      ])
      port p h

-- The simulator before the loop over the ports.
abbrev bare : Device → DeviceSim
bare d = record {
  device = record d { connections = [] };
  ports = [];
  sdn_ports = [];
  pipeline = new_pipeline;
  elections = [];
  streams = [];
}

none_held : (port : Bytes) (p : ℕ) → lookup {V = ℕ} port [] ≡ some p → ⊥
unfolding lookup
none_held port p h = cc

-- What the device at an id is after one was added.
device_after :
    (d : DeviceSim) (s : Simulation) (at id : Bytes) (sim : DeviceSim)
    → lookup id (insert at d s.devices) ≡ some sim
    → (sim ≡ d) ⊎ (lookup id s.devices ≡ some sim)
device_after d s at id sim found = elim (Bool-cases (at == id)) [
  | inl here ↦ inl (ground (arith, lookup-insert at id d s.devices))
  | inr there ↦ inr (ground (arith, lookup-insert at id d s.devices))
]

-- A new device, none of whose port ids looks like one of another simulation.
pub add_device-IsConsistent :
    (d : Device) (s : Simulation)
    → ((p : Port) → Memᴰ p d.ports → IsLocal p.id)
    → IsConsistent s
    → Leaves IsConsistent (add_device d s)
unfolding add_device new_device_simulator
add_device-IsConsistent d s local c =
    Leaves-option (lookup d.id s.devices)
      (returned (record {
        link_id = c.link_id;
        link_egress = c.link_egress;
        link_ingress = c.link_ingress;
        nic_egress = c.nic_egress;
        nic_ingress = c.nic_ingress;
        nic_local = c.nic_local;
        hosts_apart = c.hosts_apart;
        port_local = λ id sim port p found at_port.
            elim (device_after (new_device_simulator d) s d.id id sim found) [
              | inl same ↦
                  add_ports-IsLocal 0 d.ports (bare d) local
                    (λ port' p' h'. absurd (none_held port' p' h')) port p (rw same at at_port)
              | inr before ↦ c.port_local id sim port p before at_port
            ];
      }))
      (λ old found. refused c)

-- The removal of a device leaves the links and hosts on its ports.
pub remove_device-IsConsistent :
    (id : Bytes) (s : Simulation) → IsConsistent s → Leaves IsConsistent (remove_device id s)
unfolding remove_device
remove_device-IsConsistent id s c = Leaves-option (lookup id s.devices) (refused c) (λ d found.
    returned (record {
      link_id = c.link_id;
      link_egress = c.link_egress;
      link_ingress = c.link_ingress;
      nic_egress = c.nic_egress;
      nic_ingress = c.nic_ingress;
      nic_local = c.nic_local;
      hosts_apart = c.hosts_apart;
      port_local = λ i sim port p at_device at_port.
          c.port_local i sim port p (ground (arith, lookup-delete id i s.devices)) at_port;
    }))

-- A change of one device that keeps its port map.
pub put_device-IsConsistent :
    (id : Bytes) (d d' : DeviceSim) (s : Simulation)
    → lookup id s.devices ≡ some d
    → d'.ports ≡ d.ports
    → IsConsistent s
    → IsConsistent (record s { devices = insert id d' s.devices })
put_device-IsConsistent id d d' s found same_ports c = record {
  link_id = c.link_id;
  link_egress = c.link_egress;
  link_ingress = c.link_ingress;
  nic_egress = c.nic_egress;
  nic_ingress = c.nic_ingress;
  nic_local = c.nic_local;
  hosts_apart = c.hosts_apart;
  port_local = λ i sim port p at_device at_port. elim (Bool-cases (id == i)) [
    | inl here ↦
        let same : sim ≡ d' = ground (arith, lookup-insert id i d' s.devices) in
        let held : lookup port d.ports ≡ some p =
          rw (← same_ports) (rw (ap (λ (x : DeviceSim). x.ports) same) at at_port) in
        c.port_local id d port p found held
    | inr there ↦
        c.port_local i sim port p (ground (arith, lookup-insert id i d' s.devices)) at_port
  ];
}
