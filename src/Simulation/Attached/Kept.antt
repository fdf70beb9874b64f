-- ===== src/Simulation/Attached/Kept.antt =====
-- A device that changes within its ports keeps what is attached attached, and so does a change of
-- the state of a port.
use fabric_sim.Prelude.{
  ℕ, nat_eq, bytes_eq, Bytes, Bool, some, length, length-set, ◌≡◌, refl, arith, Option-cases, inl,
  inr,
}
use fabric_sim.GoMap.{lookup, insert}
use fabric_sim.Outcome.{ok}
use fabric_sim.Outcome.Settles.{Settles, ended, stopped, Settles-lift, Settles-map}
use fabric_sim.Device.State.{Port, DeviceSim, put_port, enable_port}
use fabric_sim.Simulation.Ports.{
  LinkStatus, Simulation, extract_device_id, get_device, get_device_for_port,
}
use fabric_sim.Simulation.Status.{enabled_of, set_link_status, set_port_status, change_port}
use fabric_sim.Simulation.Attached.{
  Exists, IsGood, IsAttached, IsPort, Exists-insert, IsAttached-insert, get_elem?-found,
}

-- The ports of a device are where they were.
pub record SamePorts (d d' : DeviceSim) : Type 0 where
  pub same_id : d'.device.id ≡ d.device.id
  pub same_map : d'.ports ≡ d.ports
  pub same_count : length d'.device.ports ≡ length d.device.ports

IsGood-SamePorts : (id : Bytes) (d d' : DeviceSim) → SamePorts d d' → IsGood id d → IsGood id d'
IsGood-SamePorts id d d' same g = record {
  keyed = ground arith;
  pointers =
      λ port i at_port. rw same.same_count (g.pointers port i (rw (← same.same_map) at_port));
}

pub SamePorts-refl : (d : DeviceSim) → SamePorts d d
SamePorts-refl d = record { same_id = refl; same_map = refl; same_count = refl }

-- What is attached after a packet: the simulation, and each port that existed.
pub record Keeps (s s' : Simulation) : Type 0 where
  pub attached : IsAttached s'
  pub existing : (port : Bytes) → Exists port s → Exists port s'

-- A device of the inventory that changes within its ports.
pub put-Keeps :
    (id : Bytes) (d d' : DeviceSim) (s s' : Simulation)
    → lookup id s.devices ≡ some d
    → SamePorts d d'
    → s'.devices ≡ insert id d' s.devices
    → s'.used_egress ≡ s.used_egress
    → s'.hosts ≡ s.hosts
    → IsAttached s
    → Keeps s s'
put-Keeps id d d' s s' held same after egress hosts a =
    let same_map : (e : DeviceSim) → lookup id s.devices ≡ some e → d'.ports ≡ e.ports =
      λ e at_id. let eq : d ≡ e = ground arith in rw (← eq) same.same_map in
    record {
      attached =
          IsAttached-insert id d' s s' after egress hosts same_map
            (IsGood-SamePorts id d d' same (a.good id d held)) a;
      existing = λ port e. Exists-insert port id d' s s' after same_map e;
    }

pub Keeps-refl : (s : Simulation) → IsAttached s → Keeps s s
Keeps-refl s a = record { attached = a; existing = λ port e. e }

-- setPortStatus
put_port-SamePorts : (i : ℕ) (p : Port) (d : DeviceSim) → SamePorts d (put_port i p d)
unfolding put_port
put_port-SamePorts i p d = record {
  same_id = refl;
  same_map = refl;
  same_count = length-set d.device.ports i p;
}

set_link_status-kept :
    (id : Bytes) (status : LinkStatus) (s : Simulation)
    → ((set_link_status id status s).devices ≡ s.devices)
      × ((set_link_status id status s).used_egress ≡ s.used_egress)
      × ((set_link_status id status s).hosts ≡ s.hosts)
unfolding set_link_status
set_link_status-kept id status s = ground arith

enable_port-SamePorts :
    (port id : Bytes) (b : Bool) (d : DeviceSim)
    → IsGood id d
    → Settles (SamePorts d) (enable_port port b d)
unfolding enable_port
enable_port-SamePorts port id b d g = elim (Option-cases (lookup port d.ports)) [
  | inl missing ↦ rw (missing, enable_port) (stopped (SamePorts-refl d))
  | inr (i, at_port) ↦
      let (p, found) = get_elem?-found d.device.ports i (g.pointers port i at_port) in
      rw (at_port, enable_port) (rw (found, enable_port) (ended (put_port-SamePorts i _ d)))
]

set_port_status-Settles :
    (port id : Bytes) (status : LinkStatus) (d : DeviceSim) (s : Simulation)
    → lookup id s.devices ≡ some d
    → IsAttached s
    → Settles (Keeps s) (set_port_status port status d s)
unfolding set_port_status
set_port_status-Settles port id status d s held a =
    let g = a.good id d held in
    Settles-lift _ (enable_port port (enabled_of status) d) (
      Settles-map (enable_port port (enabled_of status) d)
        (λ d' same.
          let s' : Simulation = record s { devices = insert d.device.id d' s.devices } in
          let kept = set_link_status-kept port status s' in
          put-Keeps id d d' s (set_link_status port status s') held same
            (rw kept.0 (rw g.keyed refl)) kept.1 kept.2 a)
        (enable_port-SamePorts port id (enabled_of status) d g))

-- The port that validatePort accepts is that of a device found by it.
pub device_found :
    (port : Bytes) (s : Simulation) (p : IsPort port s) → get_device_for_port port s ≡ ok p.device
unfolding get_device_for_port get_device
device_found port s p = rw (p.named, get_device_for_port) (rw (p.held, get_device) refl)

pub change_port-Settles :
    (port : Bytes) (status : LinkStatus) (s : Simulation)
    → IsAttached s
    → Settles (Keeps s) (change_port port status s)
unfolding change_port get_device_for_port get_device
change_port-Settles port status s a = elim (Option-cases (extract_device_id port)) [
  | inl bad ↦ rw (bad, change_port) (stopped (Keeps-refl s a))
  | inr (id, named) ↦ elim (Option-cases (lookup id s.devices)) [
    | inl missing ↦ rw (named, change_port) (rw (missing, change_port) (stopped (Keeps-refl s a)))
    | inr (d, held) ↦
        rw (named, change_port)
          (rw (held, change_port) (set_port_status-Settles port id status d s held a))
  ]
]
