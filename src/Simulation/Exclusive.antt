-- ===== src/Simulation/Exclusive.antt =====
-- Each port of the simulated network carries at most one link, or one host, in each direction.
pub mod Preserved
pub mod Placed
pub mod Devices
pub mod Reached
use mathlib.Core.List.{Memᴰ}
use fabric_sim.Prelude.{
  ℕ, bytes_eq, ◌==◌, Bytes, codes, contains, List, [], ◌∷◌, Bool, true, false, Option, none, some,
  is_some, if◌then◌else◌, ◌≡◌, refl, arith, Bool-cases, inl, inr,
}
use fabric_sim.GoMap.{GoMap, lookup, insert, delete, lookup-insert, lookup-delete}
use fabric_sim.Outcome.{Error, not_found, invalid, Outcome, done, failed, state_or}
use fabric_sim.Device.State.{Port, Device, DeviceSim}
use fabric_sim.Simulation.Ports.{
  Link, Nic, Host, Use, by_link, by_nic, Simulation, validate_port, is_external_link, add_device,
  remove_device,
}
use fabric_sim.Simulation.Links.{add_link, remove_link}
use fabric_sim.Simulation.Hosts.{add_host, remove_host}

-- The id is not one of a port behind another simulation.
abbrev pub IsLocal : Bytes → Type 0
IsLocal id = contains (codes "::") id ≡ false

-- The links and the hosts of the inventory are those that the uses of the ports name, and no two
-- hosts share a port.
pub record IsConsistent (s : Simulation) : Type 0 where
  pub link_id : (id : Bytes) (l : Link) → lookup id s.links ≡ some l → l.id ≡ id
  pub link_egress :
      (id : Bytes) (l : Link)
      → lookup id s.links ≡ some l
      → lookup l.src_id s.used_egress ≡ some (by_link l)
  pub link_ingress :
      (id : Bytes) (l : Link)
      → lookup id s.links ≡ some l
      → is_external_link l ≡ false
      → lookup l.tgt_id s.used_ingress ≡ some (by_link l)
  pub nic_egress :
      (id : Bytes) (h : Host) (n : Nic)
      → lookup id s.hosts ≡ some h
      → Memᴰ n h.interfaces
      → (m : Nic) × (lookup n.id s.used_egress ≡ some (by_nic m))
  pub nic_ingress :
      (id : Bytes) (h : Host) (n : Nic)
      → lookup id s.hosts ≡ some h
      → Memᴰ n h.interfaces
      → (m : Nic) × (lookup n.id s.used_ingress ≡ some (by_nic m))
  pub nic_local :
      (id : Bytes) (h : Host) (n : Nic)
      → lookup id s.hosts ≡ some h
      → Memᴰ n h.interfaces
      → IsLocal n.id
  pub hosts_apart :
      (id id' : Bytes) (h h' : Host) (n n' : Nic)
      → lookup id s.hosts ≡ some h
      → lookup id' s.hosts ≡ some h'
      → (id == id') ≡ false
      → Memᴰ n h.interfaces
      → Memᴰ n' h'.interfaces
      → (n.id == n'.id) ≡ false
  pub port_local :
      (id : Bytes) (d : DeviceSim) (port : Bytes) (p : ℕ)
      → lookup id s.devices ≡ some d
      → lookup port d.ports ≡ some p
      → IsLocal port

-- Two links with different ids leave different ports.
pub sources_apart :
    (s : Simulation) (id id' : Bytes) (l l' : Link)
    → IsConsistent s
    → lookup id s.links ≡ some l
    → lookup id' s.links ≡ some l'
    → (id == id') ≡ false
    → (l.src_id == l'.src_id) ≡ false
sources_apart s id id' l l' c h h' other = ground (
  arith,
  c.link_egress id l h,
  c.link_egress id' l' h',
  c.link_id id l h,
  c.link_id id' l' h',
  bytes_eq.beq_iff id id',
  bytes_eq.beq_iff l.src_id l'.src_id,
)
