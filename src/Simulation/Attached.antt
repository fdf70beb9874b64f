-- ===== src/Simulation/Attached.antt =====
-- Every link and every host of the inventory ends on a port that exists.
pub mod Inventory
pub mod Kept
pub mod Traffic
pub mod Events
use mathlib.Core.Path.{subst}
use mathlib.Core.List.{Memᴰ}
use fabric_sim.Prelude.{
  ℕ, zero, suc, ◌<◌, ◌+◌, nat_eq, bytes_eq, ◌==◌, Bytes, List, [], ◌∷◌, Bool, true, false, Option,
  none, some, length, get_elem?, if◌then◌else◌, ◌≡◌, refl, ap, arith, Option-cases, Bool-cases, inl,
  inr,
}
use fabric_sim.GoMap.{GoMap, lookup, insert, lookup-insert}
use fabric_sim.Device.State.{Port, DeviceSim, port_by_id, deref}
use fabric_sim.Simulation.Ports.{
  Link, Nic, Host, Use, by_link, Simulation, validate_port, extract_device_id, is_external_link,
}

-- The pointers of the port map point to ports of the device.
abbrev pub HasPorts : DeviceSim → Type 0
HasPorts d = (port : Bytes) (i : ℕ) → lookup port d.ports ≡ some i → i < length d.device.ports

-- validatePort returns nil.
abbrev pub Exists : Bytes → Simulation → Type 0
Exists port s = validate_port port s.devices ≡ none

-- A device is held under its own id, and its pointers are good.
pub record IsGood (id : Bytes) (d : DeviceSim) : Type 0 where
  pub keyed : d.device.id ≡ id
  pub pointers : HasPorts d

-- The links that the ports are used for, external ones aside, and the interfaces of the hosts
-- end on ports that exist, and the devices are good.
pub record IsAttached (s : Simulation) : Type 0 where
  pub good : (id : Bytes) (d : DeviceSim) → lookup id s.devices ≡ some d → IsGood id d
  pub link_lands :
      (port : Bytes) (l : Link)
      → lookup port s.used_egress ≡ some (by_link l)
      → is_external_link l ≡ false
      → Exists l.tgt_id s
  pub nic_lands :
      (id : Bytes) (h : Host) (n : Nic)
      → lookup id s.hosts ≡ some h
      → Memᴰ n h.interfaces
      → Exists n.id s

-- What an existing port is, by the lookups that validatePort makes.
pub record IsPort (port : Bytes) (s : Simulation) : Type 0 where
  pub device_id : Bytes
  pub named : extract_device_id port ≡ some device_id
  pub device : DeviceSim
  pub held : lookup device_id s.devices ≡ some device
  pub pointer : ℕ
  pub at_port : lookup port device.ports ≡ some pointer

pub Exists-IsPort : (port : Bytes) (s : Simulation) → Exists port s → IsPort port s
unfolding validate_port
Exists-IsPort port s h = elim (Option-cases (extract_device_id port)) [
  | inl bad ↦ absurd (ground arith)
  | inr (id, named) ↦ elim (Option-cases (lookup id s.devices)) [
    | inl bad ↦ absurd (ground arith)
    | inr (d, held) ↦ elim (Option-cases (lookup port d.ports)) [
      | inl bad ↦ absurd (ground arith)
      | inr (i, at_port) ↦ record {
        device_id = id;
        named = named;
        device = d;
        held = held;
        pointer = i;
        at_port = at_port;
      }
    ]
  ]
]

pub IsPort-Exists : (port : Bytes) (s : Simulation) → IsPort port s → Exists port s
unfolding validate_port
IsPort-Exists port s p =
    rw (p.named, validate_port) (rw (p.held, validate_port) (rw (p.at_port, validate_port) refl))

-- A device may be put in the place of one with the same port map, or of none.
pub Exists-insert :
    (port id : Bytes) (d' : DeviceSim) (s s' : Simulation)
    → s'.devices ≡ insert id d' s.devices
    → ((d : DeviceSim) → lookup id s.devices ≡ some d → d'.ports ≡ d.ports)
    → Exists port s
    → Exists port s'
Exists-insert port id d' s s' after same e =
    let p = Exists-IsPort port s e in
    IsPort-Exists port s' (elim (Bool-cases (id == p.device_id)) [
      | inl here ↦
          let here' : id ≡ p.device_id = (bytes_eq.beq_iff id p.device_id).0 here in
          let held' : lookup id s.devices ≡ some p.device = rw here' p.held in
          record {
            device_id = p.device_id;
            named = p.named;
            device = d';
            held = rw after (ground (arith, lookup-insert id p.device_id d' s.devices));
            pointer = p.pointer;
            at_port = rw (same p.device held') p.at_port;
          }
      | inr there ↦ record {
        device_id = p.device_id;
        named = p.named;
        device = p.device;
        held = rw after (ground (arith, lookup-insert id p.device_id d' s.devices, p.held));
        pointer = p.pointer;
        at_port = p.at_port;
      }
    ])

-- A device that is put in keeps all devices good, if it is, and what ends on a port still does.
pub IsAttached-insert :
    (id : Bytes) (d' : DeviceSim) (s s' : Simulation)
    → s'.devices ≡ insert id d' s.devices
    → s'.used_egress ≡ s.used_egress
    → s'.hosts ≡ s.hosts
    → ((d : DeviceSim) → lookup id s.devices ≡ some d → d'.ports ≡ d.ports)
    → IsGood id d'
    → IsAttached s
    → IsAttached s'
IsAttached-insert id d' s s' after egress hosts same new a = record {
  good = λ id' d held. elim (Bool-cases (id == id')) [
    | inl here ↦
        let e : d' ≡ d =
          ground (arith, lookup-insert id id' d' s.devices, ap (λ m. lookup id' m) after) in
        subst (λ i. IsGood i d) ((bytes_eq.beq_iff id id').0 here) (subst (IsGood id) e new)
    | inr there ↦
        a.good id' d
          (ground (arith, lookup-insert id id' d' s.devices, ap (λ m. lookup id' m) after))
  ];
  link_lands = λ port l used inner.
      Exists-insert l.tgt_id id d' s s' after same (a.link_lands port l (rw (← egress) used) inner);
  nic_lands = λ i h n held m.
      Exists-insert n.id id d' s s' after same (a.nic_lands i h n (rw (← hosts) held) m);
}

-- A good pointer is never nil.
pub get_elem?-found {ℓ} :
    {A : Type ℓ} (xs : List A) (i : ℕ) → i < length xs → (x : A) × (get_elem? xs i ≡ some x)
get_elem?-found [] i h = elim h [ ]
get_elem?-found (x ∷ xs) zero h = (x, refl)
get_elem?-found (x ∷ xs) (suc i) h = get_elem?-found xs i (omega arith)

pub port_found :
    (port : Bytes) (s : Simulation) (p : IsPort port s)
    → IsAttached s
    → (x : Port) × (port_by_id port p.device ≡ some x)
unfolding port_by_id deref
port_found port s p a =
    let (x, e) =
      get_elem?-found p.device.device.ports p.pointer
        ((a.good p.device_id p.device p.held).pointers port p.pointer p.at_port) in
    (x, rw p.at_port e)
