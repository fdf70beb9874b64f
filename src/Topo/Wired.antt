-- ===== src/Topo/Wired.antt =====
-- The ports that the builder gives out are ports of the switches that it has made.
pub mod Switches
pub mod Links
pub mod Hosts
pub mod Racks
pub mod Spines
pub mod PlainFabric
pub mod AccessFabric
use mathlib.Core.List.{Memᴰ}
use fabric_sim.Prelude.{
  ℕ, zero, suc, ◌+◌, ◌%◌, ◌^◌, ◌≤◌, ◌<◌, Bytes, bytes_eq, ◌==◌, List, [], ◌∷◌, ◌++◌, Bool, true,
  false, ltb, if◌then◌else◌, Option, none, some, ◌≡◌, refl, ap, sym, arith, Option-cases,
  Bool-cases, inl, inr,
}
use fabric_sim.GoMap.{GoMap, lookup, insert, lookup-insert}
use fabric_sim.Topo.Schema.{GridPosition, Port, Device, Link, Nic, Host, Topology}
use fabric_sim.Topo.Text.{port_id}
use fabric_sim.Topo.Builder.{
  Build, new_builder, port_of, port_number, next_device_port_id, create_ports, create_switch,
  append_link, append_host, create_link_trunk, latch_min_port,
}

-- `size` says how many ports the switch of each id is made with.
module _ (size : Bytes → ℕ) where
  -- A switch of the topology with an id and the ports of its size.
  pub record IsSwitch (id : Bytes) (t : Topology) : Type 0 where
    pub device : Device
    pub among : Memᴰ device t.devices
    pub named : device.id ≡ id
    pub sized : device.ports ≡ create_ports (size id)

  -- A text is the id of a port of a switch of the topology.
  pub record IsPortOf (port : Bytes) (t : Topology) : Type 0 where
    pub id : Bytes
    pub number : ℕ
    pub spelled : port ≡ port_id id number
    pub first : 1 ≤ number
    pub last : number ≤ size id
    pub switch : IsSwitch id t

  -- Every link and every interface of a topology ends on a port of a switch.
  pub record IsWired (t : Topology) : Type 0 where
    pub link_src : (l : Link) → Memᴰ l t.links → IsPortOf l.src t
    pub link_tgt : (l : Link) → Memᴰ l t.links → IsPortOf l.tgt t
    pub nic_port : (h : Host) (n : Nic) → Memᴰ h t.hosts → Memᴰ n h.nics → IsPortOf n.port t

  -- The maps of a builder agree with the sizes, a switch that was made is in the topology, and
  -- the topology is wired.
  pub record Fits (b : Build) : Type 0 where
    pub next_fits : (id : Bytes) (n : ℕ) → lookup id b.next_port ≡ some n → (1 ≤ n) × (n ≤ size id)
    pub min_fits : (id : Bytes) (n : ℕ) → lookup id b.min_port ≡ some n → (1 ≤ n) × (n ≤ size id)
    pub max_fits : (id : Bytes) (n : ℕ) → lookup id b.max_port ≡ some n → n ≡ size id
    pub min_made :
        (id : Bytes) (n : ℕ)
        → lookup id b.max_port ≡ some n
        → (k : ℕ) × (lookup id b.min_port ≡ some k)
    pub made : (id : Bytes) (n : ℕ) → lookup id b.max_port ≡ some n → IsSwitch id b.topology
    pub wired : IsWired b.topology

  -- A switch that was made.
  abbrev pub IsMade : Bytes → Build → Type 0
  IsMade id b = lookup id b.max_port ≡ some (size id)

  -- A call keeps the builder fitting, the switches that were made and the next ports that are known.
  pub record Extends (b b' : Build) : Type 0 where
    pub fits : Fits b'
    pub still_made : (id : Bytes) → IsMade id b → IsMade id b'
    pub still_next :
        (id : Bytes) (n : ℕ)
        → lookup id b.next_port ≡ some n
        → (n' : ℕ) × (lookup id b'.next_port ≡ some n')
    pub still_port : (port : Bytes) → IsPortOf port b.topology → IsPortOf port b'.topology

  pub Extends-refl : (b : Build) → Fits b → Extends b b
  Extends-refl b f = record {
    fits = f;
    still_made = λ id m. m;
    still_next = λ id n h. (n, h);
    still_port = λ port p. p;
  }

  pub Extends-trans : (a b c : Build) → Extends a b → Extends b c → Extends a c
  Extends-trans a b c e e' = record {
    fits = e'.fits;
    still_made = λ id m. e'.still_made id (e.still_made id m);
    still_next = λ id n h. let (n', h') = e.still_next id n h in e'.still_next id n' h';
    still_port = λ port p. e'.still_port port (e.still_port port p);
  }

  -- The number that NextDevicePortID gives, and the one that it leaves for the next time.
  port_number-Fits :
      (id : Bytes) (b : Build)
      → 1 ≤ size id
      → Fits b
      → (1 ≤ port_number id b) × (port_number id b ≤ size id)
  unfolding port_number
  port_number-Fits id b some_port f = elim (Option-cases (lookup id b.next_port)) [
    | inl unknown ↦ rw (unknown, port_number) (omega arith, some_port)
    | inr (n, known) ↦ rw (known, port_number) (f.next_fits id n known)
  ]

  port_after : Bytes → Build → ℕ
  port_after id b =
      if ltb (port_of id b.max_port) (port_number id b + 1)
      then port_of id b.min_port
      else port_number id b + 1

  port_after-Fits :
      (id : Bytes) (b : Build)
      → IsMade id b
      → Fits b
      → (1 ≤ port_after id b) × (port_after id b ≤ size id)
  unfolding port_after port_of
  port_after-Fits id b m f =
      let (k, at_min) = f.min_made id (size id) m in
      let bounds = f.min_fits id k at_min in (ground arith, ground arith)

  -- NextDevicePortID of a switch that was made, of at least one port.
  pub next_device_port_id-Extends :
      (id : Bytes) (b : Build)
      → 1 ≤ size id
      → IsMade id b
      → Fits b
      → Extends b (next_device_port_id id b).0
        × IsPortOf (next_device_port_id id b).1 (next_device_port_id id b).0.topology
        × ((n : ℕ) × (lookup id (next_device_port_id id b).0.next_port ≡ some n))
  unfolding next_device_port_id port_after
  next_device_port_id-Extends id b some_port m f =
      let bounds = port_after-Fits id b m f in
      let given = port_number-Fits id b some_port f in
      (
        record {
          fits = record {
            next_fits = λ id' n h. elim (Bool-cases (id == id')) [
              | inl here ↦
                  let e : port_after id b ≡ n =
                    ground (arith, lookup-insert id id' (port_after id b) b.next_port) in
                  rw (← (bytes_eq.beq_iff id id').0 here) (rw (← e) bounds)
              | inr there ↦
                  f.next_fits id' n
                    (ground (arith, lookup-insert id id' (port_after id b) b.next_port))
            ];
            min_fits = f.min_fits;
            max_fits = f.max_fits;
            min_made = f.min_made;
            made = f.made;
            wired = f.wired;
          };
          still_made = λ id' m'. m';
          still_next = λ id' n h. elim (Bool-cases (id == id')) [
            | inl here ↦ (
              port_after id b,
              ground (arith, lookup-insert id id' (port_after id b) b.next_port),
            )
            | inr there ↦ (n, ground (arith, lookup-insert id id' (port_after id b) b.next_port))
          ];
          still_port = λ port p. p;
        },
        record {
          id = id;
          number = port_number id b;
          spelled = refl;
          first = given.0;
          last = given.1;
          switch = f.made id (size id) m;
        },
        (
          port_after id b,
          ground (arith, bytes_eq.beq_iff id id, lookup-insert id id (port_after id b) b.next_port),
        ),
      )
