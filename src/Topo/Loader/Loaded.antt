-- ===== src/Topo/Loader/Loaded.antt =====
-- The ports of the devices that the loader creates exist, so that the links and hosts of a wired
-- topology find their ports.
use mathlib.Core.Path.{subst}
use mathlib.Core.List.{Memᴰ}
use fabric_sim.Prelude.{
  ℕ, zero, suc, ◌+◌, ◌%◌, ◌^◌, ◌≤◌, ◌<◌, nat_eq, bytes_eq, ◌==◌, Bytes, none, ◌≡◌, refl, sym, arith,
  Bool-cases, inl, inr,
}
use fabric_sim.GoMap.{lookup}
use fabric_sim.Outcome.{done}
use fabric_sim.Simulation.Ports.{Simulation, extract_device_id}
use fabric_sim.Simulation.Attached.{Exists}
use fabric_sim.Topo.Schema.{Port, Device, Link, Nic, Host, Topology}
use fabric_sim.Topo.Text.{port_id}
use fabric_sim.Topo.Builder.{ports_from, create_ports}
use fabric_sim.Topo.Wired.{IsPortOf, IsWired}
use fabric_sim.Topo.Loader.{create_devices}
use fabric_sim.Topo.Loader.Created.{create_devices-Created, HaveDistinctIds, create_devices_done}

-- The numbers from 1 to the count are those of the ports.
ports_from-number :
    (i count n : ℕ)
    → i ≤ n
    → n < i + count
    → (p : Port) × Memᴰ p (ports_from i count) × (p.number ≡ n)
unfolding ports_from
ports_from-number i zero n h k = absurd (omega arith)
ports_from-number i (suc count) n h k = elim (Bool-cases (i == n)) [
  | inl here ↦ (_, Memᴰ.head refl, ground arith)
  | inr there ↦
      let (p, m, e) = ports_from-number (i + 1) count n (ground arith) (omega arith) in
      (p, Memᴰ.tail m, e)
]

pub create_ports-number :
    (count n : ℕ)
    → count < 2 ^ 32
    → 1 ≤ n
    → n ≤ count
    → (p : Port) × Memᴰ p (create_ports count) × (p.number ≡ n)
unfolding create_ports
create_ports-number count n fits first last =
    ports_from-number 1 (count % 2 ^ 32) n first (omega arith)

-- A port of a wired topology, of which the devices were created.
IsPortOf-Exists :
    (size : Bytes → ℕ) (t : Topology) (s s' : Simulation) (port : Bytes)
    → ((id : Bytes) → size id < 2 ^ 32)
    → ((d : Device) → Memᴰ d t.devices → extract_device_id d.id ≡ none)
    → create_devices t.devices s ≡ done s'
    → IsPortOf size port t
    → Exists port s'
IsPortOf-Exists size t s s' port small free created p =
    let d = p.switch.device in
    let (pd, m, e) = create_ports-number (size p.id) p.number (small p.id) p.first p.last in
    let m' : Memᴰ pd d.ports = subst (λ ps. Memᴰ pd ps) (sym p.switch.sized) m in
    let found =
      (create_devices-Created t.devices s s' created).created d pd p.switch.among
        (free d p.switch.among) m' in
    let same : port_id d.id pd.number ≡ port = rw p.switch.named (rw e (sym p.spelled)) in
    subst (λ x. Exists x s') same found

-- The devices of a wired topology, with different ids that are new to the simulation and have no
-- slash, and with fewer than 2 ^ 32 ports each, are all created, and then every port that the links
-- and the network interfaces of the topology name exists.
pub create_devices-Exists :
    (size : Bytes → ℕ) (t : Topology) (s : Simulation)
    → ((id : Bytes) → size id < 2 ^ 32)
    → HaveDistinctIds t.devices
    → ((d : Device) → Memᴰ d t.devices → lookup d.id s.devices ≡ none)
    → ((d : Device) → Memᴰ d t.devices → extract_device_id d.id ≡ none)
    → IsWired size t
    → (s' : Simulation) × (create_devices t.devices s ≡ done s')
      × ((l : Link) → Memᴰ l t.links → Exists l.src s' × Exists l.tgt s')
      × ((h : Host) (n : Nic) → Memᴰ h t.hosts → Memᴰ n h.nics → Exists n.port s')
create_devices-Exists size t s small distinct fresh free w =
    let (s', created) = create_devices_done t.devices s distinct fresh in
    let exists = λ (port : Bytes) (p : IsPortOf size port t).
      IsPortOf-Exists size t s s' port small free created p in
    (
      s',
      created,
      λ l m. (exists l.src (w.link_src l m), exists l.tgt (w.link_tgt l m)),
      λ h n m m'. exists n.port (w.nic_port h n m m'),
    )
