-- ===== src/Topo/Netcfg/PortMap.antt =====
-- The map of the ids of ports to those with their SDN numbers.
use mathlib.Core.Path.{subst}
use mathlib.Core.List.{Memᴰ}
use fabric_sim.Prelude.{
  ℕ, ◌^◌, ◌≤◌, ◌<◌, nat_eq, bytes_eq, ◌==◌, Bytes, List, [], ◌∷◌, if◌then◌else◌, some, ◌≡◌, refl,
  sym, ap, ◌∙◌, arith, Bool-cases, inl, inr,
}
use fabric_sim.GoMap.{GoMap, lookup, insert, lookup-insert, lookup-insert_self}
use fabric_sim.Topo.Schema.{Port, Device, Topology}
use fabric_sim.Topo.Text.{port_id}
use fabric_sim.Topo.Wired.{IsPortOf}
use fabric_sim.Topo.Loader.Loaded.{create_ports-number}
use fabric_sim.Topo.Netcfg.{text_or_empty, map_ports, port_map_of}
use fabric_sim.Topo.Netcfg.Runs.{runs, runs-port_id}

-- Every id of a port in the map has two runs, and the map has the given keys.
abbrev pub HaveRuns : GoMap Bytes Bytes → Type 0
HaveRuns m = (key port : Bytes) → lookup key m ≡ some port → 2 ≤ runs port

abbrev pub Has : Bytes → GoMap Bytes Bytes → Type 0
Has key m = (port : Bytes) × (lookup key m ≡ some port)

insert-HaveRuns :
    (key port : Bytes) (m : GoMap Bytes Bytes)
    → 2 ≤ runs port
    → HaveRuns m
    → HaveRuns (insert key port m)
insert-HaveRuns key port m new old k p h =
    let e : (if key == k then some port else lookup k m) ≡ some p =
      sym (lookup-insert key k port m) ∙ h in
    elim (Bool-cases (key == k)) [
      | inl same ↦ subst (λ x. 2 ≤ runs x) (ap text_or_empty (rw same at e)) new
      | inr other ↦ old k p (rw other at e)
    ]

insert-Has_self : (key port : Bytes) (m : GoMap Bytes Bytes) → Has key (insert key port m)
insert-Has_self key port m = (port, lookup-insert_self key port m)

insert-Has : (key port k : Bytes) (m : GoMap Bytes Bytes) → Has k m → Has k (insert key port m)
insert-Has key port k m (p, h) = elim (Bool-cases (key == k)) [
  | inl same ↦ (port, lookup-insert key k port m ∙ rw same refl)
  | inr other ↦ (p, lookup-insert key k port m ∙ rw other h)
]

map_ports-HaveRuns :
    (id : Bytes) (ps : List Port) (m : GoMap Bytes Bytes)
    → 1 ≤ runs id
    → HaveRuns m
    → HaveRuns (map_ports id ps m)
unfolding map_ports
map_ports-HaveRuns id [] m h r = r
map_ports-HaveRuns id (p ∷ ps) m h r = map_ports-HaveRuns id ps _ h (
    insert-HaveRuns (port_id id p.number) (port_id id p.sdn_number) m
      (runs-port_id id p.sdn_number h) r)

map_ports-keeps :
    (id : Bytes) (ps : List Port) (m : GoMap Bytes Bytes) (k : Bytes)
    → Has k m
    → Has k (map_ports id ps m)
unfolding map_ports
map_ports-keeps id [] m k h = h
map_ports-keeps id (p ∷ ps) m k h = map_ports-keeps id ps _ k (insert-Has _ _ k m h)

map_ports-Has :
    (id : Bytes) (ps : List Port) (m : GoMap Bytes Bytes) (p : Port)
    → Memᴰ p ps
    → Has (port_id id p.number) (map_ports id ps m)
unfolding map_ports
map_ports-Has id [] m p i = elim i [ ]
map_ports-Has id (q ∷ ps) m p (Memᴰ.head e) =
    map_ports-keeps id ps _ (port_id id p.number)
      (rw e (insert-Has_self (port_id id q.number) (port_id id q.sdn_number) m))
map_ports-Has id (q ∷ ps) m p (Memᴰ.tail i) = map_ports-Has id ps _ p i

pub port_map_of-HaveRuns :
    (ds : List Device) (m : GoMap Bytes Bytes)
    → ((d : Device) → Memᴰ d ds → 1 ≤ runs d.id)
    → HaveRuns m
    → HaveRuns (port_map_of ds m)
unfolding port_map_of
port_map_of-HaveRuns [] m h r = r
port_map_of-HaveRuns (d ∷ ds) m h r =
    port_map_of-HaveRuns ds _ (λ x i. h x (Memᴰ.tail i))
      (map_ports-HaveRuns d.id d.ports m (h d (Memᴰ.head refl)) r)

port_map_of-keeps :
    (ds : List Device) (m : GoMap Bytes Bytes) (k : Bytes) → Has k m → Has k (port_map_of ds m)
unfolding port_map_of
port_map_of-keeps [] m k h = h
port_map_of-keeps (d ∷ ds) m k h = port_map_of-keeps ds _ k (map_ports-keeps d.id d.ports m k h)

port_map_of-Has :
    (ds : List Device) (m : GoMap Bytes Bytes) (d : Device) (p : Port)
    → Memᴰ d ds
    → Memᴰ p d.ports
    → Has (port_id d.id p.number) (port_map_of ds m)
unfolding port_map_of
port_map_of-Has [] m d p i j = elim i [ ]
port_map_of-Has (x ∷ ds) m d p (Memᴰ.head e) j = port_map_of-keeps ds _ (port_id d.id p.number) (
    subst (λ y. Has (port_id d.id p.number) (map_ports y.id y.ports m)) e
      (map_ports-Has d.id d.ports m p j))
port_map_of-Has (x ∷ ds) m d p (Memᴰ.tail i) j = port_map_of-Has ds _ d p i j

pub no_entry : (k p : Bytes) → lookup k [] ≡ some p → ⊥
unfolding lookup
no_entry k p h = absurd (ground (arith, h))

-- A port of a switch of the topology is a key of the map.
pub IsPortOf-Has :
    (size : Bytes → ℕ) (t : Topology) (port : Bytes)
    → ((id : Bytes) → size id < 2 ^ 32)
    → IsPortOf size port t
    → Has port (port_map_of t.devices [])
IsPortOf-Has size t port small p =
    let d = p.switch.device in
    let (pd, i, e) = create_ports-number (size p.id) p.number (small p.id) p.first p.last in
    let i' : Memᴰ pd d.ports = subst (λ ps. Memᴰ pd ps) (sym p.switch.sized) i in
    let same : port_id d.id pd.number ≡ port = rw p.switch.named (rw e (sym p.spelled)) in
    subst (λ x. Has x (port_map_of t.devices [])) same
      (port_map_of-Has t.devices [] d pd p.switch.among i')
