-- ===== src/Topo/Loader/Plain.antt =====
-- A generated plain fabric, loaded.
use mathlib.Core.Path.{subst}
use mathlib.Core.List.{Memᴰ}
use fabric_sim.Prelude.{
  ◌^◌, ◌-◌, ◌≤◌, ◌<◌, bytes_eq, List, [], ◌∷◌, false, ◌≡◌, refl, sym, ap, arith,
}
use fabric_sim.GoMap.{lookup}
use fabric_sim.Outcome.{done}
use fabric_sim.Simulation.Ports.{Simulation, new_simulation}
use fabric_sim.Simulation.Attached.{Exists}
use fabric_sim.Topo.Schema.{Device, Link, Host, Nic}
use fabric_sim.Topo.Fabrics.{PlainFabric, generate_plain_fabric}
use fabric_sim.Topo.Fabrics.Ids.{ids_of, generate_plain_fabric_ids}
use fabric_sim.Topo.Fabrics.Names.{
  AreDistinct, fabric_ids-AreDistinct, fabric_ids-extract_device_id,
}
use fabric_sim.Topo.Wired.PlainFabric.{plain_size, generate_plain_fabric-IsWired}
use fabric_sim.Topo.Loader.{create_devices}
use fabric_sim.Topo.Loader.Created.{HaveDistinctIds}
use fabric_sim.Topo.Loader.Loaded.{create_devices-Exists}

ids_of-Memᴰ : (d : Device) (ds : List Device) → Memᴰ d ds → Memᴰ d.id (ids_of ds)
ids_of-Memᴰ d [] m = elim m [ ]
ids_of-Memᴰ d (x ∷ ds) (Memᴰ.head e) = Memᴰ.head (ap (λ y. y.id) e)
ids_of-Memᴰ d (x ∷ ds) (Memᴰ.tail m) = Memᴰ.tail (ids_of-Memᴰ d ds m)

AreDistinct-HaveDistinctIds : (ds : List Device) → AreDistinct (ids_of ds) → HaveDistinctIds ds
AreDistinct-HaveDistinctIds [] a = tt
AreDistinct-HaveDistinctIds (d ∷ ds) a =
    (λ x m. a.0 x.id (ids_of-Memᴰ x ds m), AreDistinct-HaveDistinctIds ds a.1)

-- A plain fabric without infrastructure processing units, with a spine, a link to each spine, a
-- spine port that is not reserved and a leaf port, and with fewer than 2 ^ 32 - 1 ports for each
-- switch (and for each unit that the recipe describes): the loader creates all its devices in a new
-- simulation, and then both ports of each of its links and the port of each network interface of its
-- hosts exist. Whether the loader then accepts the links and hosts is not stated.
pub generate_plain_fabric-Exists :
    (f : PlainFabric)
    → f.hosts_have_ipu ≡ false
    → 1 ≤ f.spines
    → 1 ≤ f.spine_trunk
    → f.reserved_uplink_count < f.spine_port_count
    → 1 ≤ f.leaf_port_count
    → f.spine_port_count < 2 ^ 32 - 1
    → f.leaf_port_count < 2 ^ 32 - 1
    → f.vms_per_ipu < 2 ^ 32 - 4
    → (s' : Simulation) × (create_devices (generate_plain_fabric f).devices new_simulation
        ≡ done s')
      × ((l : Link) → Memᴰ l (generate_plain_fabric f).links → Exists l.src s' × Exists l.tgt s')
      × ((h : Host) (n : Nic)
          → Memᴰ h (generate_plain_fabric f).hosts
          → Memᴰ n h.nics
          → Exists n.port s')
unfolding lookup
generate_plain_fabric-Exists f no_ipu spine trunk downlink port small_spine small_leaf small_ipu =
    let ids = generate_plain_fabric_ids f no_ipu in
    let t = generate_plain_fabric f in
    create_devices-Exists (plain_size f) t new_simulation (λ id. ground arith)
      (AreDistinct-HaveDistinctIds t.devices
        (subst AreDistinct (sym ids) (fabric_ids-AreDistinct f.spines f.leaves)))
      (λ d m. refl)
      (λ d m.
        fabric_ids-extract_device_id f.spines f.leaves d.id
          (subst (Memᴰ d.id) ids (ids_of-Memᴰ d t.devices m)))
      (generate_plain_fabric-IsWired f spine trunk downlink port)
