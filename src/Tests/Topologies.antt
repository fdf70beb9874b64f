-- ===== src/Tests/Topologies.antt =====
-- The theorems on topologies, at small fabrics.
use mathlib.Core.List.{Memᴰ}
use fabric_sim.Prelude.{
  bytes_eq, nat_eq, ◌≤◌, List, ◌∷◌, some, length, ◌<◌, ◌^◌, ◌+◌, Bytes, codes, [], ◌++◌, true,
  false, ◌≡◌, refl, arith,
}
use fabric_sim.Outcome.{done}
use fabric_sim.Simulation.Ports.{Simulation, new_simulation}
use fabric_sim.Simulation.Attached.{Exists}
use fabric_sim.Topo.Schema.{Device, Link, Host, Nic}
use fabric_sim.Topo.Text.{decimal}
use fabric_sim.Topo.Builder.{create_ports}
use fabric_sim.Topo.Fabrics.{
  PlainFabric, AccessFabric, generate_plain_fabric, generate_access_fabric,
}
use fabric_sim.Topo.Wired.{IsWired}
use fabric_sim.Topo.Wired.PlainFabric.{plain_size, generate_plain_fabric-IsWired}
use fabric_sim.Topo.Wired.AccessFabric.{access_size, generate_access_fabric-IsWired}
use fabric_sim.Topo.Loader.{create_devices}
use fabric_sim.Topo.Loader.Plain.{generate_plain_fabric-Exists}
use fabric_sim.Topo.Netcfg.{
  Netcfg, digit_runs, get_index, replace_first, create_onos_command, generate_netcfg,
}
use fabric_sim.Topo.Netcfg.Total.{nic_count, generate_netcfg-Makes}
use fabric_sim.Topo.Robot.{pid, no_device}
use fabric_sim.Topo.Robot.Ports.{pid-create_ports}

-- One spine and one leaf of two ports, and three hosts, so that the ports of the leaf wrap around.
abbrev plain : PlainFabric
plain = record {
  spines = 1;
  spine_port_count = 4;
  reserved_uplink_count = 1;
  leaves = 1;
  leaf_port_count = 2;
  spine_trunk = 1;
  hosts_per_leaf = 3;
  hosts_have_ipu = false;
  vms_per_ipu = 0;
}

generate_plain_fabric-IsWired_example : IsWired (plain_size plain) (generate_plain_fabric plain)
generate_plain_fabric-IsWired_example =
    generate_plain_fabric-IsWired plain (omega arith) (omega arith) (omega arith) (omega arith)

-- A pair of leaves with a host that has a unit for infrastructure.
abbrev access : AccessFabric
access = record {
  spines = 1;
  spine_port_count = 4;
  leaf_pairs = 1;
  leaf_port_count = 4;
  spine_trunk = 1;
  pair_trunk = 1;
  hosts_per_pair = 1;
  hosts_have_ipu = true;
  vms_per_ipu = 2;
}

generate_access_fabric-IsWired_example :
    IsWired (access_size access) (generate_access_fabric access)
generate_access_fabric-IsWired_example =
    generate_access_fabric-IsWired access (omega arith) (omega arith) (omega arith) (omega arith)

small : (id : Bytes) → plain_size plain id < 2 ^ 32
small id = ground arith

digits_in_ids :
    (d : Device) → Memᴰ d (generate_plain_fabric plain).devices → 1 ≤ length (digit_runs d.id)
unfolding generate_plain_fabric digit_runs
digits_in_ids d (Memᴰ.head e) = rw e (omega arith)
digits_in_ids d (Memᴰ.tail (Memᴰ.head e)) = rw e (omega arith)
digits_in_ids d (Memᴰ.tail (Memᴰ.tail m)) = elim m [ ]

generate_netcfg-Makes_example :
    (n : Netcfg) × (commands : List Bytes) × (generate_netcfg
        (generate_plain_fabric plain)
        (codes "stratum")
        (codes "org.fabric.p4")
        (100 ∷ 200 ∷ [])
      ≡ some (n, commands))
    × (length commands ≡ nic_count (generate_plain_fabric plain).hosts)
generate_netcfg-Makes_example =
    generate_netcfg-Makes (plain_size plain) (generate_plain_fabric plain) (codes "stratum")
      (codes "org.fabric.p4") (100 ∷ 200 ∷ [])
      (generate_plain_fabric-IsWired plain (omega arith) (omega arith) (omega arith) (omega arith))
      small digits_in_ids (omega arith)

generate_plain_fabric-Exists_example :
    (s' : Simulation) × (create_devices (generate_plain_fabric plain).devices new_simulation
      ≡ done s')
    × ((l : Link) → Memᴰ l (generate_plain_fabric plain).links → Exists l.src s' × Exists l.tgt s')
    × ((h : Host) (n : Nic)
        → Memᴰ h (generate_plain_fabric plain).hosts
        → Memᴰ n h.nics
        → Exists n.port s')
generate_plain_fabric-Exists_example =
    generate_plain_fabric-Exists plain refl (omega arith) (omega arith) (omega arith) (omega arith)
      (omega arith) (omega arith) (omega arith)

abbrev two_ports : Device
two_ports = record no_device { ports = create_ports 2 }

pid-create_ports_example :
    pid (decimal 2) two_ports
    ≡ codes "[" ++ (decimal 2 ++ (codes "](" ++ (decimal (2 + 200) ++ codes ")")))
pid-create_ports_example =
    pid-create_ports 2 2 two_ports refl (omega arith) (omega arith) (omega arith)

leaf_device : get_index (codes "leaf12") ≡ 12
unfolding get_index
leaf_device = refl

too_large : get_index (codes "leaf70000") ≡ 0
unfolding get_index
too_large = refl

one_command :
    create_onos_command
      (record { mac = []; ipv4 = []; ipv6 = []; port = codes "leaf1/2" })
      100
      ((codes "leaf1/2", codes "leaf1/202") ∷ [])
    ≡ some (codes "create-logical-switch-port t100l1p202 100 device:leaf1/202 1000 false\n")
unfolding create_onos_command
one_command = refl

virtual_pipeline :
    replace_first (codes ".fabric.") (codes ".fabric-vn.") (codes "a.fabric.b.fabric.c")
    ≡ codes "a.fabric-vn.b.fabric.c"
unfolding replace_first
virtual_pipeline = refl
