-- ===== src/Topo/Builder.antt =====
-- The Builder of pkg/topo/generator.go, and the switches and the links that it makes.
use fabric_sim.Prelude.{
  ℕ, zero, suc, ◌+◌, ◌%◌, ◌^◌, Bytes, codes, bytes_eq, List, [], ◌∷◌, ◌++◌, false, ltb,
  if◌then◌else◌, Option, none, some,
}
use fabric_sim.GoMap.{GoMap, lookup, insert}
use fabric_sim.Topo.Schema.{GridPosition, Port, Device, Link, Host, Topology, empty_topology}
use fabric_sim.Topo.Text.{port_id}

-- Builder, and the topology that it is passed along with
pub record Build : Type 0 where
  pub agent_port : ℕ
  pub next_port : GoMap Bytes ℕ
  pub min_port : GoMap Bytes ℕ
  pub max_port : GoMap Bytes ℕ
  pub topology : Topology

-- NewBuilder
abbrev pub new_builder : Build
new_builder = record {
  agent_port = 0;
  next_port = [];
  min_port = [];
  max_port = [];
  topology = empty_topology;
}

-- A read of a map of ports: 0 for a missing key.
unfoldable pub port_of : Bytes → GoMap Bytes ℕ → ℕ
port_of id ports = elim (lookup id ports) [ none ↦ 0 | some n ↦ n ]

-- NextAgentPort
unfoldable pub next_agent_port : Build → Build × ℕ
next_agent_port b = (record b { agent_port = b.agent_port + 1 }, b.agent_port + 20000)

-- The number that NextDevicePortID is about to give.
unfoldable pub port_number : Bytes → Build → ℕ
port_number id b = elim (lookup id b.next_port) [ none ↦ 1 | some n ↦ n ]

-- NextDevicePortID
unfoldable pub next_device_port_id : Bytes → Build → Build × Bytes
unfolding port_of port_number port_id
next_device_port_id id b =
    let next = port_number id b + 1 in
    let after = if ltb (port_of id b.max_port) next then port_of id b.min_port else next in
    (record b { next_port = insert id after b.next_port }, port_id id (port_number id b))

-- createPorts, from a number and for a count of ports
unfoldable pub ports_from : ℕ → ℕ → List Port
ports_from i zero = []
ports_from i (suc count) =
    (record { number = i; sdn_number = (i + 200) % 2 ^ 32; speed = codes "100GB" })
    ∷ ports_from (i + 1) count

unfoldable pub create_ports : ℕ → List Port
unfolding ports_from
create_ports count = ports_from 1 (count % 2 ^ 32)

-- createSwitch
unfoldable pub create_switch : Bytes → ℕ → Option GridPosition → Build → Build
unfolding next_agent_port create_ports
create_switch id port_count grid b =
    let (b', agent_port) = next_agent_port b in
    let device : Device = record {
      id = id;
      chassis_id = 0;
      type = codes "switch";
      agent_port = agent_port;
      stopped = false;
      ports = create_ports port_count;
      grid = grid;
    } in
    record b' {
      min_port = insert id 1 b'.min_port;
      max_port = insert id port_count b'.max_port;
      topology = record b'.topology { devices = b'.topology.devices ++ device ∷ [] };
    }

unfoldable pub append_link : Link → Build → Build
append_link l b = record b { topology = record b.topology { links = b.topology.links ++ l ∷ [] } }

unfoldable pub append_host : Host → Build → Build
append_host h b = record b { topology = record b.topology { hosts = b.topology.hosts ++ h ∷ [] } }

-- createLinkTrunk
unfoldable pub create_link_trunk : Bytes → Bytes → ℕ → Build → Build
unfolding next_device_port_id append_link
create_link_trunk src tgt zero b = b
create_link_trunk src tgt (suc count) b =
    let (b1, from) = next_device_port_id src b in
    let (b2, to) = next_device_port_id tgt b1 in
    create_link_trunk src tgt count
      (append_link (record { src = from; tgt = to; unidirectional = false }) b2)

-- builder.minPort[id] = builder.nextPort[id]
unfoldable pub latch_min_port : Bytes → Build → Build
unfolding port_of
latch_min_port id b = record b { min_port = insert id (port_of id b.next_port) b.min_port }
