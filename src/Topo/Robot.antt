-- ===== src/Topo/Robot.antt =====
-- The topology that pkg/topo/robot.go writes for tests of the controller.
pub mod Ports
use fabric_sim.Prelude.{
  ℕ, zero, ◌+◌, ◌-◌, ◌*◌, ◌^◌, nat_eq, bytes_eq, ◌==◌, Bytes, codes, List, [], ◌∷◌, ◌++◌, Bool,
  true, false, ltb, leb, ◌&&◌, not, if◌then◌else◌, Option, none, some,
}
use fabric_sim.Topo.Schema.{Port, Device, Link, Nic, Host, Topology}
use fabric_sim.Topo.Text.{decimal}

pub record RobotLink : Type 0 where
  pub target : Bytes
  pub source_port : Bytes
  pub target_port : Bytes

pub record RobotDevice : Type 0 where
  pub id : Bytes
  pub agent_port : ℕ
  pub links : List RobotLink

pub record RobotHostLink : Type 0 where
  pub device : Bytes
  pub port : Bytes

pub record RobotHost : Type 0 where
  pub id : Bytes
  pub mac : Bytes
  pub ip : Bytes
  pub gateway : Bytes
  pub vlan : Bytes
  pub tenant_id : Bytes
  pub links : List RobotHostLink

-- strings.SplitN(id, "/", 2), if there are two parts
unfoldable pub split_slash : Bytes → Option (Bytes × Bytes)
split_slash [] = none
split_slash (c ∷ s) =
    let rest = split_slash s in
    if c == 47 then some ([], s) else elim rest [ none ↦ none | some (a, b) ↦ some (c ∷ a, b) ]

abbrev pub is_digit : ℕ → Bool
is_digit c = leb 48 c && ltb c 58

-- The value of strconv.ParseUint(s, 10, 32) after the digits of `n`: 0 for a syntax error, and the
-- largest number for one that is out of range.
unfoldable pub parse_on : ℕ → Bytes → ℕ
parse_on n [] = n
parse_on n (c ∷ s) =
    let rest = parse_on (n * 10 + (c - 48)) s in
    if is_digit c then (if ltb (n * 10 + (c - 48)) (2 ^ 32) then rest else 2 ^ 32 - 1) else 0

unfoldable pub parse_uint : Bytes → ℕ
unfolding parse_on
parse_uint s = parse_on 0 s

-- did
unfoldable pub did : Bytes → Bytes
did id = codes "device:" ++ id

-- The loop of pid, in which the last port with the number counts
unfoldable pub internal_port : ℕ → ℕ → List Port → ℕ
internal_port id found [] = found
internal_port id found (p ∷ ps) =
    internal_port id (if p.number == id then p.sdn_number else found) ps

-- pid
unfoldable pub pid : Bytes → Device → Bytes
unfolding internal_port parse_uint decimal
pid name device =
    codes "["
    ++ (name
        ++ (codes "](" ++ (decimal (internal_port (parse_uint name) 0 device.ports) ++ codes ")")))

-- Device{}
abbrev pub no_device : Device
no_device = record {
  id = [];
  chassis_id = 0;
  type = [];
  agent_port = 0;
  stopped = false;
  ports = [];
  grid = none;
}

-- findDevice
unfoldable pub find_device : Bytes → List Device → Device
find_device id [] = no_device
find_device id (d ∷ ds) = let rest = find_device id ds in if id == d.id then d else rest

-- A round of the loop of createRobotDevice
unfoldable pub robot_link : Device → Topology → Link → Option RobotLink
unfolding split_slash did pid find_device
robot_link device t l = elim (split_slash l.src) [
  | none ↦ none
  | some (source, source_port) ↦ elim (split_slash l.tgt) [
    | none ↦ none
    | some (target, target_port) ↦
        if source == device.id
        then some (record {
          target = did target;
          source_port = pid source_port device;
          target_port = pid target_port (find_device target t.devices);
        })
        else if not l.unidirectional && (target == device.id)
        then some (record {
          target = did source;
          source_port = pid target_port device;
          target_port = pid source_port (find_device source t.devices);
        })
        else none
  ]
]

unfoldable pub robot_links : Device → Topology → List Link → List RobotLink
unfolding robot_link
robot_links device t [] = []
robot_links device t (l ∷ ls) =
    let rest = robot_links device t ls in
    elim (robot_link device t l) [ none ↦ rest | some r ↦ r ∷ rest ]

-- createRobotDevice
unfoldable pub create_robot_device : Device → Topology → RobotDevice
unfolding robot_links did
create_robot_device device t = record {
  id = did device.id;
  agent_port = device.agent_port;
  links = robot_links device t t.links;
}

-- strings.ToUpper of an ASCII text
unfoldable pub to_upper : Bytes → Bytes
to_upper [] = []
to_upper (c ∷ s) = (if leb 97 c && ltb c 123 then c - 32 else c) ∷ to_upper s

-- strings.ReplaceAll(s, ".0", ".")
unfoldable pub drop_zeros : Bytes → Bytes
drop_zeros [] = []
drop_zeros (c ∷ []) = c ∷ []
drop_zeros (c ∷ d ∷ s) =
    let after = drop_zeros s in
    let next = drop_zeros (d ∷ s) in if (c == 46) && (d == 48) then 46 ∷ after else c ∷ next

-- createRobotHost, which panics if the port id of the interface has no slash
unfoldable pub create_robot_host : Host → Nic → Topology → Option RobotHost
unfolding split_slash drop_zeros to_upper did pid find_device
create_robot_host host nic t = elim (split_slash nic.port) [
  | none ↦ none
  | some (device, port) ↦ some (record {
    id = host.id;
    mac = to_upper nic.mac;
    ip = drop_zeros nic.ipv4;
    gateway = drop_zeros nic.ipv4;
    vlan = codes "None";
    tenant_id = codes "0";
    links = (record { device = did device; port = pid port (find_device device t.devices) }) ∷ [];
  })
]
