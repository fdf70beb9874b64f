-- ===== src/Topo/Netcfg.antt =====
-- The network configuration that pkg/topo/netcfg.go makes of a topology, and the commands that
-- create the ports of its hosts. Tenants are natural numbers; the files are not modelled.
pub mod Runs
pub mod PortMap
pub mod Total
use fabric_sim.Prelude.{
  ℕ, zero, suc, ◌+◌, ◌*◌, ◌-◌, ◌%◌, ◌^◌, ℤ, pos, bytes_eq, Bytes, codes, has_prefix, List, [], ◌∷◌,
  ◌++◌, Bool, true, false, ltb, if◌then◌else◌, Option, none, some, length, get_elem?, nat_eq, ◌==◌,
}
use fabric_sim.GoMap.{GoMap, lookup, insert}
use fabric_sim.Topo.Schema.{GridPosition, Port, Device, Nic, Host, Topology}
use fabric_sim.Topo.Text.{decimal, two_digits, port_id}
use fabric_sim.Topo.Position.{◌-ℤ◌}
use fabric_sim.Topo.Robot.{is_digit, parse_uint, to_upper}

pub record NetcfgDeviceBasic : Type 0 where
  pub name : Bytes
  pub management_address : Bytes
  pub host_local_agent : Option Bytes
  pub driver : Bytes
  pub pipeconf : Bytes
  pub loc_type : Bytes
  pub grid_x : ℤ
  pub grid_y : ℤ

pub record NetcfgDeviceUnderlay : Type 0 where
  pub node_sid : ℕ
  pub loopbacks : List Bytes
  pub router_mac : Bytes
  pub is_edge_router : Bool

-- The reconciliation is the list of its required applications.
pub record NetcfgDevice : Type 0 where
  pub basic : NetcfgDeviceBasic
  pub underlay : NetcfgDeviceUnderlay
  pub required_apps : List Bytes

-- NetcfgHostBasic
pub record NetcfgHost : Type 0 where
  pub name : Bytes
  pub loc_type : Bytes
  pub grid_x : ℤ
  pub grid_y : ℤ

-- Netcfg, of which the program fills no port, since genPortConfig is false
pub record Netcfg : Type 0 where
  pub devices : GoMap Bytes NetcfgDevice
  pub hosts : GoMap Bytes NetcfgHost

abbrev pub starts_with_digit : Bytes → Bool
starts_with_digit [] = false
starts_with_digit (c ∷ s) = is_digit c

-- One more digit before the runs of digits of a text, whose first run it joins if they touch.
abbrev pub join_digit : ℕ → Bool → List Bytes → List Bytes
join_digit c false runs = (c ∷ []) ∷ runs
join_digit c true [] = (c ∷ []) ∷ []
join_digit c true (run ∷ runs) = (c ∷ run) ∷ runs

-- The matches of indexPattern, all of them
unfoldable pub digit_runs : Bytes → List Bytes
digit_runs [] = []
digit_runs (c ∷ s) =
    let rest = digit_runs s in if is_digit c then join_digit c (starts_with_digit s) rest else rest

-- getIndex; strconv.ParseUint fails for a run of digits that does not fit 16 bits
unfoldable pub get_index : Bytes → ℕ
unfolding digit_runs parse_uint
get_index id = elim (digit_runs id) [
  | [] ↦ 1
  | run ∷ runs ↦ if ltb (parse_uint run) (2 ^ 16) then parse_uint run else 0
]

-- isLeaf
unfoldable pub is_leaf : Bytes → Bool
is_leaf id = has_prefix (codes "leaf") id

abbrev drop : ℕ → Bytes → Bytes
drop n [] = []
drop zero (c ∷ s) = c ∷ s
drop (suc n) (c ∷ s) = drop n s

-- strings.Replace(s, old, new, 1)
unfoldable pub replace_first : Bytes → Bytes → Bytes → Bytes
replace_first old new [] = if has_prefix old [] then new else []
replace_first old new (c ∷ s) =
    let rest = replace_first old new s in
    if has_prefix old (c ∷ s) then new ++ drop (length old) (c ∷ s) else c ∷ rest

-- &GridPosition{}, or the position if there is one
abbrev position_or_origin : Option GridPosition → GridPosition
position_or_origin none = record { x = pos 0; y = pos 0 }
position_or_origin (some p) = p

-- %d of a number less one
unfoldable pub decimal_before : ℕ → Bytes
unfolding decimal
decimal_before n = if n == 0 then codes "-1" else decimal (n - 1)

-- createNetcfgDevice
unfoldable pub create_netcfg_device : Device → Bytes → Bytes → NetcfgDevice
unfolding get_index is_leaf replace_first decimal two_digits decimal_before
create_netcfg_device device driver pipeconf =
    let loc = position_or_origin device.grid in
    let index = get_index device.id in
    let leaf = is_leaf device.id in
    let required = codes "org.onosproject.underlay" in
    record {
      basic = record {
        name = device.id;
        management_address =
            codes "grpc://fabric-sim:" ++ (decimal device.agent_port ++ codes "?device_id=0");
        host_local_agent =
            if leaf
            then some (
                codes "grpc://sdfabric-host-local-agent-"
                ++ (decimal_before index ++ codes ".sdfabric-host-local-agent:11161"))
            else none;
        driver = if leaf then driver ++ codes "-la" else driver;
        pipeconf =
            if leaf
            then replace_first (codes ".fabric.") (codes ".fabric-vn.") pipeconf
            else pipeconf;
        loc_type = codes "grid";
        grid_x = loc.x;
        grid_y = loc.y;
      };
      underlay = record {
        node_sid = (if leaf then 100 else 200) + index;
        loopbacks =
            ((if leaf then codes "192.168.1." else codes "192.168.2.") ++ decimal index) ∷ [];
        router_mac =
            (if leaf then codes "00:AA:00:00:00:" else codes "00:BB:00:00:00:") ++ two_digits index;
        is_edge_router = leaf;
      };
      required_apps =
          if leaf
          then required
            ∷ codes "org.onosproject.virtualnetworking"
            ∷ codes "org.onosproject.localagents"
            ∷ []
          else required ∷ [];
    }

-- createNetcfgHost
abbrev pub create_netcfg_host : Host → NetcfgHost
create_netcfg_host host =
    let loc = position_or_origin host.grid in
    record { name = host.id; loc_type = codes "grid"; grid_x = loc.x; grid_y = loc.y }

abbrev pub text_or_empty : Option Bytes → Bytes
text_or_empty none = []
text_or_empty (some s) = s

-- The command for a port, which panics unless there are two runs of digits.
unfoldable pub command_for : Bytes → ℕ → List Bytes → Option Bytes
unfolding decimal parse_uint
command_for port tenant [] = none
command_for port tenant (run ∷ []) = none
command_for port tenant (run ∷ run' ∷ runs) = some (
    codes "create-logical-switch-port t"
    ++ (decimal tenant
        ++ (codes "l"
            ++ (decimal (parse_uint run)
                ++ (codes "p"
                    ++ (decimal (parse_uint run')
                        ++ (codes " "
                            ++ (decimal tenant
                                ++ (codes " device:"
                                    ++ (port
                                        ++ (codes " "
                                            ++ (decimal (tenant * 10)
                                                ++ codes " false\n"))))))))))))

-- createONOSCommand
unfoldable pub create_onos_command : Nic → ℕ → GoMap Bytes Bytes → Option Bytes
unfolding command_for digit_runs lookup
create_onos_command nic tenant port_map =
    let port = text_or_empty (lookup nic.port port_map) in command_for port tenant (digit_runs port)

-- The loop over the ports of a device
unfoldable pub map_ports : Bytes → List Port → GoMap Bytes Bytes → GoMap Bytes Bytes
unfolding insert port_id
map_ports id [] m = m
map_ports id (p ∷ ps) m = map_ports id ps (insert (port_id id p.number) (port_id id p.sdn_number) m)

unfoldable pub port_map_of : List Device → GoMap Bytes Bytes → GoMap Bytes Bytes
unfolding map_ports
port_map_of [] m = m
port_map_of (d ∷ ds) m = port_map_of ds (map_ports d.id d.ports m)

unfoldable pub netcfg_devices :
    Bytes → Bytes → List Device → GoMap Bytes NetcfgDevice → GoMap Bytes NetcfgDevice
unfolding insert create_netcfg_device
netcfg_devices driver pipeconf [] m = m
netcfg_devices driver pipeconf (d ∷ ds) m =
    netcfg_devices driver pipeconf ds
      (insert (codes "device:" ++ d.id) (create_netcfg_device d driver pipeconf) m)

-- What the loop over the hosts has made, and ti
pub record Output : Type 0 where
  pub hosts : GoMap Bytes NetcfgHost
  pub commands : List Bytes
  pub tenant_index : ℕ

-- A round of the loop over the interfaces of a host, which panics without a tenant
unfoldable pub add_nic : GoMap Bytes Bytes → List ℕ → Host → Nic → Output → Option Output
unfolding create_onos_command insert to_upper decimal
add_nic port_map tenants host nic o = elim (get_elem? tenants o.tenant_index) [
  | none ↦ none
  | some tenant ↦ elim (create_onos_command nic tenant port_map) [
    | none ↦ none
    | some command ↦ some (record {
      hosts =
          insert (to_upper nic.mac ++ (codes "/None[" ++ (decimal tenant ++ codes "]")))
            (create_netcfg_host host) o.hosts;
      commands = o.commands ++ command ∷ [];
      tenant_index = (o.tenant_index + 1) % length tenants;
    })
  ]
]

unfoldable pub add_nics :
    GoMap Bytes Bytes → List ℕ → Host → List Nic → Option Output → Option Output
unfolding add_nic
add_nics port_map tenants host nics none = none
add_nics port_map tenants host [] (some o) = some o
add_nics port_map tenants host (nic ∷ nics) (some o) =
    add_nics port_map tenants host nics (add_nic port_map tenants host nic o)

unfoldable pub add_hosts : GoMap Bytes Bytes → List ℕ → List Host → Option Output → Option Output
unfolding add_nics
add_hosts port_map tenants [] o = o
add_hosts port_map tenants (h ∷ hs) o =
    add_hosts port_map tenants hs (add_nics port_map tenants h h.nics o)

-- GenerateNetcfg, from the topology that was read to the configuration and the commands that are
-- written
unfoldable pub generate_netcfg : Topology → Bytes → Bytes → List ℕ → Option (Netcfg × List Bytes)
unfolding add_hosts port_map_of netcfg_devices
generate_netcfg t driver pipeconf tenants =
    let made =
      add_hosts (port_map_of t.devices []) tenants t.hosts
        (some (record { hosts = []; commands = []; tenant_index = 0 })) in
    elim made [
      | none ↦ none
      | some o ↦ some (
        record { devices = netcfg_devices driver pipeconf t.devices []; hosts = o.hosts },
        o.commands,
      )
    ]
