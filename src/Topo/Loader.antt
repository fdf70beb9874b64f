-- ===== src/Topo/Loader.antt =====
-- The loader of pkg/topo/loader.go, which adds a topology to a simulation, or removes all that there
-- is. `link_id` stands for NewLinkID of the API.
pub mod Created
pub mod Loaded
pub mod Tidy
pub mod Cleared
pub mod Plain
use fabric_sim.Prelude.{
  ℕ, zero, nat_eq, bytes_eq, ◌==◌, Bytes, codes, List, [], ◌∷◌, ◌++◌, map, Bool, true, false,
  if◌then◌else◌, Option, none, some,
}
use fabric_sim.Outcome.{Error, Outcome, done, failed, panic, ◌>>=◌}
use fabric_sim.Outcome.Each.{each}
use fabric_sim.Device.State.{DeviceSim}
use fabric_sim.Device.State as State
use fabric_sim.Simulation.Ports as Ports
use fabric_sim.Simulation.Ports.{link_up, Simulation, add_device, remove_device, device_list}
use fabric_sim.Simulation.Links.{add_link, remove_link, link_list}
use fabric_sim.Simulation.Hosts.{add_host, remove_host, host_list}
use fabric_sim.Topo.Schema.{Port, Device, Link, Nic, Host, Topology}
use fabric_sim.Topo.Text.{decimal, port_id}

-- ConstructDevice, whose SDN number is the number of the port if it is 0.
unfoldable pub construct_port : Bytes → Port → State.Port
unfolding port_id
construct_port id pd = record {
  id = port_id id pd.number;
  name = decimal pd.number;
  number = pd.number;
  internal_number = if pd.sdn_number == 0 then pd.number else pd.sdn_number;
  speed = pd.speed;
  enabled = true;
}

unfoldable pub construct_device : Device → State.Device
unfolding construct_port
construct_device dd = record {
  id = dd.id;
  chassis_id = 0;
  ports = map (construct_port dd.id) dd.ports;
  connections = [];
  total_connections = 0;
}

-- ConstructHost
unfoldable pub construct_nic : Nic → Ports.Nic
construct_nic nd = record { id = nd.port; mac = nd.mac; ip = nd.ipv4 }

unfoldable pub construct_host : Host → Ports.Host
unfolding construct_nic
construct_host hd = record { id = hd.id; interfaces = map construct_nic hd.nics }

-- The loop of createDevices. The start of the agent of a device is left out.
unfoldable pub create_device : Device → Simulation → Outcome Simulation
unfolding construct_device
create_device dd s = add_device (construct_device dd) s

unfoldable pub create_devices : List Device → Simulation → Outcome Simulation
unfolding create_device each
create_devices = each create_device

unfoldable pub create_hosts : List Host → Simulation → Outcome Simulation
unfolding construct_host each
create_hosts = each (λ hd s. add_host (construct_host hd) s)

module _ (link_id : Bytes → Bytes → Bytes) where
  -- ConstructLink
  unfoldable pub construct_link : Link → Ports.Link
  construct_link ld = record {
    id = link_id ld.src ld.tgt;
    src_id = ld.src;
    tgt_id = ld.tgt;
    status = link_up;
  }

  -- constructReverseLink
  unfoldable pub construct_reverse_link : Link → Ports.Link
  construct_reverse_link ld = record {
    id = link_id ld.tgt ld.src;
    src_id = ld.tgt;
    tgt_id = ld.src;
    status = link_up;
  }

  -- The loop of createLinks
  unfoldable pub create_link : Link → Simulation → Outcome Simulation
  unfolding construct_link construct_reverse_link
  create_link ld s =
      if ld.unidirectional
      then add_link (construct_link ld) s
      else add_link (construct_link ld) s >>= add_link (construct_reverse_link ld)

  unfoldable pub create_links : List Link → Simulation → Outcome Simulation
  unfolding create_link each
  create_links = each create_link

  -- LoadTopology, of a topology that was read.
  unfoldable pub load_topology : Topology → Simulation → Outcome Simulation
  unfolding create_devices create_links create_hosts
  load_topology t s = create_devices t.devices s >>= create_links t.links >>= create_hosts t.hosts

-- removeAllHosts, removeAllLinks and removeAllDevices
unfoldable pub remove_all_hosts : Simulation → Outcome Simulation
unfolding host_list each
remove_all_hosts s = each (λ h. remove_host h.id) (host_list s) s

unfoldable pub remove_all_links : Simulation → Outcome Simulation
unfolding link_list each
remove_all_links s = each (λ l. remove_link l.id) (link_list s) s

unfoldable pub remove_all_devices : Simulation → Outcome Simulation
unfolding device_list each
remove_all_devices s = each (λ d. remove_device d.device.id) (device_list s) s

-- ClearTopology
unfoldable pub clear_topology : Simulation → Outcome Simulation
unfolding remove_all_hosts remove_all_links remove_all_devices
clear_topology s = remove_all_hosts s >>= remove_all_links >>= remove_all_devices
