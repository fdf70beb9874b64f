-- ===== src/Simulation/Status.antt =====
-- EnablePort and DisablePort of pkg/simulator/device.go, which change a device and the link that
-- leaves its port.
use fabric_sim.Prelude.{bytes_eq, Bytes, Bool, true, false, none, some}
use fabric_sim.GoMap.{lookup, insert}
use fabric_sim.Outcome.{Outcome, failed, lift, ok, err}
use fabric_sim.Device.State.{DeviceSim, enable_port}
use fabric_sim.Simulation.Ports.{
  LinkStatus, link_up, link_down, Link, by_link, by_nic, Simulation, get_device_for_port,
}

abbrev pub enabled_of : LinkStatus → Bool
enabled_of link_up = true
enabled_of link_down = false

-- The end of setPortStatus: the status of a link that leaves the port.
unfoldable pub set_link_status : Bytes → LinkStatus → Simulation → Simulation
set_link_status id status s = elim (lookup id s.used_egress) [
  | none ↦ s
  | some (by_nic n) ↦ s
  | some (by_link l) ↦ record s { set_status = insert l.id status s.set_status }
]

-- setPortStatus of a device of the inventory
unfoldable pub set_port_status : Bytes → LinkStatus → DeviceSim → Simulation → Outcome Simulation
unfolding enable_port set_link_status
set_port_status id status d s =
    lift (λ d'. set_link_status id status (record s { devices = insert d.device.id d' s.devices }))
      (enable_port id (enabled_of status) d)

-- Server.EnablePort and Server.DisablePort of pkg/northbound/fabricsim/devices.go: an error of
-- the search for the device, or that of setPortStatus.
unfoldable pub change_port : Bytes → LinkStatus → Simulation → Outcome Simulation
unfolding get_device_for_port set_port_status
change_port id status s = elim (get_device_for_port id s) [
  | err e ↦ failed e s
  | ok d ↦ set_port_status id status d s
]

-- The status that a link has.
unfoldable pub link_status : Link → Simulation → LinkStatus
link_status l s = elim (lookup l.id s.set_status) [ none ↦ l.status | some st ↦ st ]
