-- ===== src/Simulation/Ports.antt =====
-- The state of the inventory of pkg/simulator/core.go, its devices and the tests of port ids.
use fabric_sim.Prelude.{
  ℕ, nat_eq, bytes_eq, ◌==◌, Bytes, codes, contains, List, [], ◌∷◌, ◌++◌, Bool, Option, none, some,
  if◌then◌else◌, ◌≡◌, refl, arith,
}
use fabric_sim.Device.State.{Device, DeviceSim, new_device_simulator}
use fabric_sim.GoMap.{values, GoMap, lookup, insert, delete}
use fabric_sim.Outcome.{Error, not_found, invalid, Outcome, done, failed, Result, ok, err}

pub data LinkStatus : Type 0 where
  link_down link_up : LinkStatus

-- simapi.Link, with the status that it is added with.
pub record Link : Type 0 where
  pub id : Bytes
  pub src_id : Bytes
  pub tgt_id : Bytes
  pub status : LinkStatus

-- simapi.NetworkInterface: its id is that of the device port that it is attached to.
pub record Nic : Type 0 where
  pub id : Bytes
  pub mac : Bytes
  pub ip : Bytes

-- simapi.Host
pub record Host : Type 0 where
  pub id : Bytes
  pub interfaces : List Nic

-- linkOrNIC: exactly one of the two pointers is set wherever one is made.
pub data Use : Type 0 where
  by_link : Link → Use
  by_nic : Nic → Use

-- An EmitLLDPPacket request to another simulation.
pub record PeerPacket : Type 0 where
  pub domain : Bytes
  pub payload : Bytes
  pub port_id : Bytes

-- Simulation. A LinkSimulator is its link and a HostSimulator its host. `set_status` is what was
-- since written into the status of a link, by the id of the link, `peers` says of a peer whether it has a client, and
-- `sent_to_peers` is what was sent to them, the newest first.
pub record Simulation : Type 0 where
  pub devices : GoMap Bytes DeviceSim
  pub links : GoMap Bytes Link
  pub hosts : GoMap Bytes Host
  pub used_egress : GoMap Bytes Use
  pub used_ingress : GoMap Bytes Use
  pub set_status : GoMap Bytes LinkStatus
  pub peers : GoMap Bytes Bool
  pub sent_to_peers : List PeerPacket

-- NewSimulation
abbrev pub new_simulation : Simulation
new_simulation = record {
  devices = [];
  links = [];
  hosts = [];
  used_egress = [];
  used_ingress = [];
  set_status = [];
  peers = [];
  sent_to_peers = [];
}

abbrev pub slash : ℕ
slash = 47

-- The part of an id before its first slash: strings.SplitN(id, "/", 2)[0], if there are two parts.
unfoldable pub before_slash : Bytes → Option Bytes
before_slash [] = none
before_slash (c ∷ s) =
    let rest = before_slash s in
    if c == slash then some [] else elim rest [ none ↦ none | some d ↦ some (c ∷ d) ]

-- ExtractDeviceID
unfoldable pub extract_device_id : Bytes → Option Bytes
unfolding before_slash
extract_device_id id = before_slash id

-- validatePort: the error, or none for nil.
unfoldable pub validate_port : Bytes → GoMap Bytes DeviceSim → Option Error
unfolding extract_device_id
validate_port id devices = elim (extract_device_id id) [
  | none ↦ some invalid
  | some device_id ↦ elim (lookup device_id devices) [
    | none ↦ some not_found
    | some d ↦ elim (lookup id d.ports) [ none ↦ some not_found | some port ↦ none ]
  ]
]

-- isExternalLink
unfoldable pub is_external_link : Link → Bool
is_external_link l = contains (codes "::") l.tgt_id

-- AddDeviceSimulator
unfoldable pub add_device : Device → Simulation → Outcome Simulation
unfolding new_device_simulator
add_device device s = elim (lookup device.id s.devices) [
  | some old ↦ failed invalid s
  | none ↦ done (record s { devices = insert device.id (new_device_simulator device) s.devices })
]

-- RemoveDeviceSimulator, apart from the stop of the device's agent, whose server is taken to
-- have been started.
unfoldable pub remove_device : Bytes → Simulation → Outcome Simulation
remove_device id s = elim (lookup id s.devices) [
  | some d ↦ done (record s { devices = delete id s.devices })
  | none ↦ failed not_found s
]

-- GetDeviceSimulator
unfoldable pub get_device : Bytes → Simulation → Result DeviceSim
get_device id s = elim (lookup id s.devices) [ some d ↦ ok d | none ↦ err not_found ]

-- GetDeviceSimulatorForPort
unfoldable pub get_device_for_port : Bytes → Simulation → Result DeviceSim
unfolding extract_device_id get_device
get_device_for_port id s = elim (extract_device_id id) [
  | none ↦ err invalid
  | some device_id ↦ get_device device_id s
]

-- The id of a device is read back from the id of any of its ports, whatever the port's own part
-- is, since that of the device has no slash.
pub extract_device_id-append :
    (device rest : Bytes)
    → extract_device_id device ≡ none
    → extract_device_id (device ++ slash ∷ rest) ≡ some device
unfolding extract_device_id before_slash
extract_device_id-append [] rest free = refl
extract_device_id-append (c ∷ device) rest free =
    let before = extract_device_id-append device rest in ground arith

-- GetDeviceSimulators
unfoldable pub device_list : Simulation → List DeviceSim
device_list s = values s.devices
