-- ===== src/Device/State.antt =====
-- DeviceSimulator of pkg/simulator/device.go: one simulated device, its ports and its streams.
use fabric_sim.Prelude.{
  ℕ, suc, nat_eq, bytes_eq, ◌==◌, Bytes, List, [], ◌∷◌, ◌++◌, Bool, Option, none, some, get_elem?,
  set, if◌then◌else◌,
}
use fabric_sim.GoMap.{GoMap, lookup, insert}
use fabric_sim.Outcome.{not_found, Outcome, done, failed, panic}
use fabric_sim.Device.Pipeline.{Pipeline, new_pipeline}
use fabric_sim.Device.Election.{Elections}
use fabric_sim.Device.Streams.{Message, Stream, send}

-- simapi.Port
pub record Port : Type 0 where
  pub id : Bytes
  pub name : Bytes
  pub number : ℕ
  pub internal_number : ℕ
  pub speed : Bytes
  pub enabled : Bool

-- simapi.Device, the fields that the simulator reads. Its ports are pointers: the list holds what
-- they point to, and a pointer is an index of it. A connection may be a nil pointer.
pub record Device : Type 0 where
  pub id : Bytes
  pub chassis_id : ℕ
  pub ports : List Port
  pub connections : List (Option Bytes)
  pub total_connections : ℕ

-- DeviceSimulator, apart from its agent and the parts that libraries implement.
pub record DeviceSim : Type 0 where
  pub device : Device
  pub ports : GoMap Bytes ℕ
  pub sdn_ports : GoMap ℕ ℕ
  pub pipeline : Pipeline
  pub elections : Elections
  pub streams : List Stream

-- The loop of NewDeviceSimulator over the ports from index `i`.
unfoldable pub add_ports : ℕ → List Port → DeviceSim → DeviceSim
add_ports i [] d = d
add_ports i (p ∷ ps) d =
    add_ports (suc i) ps (record d {
      ports = insert p.id i d.ports;
      sdn_ports = insert p.internal_number i d.sdn_ports;
    })

-- NewDeviceSimulator
unfoldable pub new_device_simulator : Device → DeviceSim
unfolding add_ports
new_device_simulator device = add_ports 0 device.ports (record {
  device = record device { connections = [] };
  ports = [];
  sdn_ports = [];
  pipeline = new_pipeline;
  elections = [];
  streams = [];
})

-- What a pointer of one of the two maps points to.
unfoldable pub deref : Option ℕ → DeviceSim → Option Port
deref none d = none
deref (some i) d = get_elem? d.device.ports i

-- ds.Ports[id]
unfoldable pub port_by_id : Bytes → DeviceSim → Option Port
unfolding deref
port_by_id id d = deref (lookup id d.ports) d

-- ds.sdnPorts[number]
unfoldable pub port_by_number : ℕ → DeviceSim → Option Port
unfolding deref
port_by_number number d = deref (lookup number d.sdn_ports) d

-- A write through a pointer to a port.
unfoldable pub put_port : ℕ → Port → DeviceSim → DeviceSim
put_port i p d = record d { device = record d.device { ports = set d.device.ports i p } }

-- setPortStatus, as far as the device goes; the state of its configuration tree is left out.
unfoldable pub enable_port : Bytes → Bool → DeviceSim → Outcome DeviceSim
unfolding put_port
enable_port id enabled d = elim (lookup id d.ports) [
  | none ↦ failed not_found d
  | some i ↦ elim (get_elem? d.device.ports i) [
    | none ↦ panic
    | some p ↦ done (put_port i (record p { enabled = enabled }) d)
  ]
]

-- AddStreamResponder
unfoldable pub add_stream_responder : Stream → DeviceSim → DeviceSim
add_stream_responder st d = record d {
  streams = d.streams ++ st ∷ [];
  device = record d.device {
    connections = d.device.connections ++ st.connection ∷ [];
    total_connections = suc d.device.total_connections;
  };
}

-- The loop of RemoveStreamResponder.
unfoldable pub remove_stream : ℕ → List Stream → List Stream
remove_stream address [] = []
remove_stream address (st ∷ sts) =
    let rest = remove_stream address sts in if st.address == address then sts else st ∷ rest

-- removeConnection, whose first statement reads the connection: the first one from the same address
-- is removed, unless a nil pointer is met before.
unfoldable pub remove_connection : Option Bytes → List (Option Bytes) → Option (List (Option Bytes))
remove_connection none cs = none
remove_connection (some from) [] = some []
remove_connection (some from) (none ∷ cs) = none
remove_connection (some from) (some c ∷ cs) =
    let rest = remove_connection (some from) cs in
    if c == from then some cs else elim rest [ none ↦ none | some cs' ↦ some (some c ∷ cs') ]

-- RemoveStreamResponder
unfoldable pub remove_stream_responder : Stream → DeviceSim → Outcome DeviceSim
unfolding remove_stream remove_connection
remove_stream_responder st d = elim (remove_connection st.connection d.device.connections) [
  | none ↦ panic
  | some cs ↦ done (record d {
    device = record d.device { connections = cs };
    streams = remove_stream st.address d.streams;
  })
]

-- SendToAllResponders
unfoldable pub send_each : Message → List Stream → List Stream
unfolding send
send_each m [] = []
send_each m (st ∷ sts) = send m st ∷ send_each m sts

unfoldable pub send_to_all_responders : Message → DeviceSim → DeviceSim
unfolding send_each
send_to_all_responders m d = record d { streams = send_each m d.streams }
