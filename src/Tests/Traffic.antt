-- ===== src/Tests/Traffic.antt =====
-- The theorems on packets, at two devices with a link between them and a host.
use fabric_sim.Prelude.{
  ℕ, nat_eq, bytes_eq, Bytes, codes, List, [], ◌∷◌, ◌++◌, true, false, none, some, ◌≡◌, refl, sym,
  ap, ◌∙◌,
}
use mathlib.Core.Path.{subst}
use fabric_sim.Simulation.RandomHost.{Draw, random_host}
use fabric_sim.GoMap.{lookup, insert}
use fabric_sim.Outcome.{done, state_or}
use fabric_sim.Device.Pipeline.{PipelineConfig, Pipeline, new_pipeline}
use fabric_sim.Device.Punt.{has_punt_rule}
use fabric_sim.Device.Streams.{PacketMetadata, new_stream}
use fabric_sim.Device.State.{Port, DeviceSim, new_device_simulator, port_by_id, port_by_number}
use fabric_sim.Device.Packets.{PacketInMetadata}
use fabric_sim.Simulation.Ports.{
  Simulation, link_down, Host, by_link, new_simulation, extract_device_id, is_external_link,
}
use fabric_sim.Simulation.Links.{get_link_from_port}
use fabric_sim.Simulation.Lldp.{lldp_type, process_packet_out}
use fabric_sim.Simulation.Lldp.Delivery.{Arrives, process_packet_out-Arrives}
use fabric_sim.Simulation.Exclusive.Reached.{adds_device, adds_link, adds_host, removes_link}
use fabric_sim.Simulation.Attached.{IsAttached}
use fabric_sim.Simulation.Attached.Inventory.{new_simulation-IsAttached}
use fabric_sim.Simulation.Attached.Kept.{put-Keeps}
use fabric_sim.Simulation.Attached.Events.{
  Event, inventory, port_changed, packet_out, arp_requests, Libraries, perform_all,
  perform_all_settles,
}
use fabric_sim.Tests.Inventory.{device, there, host}

-- A codec with one number, and libraries that take any packet for LLDP.
abbrev pub encode : PipelineConfig → PacketInMetadata → List PacketMetadata
encode config md = (record { metadata_id = 1; value = md.ingress_port ∷ [] }) ∷ []

abbrev pub egress_of : PipelineConfig → List PacketMetadata → ℕ
egress_of config [] = 0
egress_of config (md ∷ mds) = 1

abbrev pub libraries : Libraries
libraries = record {
  encode = encode;
  egress_of = egress_of;
  is_lldp = λ payload. true;
  dials = λ domain. true;
  arp_request = λ wanted mac ip. some wanted;
}

abbrev pub out_of_first : List PacketMetadata
out_of_first = (record { metadata_id = 1; value = 1 ∷ [] }) ∷ []

abbrev inventory_events : List Event
inventory_events =
    inventory (adds_device (device (codes "a")))
    ∷ inventory (adds_device (device (codes "b")))
    ∷ inventory (adds_link there)
    ∷ inventory (adds_host host)
    ∷ []

-- What the inventory is then.
reached :
    (s : Simulation) × (perform_all libraries inventory_events new_simulation ≡ done s)
    × IsAttached s
reached = perform_all_settles libraries inventory_events new_simulation tt new_simulation-IsAttached

abbrev punting : Pipeline
punting = record new_pipeline { codec_set = true; punt_to_cpu = (35020, 7) ∷ [] }

unfoldable sender : DeviceSim
unfolding new_device_simulator
sender = record (new_device_simulator (device (codes "a"))) { pipeline = punting }

unfoldable pub receiver : DeviceSim
unfolding new_device_simulator
receiver = record (new_device_simulator (device (codes "b"))) {
  pipeline = punting;
  streams = new_stream 1 none ∷ [];
}

abbrev other_host : Host
other_host = record { id = codes "g"; interfaces = [] }

unfoldable pub linked : Simulation
unfolding sender receiver
linked = record new_simulation {
  devices = (codes "a", sender) ∷ (codes "b", receiver) ∷ [];
  links = (codes "l1", there) ∷ [];
  hosts = (codes "h", host) ∷ (codes "g", other_host) ∷ [];
  used_egress = (codes "a/1", by_link there) ∷ [];
  used_ingress = (codes "b/1", by_link there) ∷ [];
}

unfoldable built : Simulation
unfolding perform_all
built = state_or new_simulation (perform_all libraries inventory_events new_simulation)

built_done : perform_all libraries inventory_events new_simulation ≡ done built
unfolding built lookup insert
built_done = refl

built-IsAttached : IsAttached built
built-IsAttached =
    subst IsAttached (ap (state_or new_simulation) (sym reached.1 ∙ built_done)) reached.2

-- Both devices punt LLDP, and a stream is open at the second one.
unfoldable ready : Simulation
unfolding built sender receiver lookup fabric_sim.GoMap.insert
ready = record built {
  devices = insert (codes "b") receiver (insert (codes "a") sender built.devices);
}

first_held : lookup (codes "a") built.devices ≡ some (new_device_simulator (device (codes "a")))
unfolding built lookup insert
first_held = refl

second_held :
    lookup (codes "b") (insert (codes "a") sender built.devices)
    ≡ some (new_device_simulator (device (codes "b")))
unfolding built lookup insert
second_held = refl

ready-IsAttached : IsAttached ready
unfolding ready sender receiver
ready-IsAttached =
    (put-Keeps (codes "b") (new_device_simulator (device (codes "b"))) receiver
      (record built { devices = insert (codes "a") sender built.devices }) ready second_held
      (record { same_id = refl; same_map = refl; same_count = refl }) refl refl refl
      (put-Keeps (codes "a") (new_device_simulator (device (codes "a"))) sender built
        (record built { devices = insert (codes "a") sender built.devices }) first_held
        (record { same_id = refl; same_map = refl; same_count = refl }) refl refl refl
        built-IsAttached).attached).attached

-- A packet-out that arrives, one after the link was disabled, and an ARP request.
abbrev pub events : List Event
events =
    packet_out (codes "a") (codes "lldp") out_of_first
    ∷ arp_requests (codes "h") (codes "m") (codes "10.0.0.1" ∷ [])
    ∷ port_changed (codes "b/1") link_down
    ∷ packet_out (codes "a") (codes "lldp") out_of_first
    ∷ inventory (removes_link (codes "l1"))
    ∷ []

perform_all_settles_example :
    (s' : Simulation) × (perform_all libraries events ready ≡ done s') × IsAttached s'
perform_all_settles_example = perform_all_settles libraries events ready tt ready-IsAttached

abbrev first_port : Bytes → Port
first_port id = record {
  id = id;
  name = id;
  number = 1;
  internal_number = 1;
  speed = [];
  enabled = true;
}

out_port : port_by_number 1 sender ≡ some (first_port (codes "a/1"))
unfolding port_by_number sender lookup fabric_sim.GoMap.insert
out_port = refl

leaves : get_link_from_port (codes "a/1") linked ≡ some there
unfolding get_link_from_port linked lookup
leaves = refl

pub held : lookup (codes "b") linked.devices ≡ some receiver
unfolding lookup linked receiver
held = refl

target : port_by_id (codes "b/1") receiver ≡ some (first_port (codes "b/1"))
unfolding port_by_id receiver lookup fabric_sim.GoMap.insert
target = refl

punted : has_punt_rule lldp_type receiver.pipeline ≡ some 7
unfolding has_punt_rule receiver lookup
punted = refl

inner : is_external_link there ≡ false
unfolding is_external_link
inner = refl

named : (rest : Bytes) → extract_device_id (codes "b/" ++ rest) ≡ some (codes "b")
unfolding extract_device_id
named rest = refl

sender_codec : sender.pipeline.codec_set ≡ true
unfolding sender
sender_codec = refl

receiver_codec : receiver.pipeline.codec_set ≡ true
unfolding receiver
receiver_codec = refl

process_packet_out-Arrives_example :
    Arrives encode (codes "lldp") (codes "b") receiver (first_port (codes "b/1")) 7 linked (
      process_packet_out encode
        (λ domain. true)
        egress_of
        (λ payload. true)
        (codes "lldp")
        out_of_first
        sender
        linked)
process_packet_out-Arrives_example =
    process_packet_out-Arrives encode (λ domain. true) egress_of (λ payload. true) (codes "lldp")
      out_of_first sender (first_port (codes "a/1")) there (codes "b") receiver
      (first_port (codes "b/1")) 7 linked sender_codec refl out_port refl leaves inner
      (named (codes "1")) held target refl punted receiver_codec

-- The host itself is drawn first, and the other one in another order of the hosts.
abbrev draws : List Draw
draws =
    record { hosts = host ∷ other_host ∷ []; number = 0 }
    ∷ record { hosts = other_host ∷ host ∷ []; number = 0 }
    ∷ []

found_other : random_host (some host) draws ≡ some (some other_host)
unfolding random_host
found_other = refl
