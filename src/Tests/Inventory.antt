-- ===== src/Tests/Inventory.antt =====
-- The theorems on the inventory, at two devices and a link between them.
use mathlib.Core.List.{Memᴰ}
use fabric_sim.Prelude.{
  ℕ, ◌≡◌, refl, bytes_eq, Bytes, codes, List, [], ◌∷◌, ◌++◌, true, false, none, some, ◌==◌,
}
use fabric_sim.GoMap.{lookup}
use fabric_sim.Outcome.{done, state_or}
use fabric_sim.Device.State.{Port, Device}
use fabric_sim.Simulation.Ports.{link_up, Link, Host, Simulation, new_simulation, is_external_link}
use fabric_sim.Simulation.Links.{
  add_link, remove_link, IsPlaced, add_link-IsPlaced, remove-add_link,
}
use fabric_sim.Simulation.Exclusive.{IsLocal, IsConsistent}
use fabric_sim.Simulation.Exclusive.Reached.{
  Call, adds_device, adds_link, adds_host, run, AreLocal, reached-IsConsistent,
  reached-sources_apart,
}

abbrev pub port : Bytes → ℕ → Port
port id n = record {
  id = id;
  name = id;
  number = n;
  internal_number = n;
  speed = [];
  enabled = true;
}

abbrev pub device : Bytes → Device
device id = record {
  id = id;
  chassis_id = 1;
  ports = port (id ++ codes "/1") 1 ∷ port (id ++ codes "/2") 2 ∷ [];
  connections = [];
  total_connections = 0;
}

abbrev pub link : Bytes → Bytes → Bytes → Link
link id src tgt = record { id = id; src_id = src; tgt_id = tgt; status = link_up }

abbrev pub there : Link
there = link (codes "l1") (codes "a/1") (codes "b/1")

abbrev pub back : Link
back = link (codes "l2") (codes "b/1") (codes "a/1")

abbrev pub host : Host
host = record {
  id = codes "h";
  interfaces = record { id = codes "a/2"; mac = codes "m"; ip = codes "i" } ∷ [];
}

abbrev pub calls : List Call
calls =
    adds_device (device (codes "a"))
    ∷ adds_device (device (codes "b"))
    ∷ adds_link there
    ∷ adds_link back
    ∷ adds_host host
    ∷ []

ports-IsLocal :
    (id : Bytes)
    → IsLocal (id ++ codes "/1")
    → IsLocal (id ++ codes "/2")
    → (p : Port) → Memᴰ p (device id).ports
    → IsLocal p.id
ports-IsLocal id one two p (Memᴰ.head e) = rw e one
ports-IsLocal id one two p (Memᴰ.tail (Memᴰ.head e)) = rw e two
ports-IsLocal id one two p (Memᴰ.tail (Memᴰ.tail i)) = elim i [ ]

calls_local : AreLocal calls
calls_local = (
  ports-IsLocal (codes "a") refl refl,
  (ports-IsLocal (codes "b") refl refl, (tt, (tt, (tt, tt)))),
)

reached-IsConsistent_example : IsConsistent (run calls new_simulation)
reached-IsConsistent_example = reached-IsConsistent calls calls_local

there_found : lookup (codes "l1") (run calls new_simulation).links ≡ some there
unfolding run lookup fabric_sim.GoMap.insert
there_found = refl

back_found : lookup (codes "l2") (run calls new_simulation).links ≡ some back
unfolding run lookup fabric_sim.GoMap.insert
back_found = refl

reached-sources_apart_example : (there.src_id == back.src_id) ≡ false
reached-sources_apart_example =
    reached-sources_apart calls (codes "l1") (codes "l2") there back calls_local there_found
      back_found refl

unfoldable devices_only : Simulation
unfolding run
devices_only =
    run (adds_device (device (codes "a")) ∷ adds_device (device (codes "b")) ∷ []) new_simulation

unfoldable linked : Simulation
unfolding add_link
linked = state_or devices_only (add_link there devices_only)

accepted : add_link there devices_only ≡ done linked
unfolding linked lookup devices_only fabric_sim.GoMap.insert
accepted = refl

add_link-IsPlaced_example : IsPlaced there devices_only linked
add_link-IsPlaced_example = add_link-IsPlaced there devices_only linked accepted

not_external : is_external_link there ≡ true → lookup there.tgt_id devices_only.used_ingress ≡ none
unfolding is_external_link
not_external e = cc

remove-add_link_example :
    (s'' : Simulation) × (remove_link there.id linked ≡ done s'')
    × ((id : Bytes) → lookup id s''.links ≡ lookup id devices_only.links)
    × ((p : Bytes) → lookup p s''.used_egress ≡ lookup p devices_only.used_egress)
    × ((p : Bytes) → lookup p s''.used_ingress ≡ lookup p devices_only.used_ingress)
remove-add_link_example = remove-add_link there devices_only linked accepted not_external
