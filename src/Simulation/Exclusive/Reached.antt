-- ===== src/Simulation/Exclusive/Reached.antt =====
-- The states of the inventory that sequences of its operations reach.
use mathlib.Core.List.{Memᴰ}
use fabric_sim.Prelude.{bytes_eq, ◌==◌, Bytes, List, [], ◌∷◌, false, some, ◌≡◌, refl}
use fabric_sim.GoMap.{lookup}
use fabric_sim.Outcome.{Outcome, done, failed, panic, state_or, Leaves, returned, refused, crashed}
use fabric_sim.Device.State.{Port, Device}
use fabric_sim.Simulation.Ports.{Link, Host, Simulation, new_simulation, add_device, remove_device}
use fabric_sim.Simulation.Links.{add_link, remove_link, add_link-IsPlaced, add_link_failed}
use fabric_sim.Simulation.Hosts.{add_host, remove_host}
use fabric_sim.Simulation.Exclusive.{IsLocal, IsConsistent, sources_apart}
use fabric_sim.Simulation.Exclusive.Preserved.{
  add_link-IsConsistent, remove_link-IsConsistent, remove_host-IsConsistent,
}
use fabric_sim.Simulation.Exclusive.Devices.{add_device-IsConsistent, remove_device-IsConsistent}
use fabric_sim.Simulation.Exclusive.Placed.{add_host-IsConsistent}

-- The calls that change the inventory.
pub data Call : Type 0 where
  adds_device : Device → Call
  removes_device : Bytes → Call
  adds_link : Link → Call
  removes_link : Bytes → Call
  adds_host : Host → Call
  removes_host : Bytes → Call

unfoldable pub answer : Call → Simulation → Outcome Simulation
unfolding add_device remove_device add_link remove_link add_host remove_host
answer (adds_device d) s = add_device d s
answer (removes_device id) s = remove_device id s
answer (adds_link l) s = add_link l s
answer (removes_link id) s = remove_link id s
answer (adds_host h) s = add_host h s
answer (removes_host id) s = remove_host id s

-- Calls one after the other; one that returns an error does not stop the next.
unfoldable pub run : List Call → Simulation → Simulation
unfolding answer
run [] s = s
run (call ∷ calls) s = run calls (state_or s (answer call s))

-- A device that is added has local port ids.
abbrev pub IsLocalCall : Call → Type 0
IsLocalCall (adds_device d) = (p : Port) → Memᴰ p d.ports → IsLocal p.id
IsLocalCall _ = Unit

abbrev pub AreLocal : List Call → Type 0
AreLocal [] = Unit
AreLocal (call ∷ calls) = IsLocalCall call × AreLocal calls

new_simulation-IsConsistent : IsConsistent new_simulation
unfolding lookup
new_simulation-IsConsistent = record {
  link_id = λ id l h. absurd (cc);
  link_egress = λ id l h. absurd (cc);
  link_ingress = λ id l h inner. absurd (cc);
  nic_egress = λ id h n found among. absurd (cc);
  nic_ingress = λ id h n found among. absurd (cc);
  nic_local = λ id h n found among. absurd (cc);
  hosts_apart = λ id id' h h' n n' found found' other i i'. absurd (cc);
  port_local = λ id d port p found at_port. absurd (cc);
}

add_link-Leaves : (l : Link) (s : Simulation) → IsConsistent s → Leaves IsConsistent (add_link l s)
add_link-Leaves l s c = go (add_link l s) refl
  where
    go : (m : Outcome Simulation) → add_link l s ≡ m → Leaves IsConsistent m
    go (done s') h = returned (add_link-IsConsistent l s s' (add_link-IsPlaced l s s' h) c)
    go (failed e s') h = refused (rw (add_link_failed l s e s' h) c)
    go panic h = crashed

answer-IsConsistent :
    (call : Call) (s : Simulation)
    → IsLocalCall call
    → IsConsistent s
    → Leaves IsConsistent (answer call s)
unfolding answer
answer-IsConsistent (adds_device d) s local c = add_device-IsConsistent d s local c
answer-IsConsistent (removes_device id) s local c = remove_device-IsConsistent id s c
answer-IsConsistent (adds_link l) s local c = add_link-Leaves l s c
answer-IsConsistent (removes_link id) s local c = remove_link-IsConsistent id s c
answer-IsConsistent (adds_host h) s local c = add_host-IsConsistent h s c
answer-IsConsistent (removes_host id) s local c = remove_host-IsConsistent id s c

Leaves-state_or :
    (s : Simulation) (m : Outcome Simulation)
    → IsConsistent s
    → Leaves IsConsistent m
    → IsConsistent (state_or s m)
Leaves-state_or s (done u) c (returned p) = p
Leaves-state_or s (failed e u) c (refused p) = p
Leaves-state_or s panic c crashed = c

run-IsConsistent :
    (calls : List Call) (s : Simulation)
    → AreLocal calls
    → IsConsistent s
    → IsConsistent (run calls s)
unfolding run
run-IsConsistent [] s local c = c
run-IsConsistent (call ∷ calls) s local c =
    run-IsConsistent calls (state_or s (answer call s)) local.1
      (Leaves-state_or s (answer call s) c (answer-IsConsistent call s local.0 c))

-- Whatever calls the inventory has answered since it was made, with or without an error, its links
-- and hosts are those that the uses of their ports name, each under its own id, and no two hosts
-- share a port. The devices that were added must have port ids without "::".
pub reached-IsConsistent :
    (calls : List Call) → AreLocal calls → IsConsistent (run calls new_simulation)
reached-IsConsistent calls local =
    run-IsConsistent calls new_simulation local new_simulation-IsConsistent

-- In any inventory that calls have reached, two links with different ids leave different ports.
-- The devices that were added must have port ids without "::".
pub reached-sources_apart :
    (calls : List Call) (id id' : Bytes) (l l' : Link)
    → AreLocal calls
    → lookup id (run calls new_simulation).links ≡ some l
    → lookup id' (run calls new_simulation).links ≡ some l'
    → (id == id') ≡ false
    → (l.src_id == l'.src_id) ≡ false
reached-sources_apart calls id id' l l' local =
    sources_apart (run calls new_simulation) id id' l l' (reached-IsConsistent calls local)
