-- ===== src/Simulation/Hosts.antt =====
-- The hosts of pkg/simulator/core.go, whose interfaces are attached to ports of the devices.
use mathlib.Core.List.{Memᴰ}
use fabric_sim.Prelude.{
  bytes_eq, ◌==◌, Bytes, List, [], ◌∷◌, false, Option, none, some, is_some, if◌then◌else◌, ◌≡◌,
  refl, arith, Bool-cases, inl, inr,
}
use fabric_sim.GoMap.{values, GoMap, lookup, insert, delete, lookup-insert, lookup-delete}
use fabric_sim.Outcome.{Error, not_found, invalid, Outcome, done, failed, Result, ok, err}
use fabric_sim.Simulation.Ports.{Nic, Host, Use, by_nic, Simulation, validate_port}

-- The first loop of AddHostSimulator.
unfoldable pub check_nics : List Nic → Simulation → Option Error
unfolding validate_port
check_nics [] s = none
check_nics (n ∷ ns) s =
    let rest = check_nics ns s in
    elim (validate_port n.id s.devices) [
      | some e ↦ some e
      | none ↦
          if is_some (lookup n.id s.used_egress)
          then some invalid
          else if is_some (lookup n.id s.used_ingress)
          then some invalid
          else rest
    ]

-- The second one, for one of the two maps.
unfoldable pub take_nics : List Nic → GoMap Bytes Use → GoMap Bytes Use
take_nics [] used = used
take_nics (n ∷ ns) used = take_nics ns (insert n.id (by_nic n) used)

-- The loop of RemoveHostSimulator, for one of the two maps.
unfoldable pub free_nics : List Nic → GoMap Bytes Use → GoMap Bytes Use
free_nics [] used = used
free_nics (n ∷ ns) used = free_nics ns (delete n.id used)

-- AddHostSimulator, apart from the start of the host's requests.
unfoldable pub add_host : Host → Simulation → Outcome Simulation
unfolding check_nics take_nics
add_host h s = elim (check_nics h.interfaces s) [
  | some e ↦ failed e s
  | none ↦ elim (lookup h.id s.hosts) [
    | some old ↦ failed invalid s
    | none ↦ done (record s {
      hosts = insert h.id h s.hosts;
      used_egress = take_nics h.interfaces s.used_egress;
      used_ingress = take_nics h.interfaces s.used_ingress;
    })
  ]
]

-- RemoveHostSimulator, apart from the stop of the host's loop, which waits until the loop
-- takes the message and so may wait without end.
unfoldable pub remove_host : Bytes → Simulation → Outcome Simulation
unfolding free_nics
remove_host id s = elim (lookup id s.hosts) [
  | some h ↦ done (record s {
    hosts = delete id s.hosts;
    used_egress = free_nics h.interfaces s.used_egress;
    used_ingress = free_nics h.interfaces s.used_ingress;
  })
  | none ↦ failed not_found s
]

-- GetHostSimulator
unfoldable pub get_host : Bytes → Simulation → Result Host
get_host id s = elim (lookup id s.hosts) [ some h ↦ ok h | none ↦ err not_found ]

-- GetNetworkInterfaceByMac of host.go
unfoldable pub nic_by_mac : Bytes → List Nic → Option Nic
nic_by_mac mac [] = none
nic_by_mac mac (n ∷ ns) = if n.mac == mac then some n else nic_by_mac mac ns

-- No interface of the list is attached to the port.
abbrev pub IsApart : Bytes → List Nic → Type 0
IsApart port ns = (n : Nic) → Memᴰ n ns → (n.id == port) ≡ false

-- The ports that are not among those of the list keep their use.
pub take_nics-IsApart :
    (port : Bytes) (ns : List Nic) (used : GoMap Bytes Use)
    → IsApart port ns
    → lookup port (take_nics ns used) ≡ lookup port used
unfolding take_nics
take_nics-IsApart port [] used apart = refl
take_nics-IsApart port (n ∷ ns) used apart = ground (
  arith,
  apart n (Memᴰ.head refl),
  lookup-insert n.id port (by_nic n) used,
  take_nics-IsApart port ns (insert n.id (by_nic n) used) (λ m i. apart m (Memᴰ.tail i)),
)

pub free_nics-IsApart :
    (port : Bytes) (ns : List Nic) (used : GoMap Bytes Use)
    → IsApart port ns
    → lookup port (free_nics ns used) ≡ lookup port used
unfolding free_nics
free_nics-IsApart port [] used apart = refl
free_nics-IsApart port (n ∷ ns) used apart = ground (
  arith,
  apart n (Memᴰ.head refl),
  lookup-delete n.id port used,
  free_nics-IsApart port ns (delete n.id used) (λ m i. apart m (Memᴰ.tail i)),
)

-- A port that an interface has stays one.
take_nics-stays :
    (port : Bytes) (ns : List Nic) (used : GoMap Bytes Use) (m : Nic)
    → lookup port used ≡ some (by_nic m)
    → (m' : Nic) × (lookup port (take_nics ns used) ≡ some (by_nic m'))
unfolding take_nics
take_nics-stays port [] used m h = (m, h)
take_nics-stays port (n ∷ ns) used m h = elim (Bool-cases (n.id == port)) [
  | inl here ↦
      take_nics-stays port ns (insert n.id (by_nic n) used) n
        (ground (arith, lookup-insert n.id port (by_nic n) used))
  | inr there ↦
      take_nics-stays port ns (insert n.id (by_nic n) used) m
        (ground (arith, lookup-insert n.id port (by_nic n) used))
]

-- The port of every interface of the list is used by an interface.
pub take_nics-takes :
    (n : Nic) (ns : List Nic) (used : GoMap Bytes Use)
    → Memᴰ n ns
    → (m : Nic) × (lookup n.id (take_nics ns used) ≡ some (by_nic m))
unfolding take_nics
take_nics-takes n [] used i = elim i [ ]
take_nics-takes n (m ∷ ns) used (Memᴰ.head e) =
    take_nics-stays n.id ns (insert m.id (by_nic m) used) m
      (ground (arith, bytes_eq.beq_iff n.id n.id, lookup-insert m.id n.id (by_nic m) used))
take_nics-takes n (m ∷ ns) used (Memᴰ.tail i) = take_nics-takes n ns (insert m.id (by_nic m) used) i

-- What the checks of AddHostSimulator have found.
pub record IsFree (n : Nic) (s : Simulation) : Type 0 where
  pub exists : validate_port n.id s.devices ≡ none
  pub egress_free : lookup n.id s.used_egress ≡ none
  pub ingress_free : lookup n.id s.used_ingress ≡ none

pub check_nics-IsFree :
    (ns : List Nic) (s : Simulation) → check_nics ns s ≡ none → (n : Nic) → Memᴰ n ns → IsFree n s
unfolding check_nics
check_nics-IsFree [] s h n i = elim i [ ]
check_nics-IsFree (m ∷ ns) s h n (Memᴰ.head e) =
    rw e (record { exists = ground arith; egress_free = ground arith; ingress_free = ground arith })
check_nics-IsFree (m ∷ ns) s h n (Memᴰ.tail i) = check_nics-IsFree ns s (ground arith) n i

-- GetHostSimulators
unfoldable pub host_list : Simulation → List Host
host_list s = values s.hosts
