-- ===== src/Simulation/Links.antt =====
-- The links of pkg/simulator/core.go.
use fabric_sim.Prelude.{
  List, bytes_eq, ◌==◌, Bytes, Bool, true, false, Option, none, some, is_some, if◌then◌else◌, ◌≡◌,
  refl, arith,
}
use fabric_sim.GoMap.{values, lookup, insert, delete, lookup-insert, lookup-delete}
use fabric_sim.Outcome.{Error, not_found, invalid, Outcome, done, failed, Result, ok, err}
use fabric_sim.Simulation.Ports.{Link, by_link, by_nic, Simulation, validate_port, is_external_link}

-- AddLinkSimulator, after the source port was found to exist and, but for an external link, the
-- target port.
unfoldable pub place_link : Link → Bool → Simulation → Outcome Simulation
place_link l external s =
    if is_some (lookup l.src_id s.used_egress)
    then failed invalid s
    else if (if external then false else is_some (lookup l.tgt_id s.used_ingress))
    then failed invalid s
    else elim (lookup l.id s.links) [
      | some old ↦ failed invalid s
      | none ↦ done (record s {
        links = insert l.id l s.links;
        used_egress = insert l.src_id (by_link l) s.used_egress;
        used_ingress =
            if external then s.used_ingress else insert l.tgt_id (by_link l) s.used_ingress;
        set_status = delete l.id s.set_status;
      })
    ]

-- AddLinkSimulator
unfoldable pub add_link : Link → Simulation → Outcome Simulation
unfolding place_link validate_port is_external_link
add_link l s = elim (validate_port l.src_id s.devices) [
  | some e ↦ failed e s
  | none ↦ elim (if is_external_link l then none else validate_port l.tgt_id s.devices) [
    | some e ↦ failed e s
    | none ↦ place_link l (is_external_link l) s
  ]
]

-- RemoveLinkSimulator
unfoldable pub remove_link : Bytes → Simulation → Outcome Simulation
remove_link id s = elim (lookup id s.links) [
  | some l ↦ done (record s {
    links = delete id s.links;
    used_egress = delete l.src_id s.used_egress;
    used_ingress = delete l.tgt_id s.used_ingress;
  })
  | none ↦ failed not_found s
]

-- GetLinkSimulator
unfoldable pub get_link : Bytes → Simulation → Result Link
get_link id s = elim (lookup id s.links) [ some l ↦ ok l | none ↦ err not_found ]

-- GetLinkFromPort
unfoldable pub get_link_from_port : Bytes → Simulation → Option Link
get_link_from_port port s = elim (lookup port s.used_egress) [
  | some (by_link l) ↦ some l
  | some (by_nic n) ↦ none
  | none ↦ none
]

-- What AddLinkSimulator has checked when it returns no error.
pub record IsPlaced (l : Link) (s s' : Simulation) : Type 0 where
  pub src_exists : validate_port l.src_id s.devices ≡ none
  pub tgt_exists : is_external_link l ≡ false → validate_port l.tgt_id s.devices ≡ none
  pub src_free : lookup l.src_id s.used_egress ≡ none
  pub tgt_free : is_external_link l ≡ false → lookup l.tgt_id s.used_ingress ≡ none
  pub id_free : lookup l.id s.links ≡ none
  pub links_after :
      (id : Bytes) → lookup id s'.links ≡ (if l.id == id then some l else lookup id s.links)
  pub egress_after :
      (port : Bytes)
      → lookup port s'.used_egress
        ≡ (if l.src_id == port then some (by_link l) else lookup port s.used_egress)
  pub ingress_after :
      (port : Bytes)
      → lookup port s'.used_ingress ≡ (
          if is_external_link l
          then lookup port s.used_ingress
          else if l.tgt_id == port
          then some (by_link l)
          else lookup port s.used_ingress)
  pub hosts_kept : s'.hosts ≡ s.hosts
  pub devices_kept : s'.devices ≡ s.devices

-- A link that AddLinkSimulator accepts has a source port that exists on a device and is free, a
-- target port that does and is unless the link is external, and a free id; it is then held under its
-- id and by its ports, and no other id or port, and no host or device, changes.
pub add_link-IsPlaced : (l : Link) (s s' : Simulation) → add_link l s ≡ done s' → IsPlaced l s s'
unfolding add_link place_link
add_link-IsPlaced l s s' h = record {
  src_exists = ground arith;
  tgt_exists = λ inner. ground arith;
  src_free = ground arith;
  tgt_free = λ inner. ground arith;
  id_free = ground arith;
  links_after = λ id. ground (arith, lookup-insert l.id id l s.links);
  egress_after = λ port. ground (arith, lookup-insert l.src_id port (by_link l) s.used_egress);
  ingress_after = λ port. ground (arith, lookup-insert l.tgt_id port (by_link l) s.used_ingress);
  hosts_kept = ground arith;
  devices_kept = ground arith;
}

-- An error of AddLinkSimulator leaves the inventory as it was.
pub add_link_failed :
    (l : Link) (s : Simulation) (e : Error) (s' : Simulation) → add_link l s ≡ failed e s' → s' ≡ s
unfolding add_link place_link
add_link_failed l s e s' h = ground arith

-- A removed link that was just added leaves the inventory as it was: the same links, and the same
-- uses of every port. An external link is removed from the ingress ports as well, so its target
-- must not be the id of one.
pub remove-add_link :
    (l : Link) (s s' : Simulation)
    → add_link l s ≡ done s'
    → (is_external_link l ≡ true → lookup l.tgt_id s.used_ingress ≡ none)
    → (s'' : Simulation) × (remove_link l.id s' ≡ done s'')
      × ((id : Bytes) → lookup id s''.links ≡ lookup id s.links)
      × ((port : Bytes) → lookup port s''.used_egress ≡ lookup port s.used_egress)
      × ((port : Bytes) → lookup port s''.used_ingress ≡ lookup port s.used_ingress)
unfolding remove_link
remove-add_link l s s' h apart =
    let placed = add_link-IsPlaced l s s' h in
    let found : lookup l.id s'.links ≡ some l =
      ground (arith, placed.links_after l.id, bytes_eq.beq_iff l.id l.id) in
    (
      record s' {
        links = delete l.id s'.links;
        used_egress = delete l.src_id s'.used_egress;
        used_ingress = delete l.tgt_id s'.used_ingress;
      },
      rw (found, remove_link) refl,
      λ id. ground (
        arith,
        placed.links_after id,
        lookup-delete l.id id s'.links,
        placed.id_free,
        bytes_eq.beq_iff l.id id,
      ),
      λ port. ground (
        arith,
        placed.egress_after port,
        lookup-delete l.src_id port s'.used_egress,
        placed.src_free,
        bytes_eq.beq_iff l.src_id port,
      ),
      λ port. ground (
        arith,
        placed.ingress_after port,
        lookup-delete l.tgt_id port s'.used_ingress,
        placed.tgt_free,
        apart,
        bytes_eq.beq_iff l.tgt_id port,
      ),
    )

-- The link that was just added is the one that leaves its source port.
pub get_link_from_port-add_link :
    (l : Link) (s s' : Simulation)
    → add_link l s ≡ done s'
    → get_link_from_port l.src_id s' ≡ some l
unfolding get_link_from_port
get_link_from_port-add_link l s s' h =
    let placed = add_link-IsPlaced l s s' h in
    ground (arith, placed.egress_after l.src_id, bytes_eq.beq_iff l.src_id l.src_id)

-- GetLinkSimulators
unfoldable pub link_list : Simulation → List Link
link_list s = values s.links
