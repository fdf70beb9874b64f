-- ===== src/Simulation/Exclusive/Placed.antt =====
-- A new host of pkg/simulator/core.go keeps the uses of the ports consistent.
use fabric_sim.Prelude.{
  bytes_eq, nat_eq, ◌==◌, Bytes, List, true, false, none, some, ◌≡◌, refl, ◌∙◌, ◌⊎◌, arith,
  Bool-cases, Option-cases, inl, inr,
}
use fabric_sim.GoMap.{lookup, insert, lookup-insert}
use fabric_sim.Outcome.{Leaves, returned, refused}
use fabric_sim.Outcome.Rules.{Leaves-option}
use fabric_sim.Simulation.Ports.{
  Nic, Host, Use, by_link, by_nic, Simulation, validate_port, extract_device_id,
}
use fabric_sim.Simulation.Hosts.{
  add_host, check_nics, take_nics, IsApart, take_nics-IsApart, take_nics-takes, check_nics-IsFree,
}
use fabric_sim.Simulation.Exclusive.{IsLocal, IsConsistent}

-- A port that was found on a device is local.
validate_port-IsLocal :
    (id : Bytes) (s : Simulation) → IsConsistent s → validate_port id s.devices ≡ none → IsLocal id
unfolding validate_port
validate_port-IsLocal id s c h = elim (Option-cases (extract_device_id id)) [
  | inl bad ↦ absurd (ground arith)
  | inr (d, named) ↦ elim (Option-cases (lookup d s.devices)) [
    | inl bad ↦ absurd (ground arith)
    | inr (sim, found) ↦ elim (Option-cases (lookup id sim.ports)) [
      | inl bad ↦ absurd (ground arith)
      | inr (port, at_port) ↦ c.port_local d sim id port found at_port
    ]
  ]
]

-- A used port is not one of those that the checks of AddHostSimulator let pass.
egress-IsApart :
    (port : Bytes) (u : Use) (ns : List Nic) (s : Simulation)
    → check_nics ns s ≡ none
    → lookup port s.used_egress ≡ some u
    → IsApart port ns
egress-IsApart port u ns s fine used n i =
    let free = check_nics-IsFree ns s fine n i in
    ground (arith, free.egress_free, bytes_eq.beq_iff n.id port)

ingress-IsApart :
    (port : Bytes) (u : Use) (ns : List Nic) (s : Simulation)
    → check_nics ns s ≡ none
    → lookup port s.used_ingress ≡ some u
    → IsApart port ns
ingress-IsApart port u ns s fine used n i =
    let free = check_nics-IsFree ns s fine n i in
    ground (arith, free.ingress_free, bytes_eq.beq_iff n.id port)

egress-kept :
    (port : Bytes) (u : Use) (ns : List Nic) (s : Simulation)
    → check_nics ns s ≡ none
    → lookup port s.used_egress ≡ some u
    → lookup port (take_nics ns s.used_egress) ≡ some u
egress-kept port u ns s fine used =
    take_nics-IsApart port ns s.used_egress (egress-IsApart port u ns s fine used) ∙ used

ingress-kept :
    (port : Bytes) (u : Use) (ns : List Nic) (s : Simulation)
    → check_nics ns s ≡ none
    → lookup port s.used_ingress ≡ some u
    → lookup port (take_nics ns s.used_ingress) ≡ some u
ingress-kept port u ns s fine used =
    take_nics-IsApart port ns s.used_ingress (ingress-IsApart port u ns s fine used) ∙ used

-- What the host at an id is after one was added.
host_after :
    (h : Host) (s : Simulation) (id : Bytes) (g : Host)
    → lookup id (insert h.id h s.hosts) ≡ some g
    → (((h.id == id) ≡ true) × (g ≡ h)) ⊎ (((h.id == id) ≡ false) × (lookup id s.hosts ≡ some g))
host_after h s id g found = elim (Bool-cases (h.id == id)) [
  | inl here ↦ inl (here, ground (arith, lookup-insert h.id id h s.hosts))
  | inr there ↦ inr (there, ground (arith, lookup-insert h.id id h s.hosts))
]

placed_host-IsConsistent :
    (h : Host) (s : Simulation)
    → check_nics h.interfaces s ≡ none
    → IsConsistent s
    → IsConsistent (record s {
      hosts = insert h.id h s.hosts;
      used_egress = take_nics h.interfaces s.used_egress;
      used_ingress = take_nics h.interfaces s.used_ingress;
    })
placed_host-IsConsistent h s fine c = record {
  link_id = c.link_id;
  link_egress =
      λ id l found. egress-kept l.src_id (by_link l) h.interfaces s fine (c.link_egress id l found);
  link_ingress = λ id l found inner.
      ingress-kept l.tgt_id (by_link l) h.interfaces s fine (c.link_ingress id l found inner);
  nic_egress = λ id g n found among. elim (host_after h s id g found) [
    | inl (here, same) ↦
        take_nics-takes n h.interfaces s.used_egress
          (let q : g.interfaces ≡ h.interfaces = rw same refl in rw (← q) among)
    | inr (there, before) ↦
        let (m, used) = c.nic_egress id g n before among in
        (m, egress-kept n.id (by_nic m) h.interfaces s fine used)
  ];
  nic_ingress = λ id g n found among. elim (host_after h s id g found) [
    | inl (here, same) ↦
        take_nics-takes n h.interfaces s.used_ingress
          (let q : g.interfaces ≡ h.interfaces = rw same refl in rw (← q) among)
    | inr (there, before) ↦
        let (m, used) = c.nic_ingress id g n before among in
        (m, ingress-kept n.id (by_nic m) h.interfaces s fine used)
  ];
  nic_local = λ id g n found among. elim (host_after h s id g found) [
    | inl (here, same) ↦ validate_port-IsLocal n.id s c (
        (check_nics-IsFree h.interfaces s fine n
          (let q : g.interfaces ≡ h.interfaces = rw same refl in rw (← q) among)).exists)
    | inr (there, before) ↦ c.nic_local id g n before among
  ];
  hosts_apart = λ id id' g g' n n' found found' other i i'. elim (host_after h s id g found) [
    | inl (here, same) ↦ elim (host_after h s id' g' found') [
      | inl (here', same') ↦ absurd (
          ground
            (arith, bytes_eq.beq_iff h.id id, bytes_eq.beq_iff h.id id', bytes_eq.beq_iff id id'))
      | inr (there', before') ↦
          let (m, used) = c.nic_egress id' g' n' before' i' in
          egress-IsApart n'.id (by_nic m) h.interfaces s fine used n
            (let q : g.interfaces ≡ h.interfaces = rw same refl in rw (← q) i)
    ]
    | inr (there, before) ↦ elim (host_after h s id' g' found') [
      | inl (here', same') ↦
          let (m, used) = c.nic_egress id g n before i in
          ground (
            arith,
            egress-IsApart n.id (by_nic m) h.interfaces s fine used n'
                (let q : g'.interfaces ≡ h.interfaces = rw same' refl in rw (← q) i'),
            bytes_eq.beq_iff n.id n'.id,
            bytes_eq.beq_iff n'.id n.id,
          )
      | inr (there', before') ↦ c.hosts_apart id id' g g' n n' before before' other i i'
    ]
  ];
  port_local = c.port_local;
}

-- A new host.
pub add_host-IsConsistent :
    (h : Host) (s : Simulation) → IsConsistent s → Leaves IsConsistent (add_host h s)
unfolding add_host
add_host-IsConsistent h s c = elim (Option-cases (check_nics h.interfaces s)) [
  | inl fine ↦
      rw (fine, add_host)
        (Leaves-option (lookup h.id s.hosts) (returned (placed_host-IsConsistent h s fine c))
          (λ old found. refused c))
  | inr (e, bad) ↦ rw (bad, add_host) (refused c)
]
