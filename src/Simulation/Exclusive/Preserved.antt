-- ===== src/Simulation/Exclusive/Preserved.antt =====
-- The operations of pkg/simulator/core.go keep the uses of the ports consistent.
use fabric_sim.Prelude.{bytes_eq, nat_eq, ◌==◌, Bytes, false, some, ◌≡◌, ◌∙◌, ◌⊎◌, arith, inl, inr}
use fabric_sim.GoMap.{lookup, delete, lookup-delete}
use fabric_sim.Outcome.{Leaves, returned, refused}
use fabric_sim.Outcome.Rules.{Leaves-option}
use fabric_sim.Simulation.Ports.{Link, Host, by_link, Simulation, is_external_link}
use fabric_sim.Simulation.Links.{remove_link, IsPlaced}
use fabric_sim.Simulation.Hosts.{remove_host, IsApart, free_nics-IsApart}
use fabric_sim.Simulation.Exclusive.{IsConsistent, sources_apart}

-- A link that was accepted.
pub add_link-IsConsistent :
    (l : Link) (s s' : Simulation) → IsPlaced l s s' → IsConsistent s → IsConsistent s'
add_link-IsConsistent l s s' p c = record {
  link_id = λ id m h. ground (arith, p.links_after id, c.link_id id m, bytes_eq.beq_iff l.id id);
  link_egress = λ id m h. ground (
    arith,
    p.links_after id,
    c.link_egress id m,
    p.egress_after m.src_id,
    p.src_free,
    bytes_eq.beq_iff l.src_id m.src_id,
  );
  link_ingress = λ id m h inner. ground (
    arith,
    p.links_after id,
    c.link_ingress id m,
    p.ingress_after m.tgt_id,
    p.tgt_free,
    bytes_eq.beq_iff l.tgt_id m.tgt_id,
  );
  nic_egress = λ id h n found among.
      let (m, used) = c.nic_egress id h n (rw p.hosts_kept at found) among in
      (m, ground (arith, p.egress_after n.id, p.src_free, bytes_eq.beq_iff l.src_id n.id));
  nic_ingress = λ id h n found among.
      let (m, used) = c.nic_ingress id h n (rw p.hosts_kept at found) among in
      (m, ground (arith, p.ingress_after n.id, p.tgt_free, bytes_eq.beq_iff l.tgt_id n.id));
  nic_local = λ id h n found among. c.nic_local id h n (rw p.hosts_kept at found) among;
  hosts_apart = λ id id' h h' n n' found found' other i i'.
      c.hosts_apart id id' h h' n n' (rw p.hosts_kept at found) (rw p.hosts_kept at found') other i
        i';
  port_local =
      λ id d port q found at_port. c.port_local id d port q (rw p.devices_kept at found) at_port;
}

-- The removal of a link.
pub remove_link-IsConsistent :
    (id : Bytes) (s : Simulation) → IsConsistent s → Leaves IsConsistent (remove_link id s)
unfolding remove_link is_external_link
remove_link-IsConsistent id s c = Leaves-option (lookup id s.links) (refused c) (λ l found.
    returned (record {
      link_id = λ i m h. ground (arith, lookup-delete id i s.links, c.link_id i m);
      link_egress = λ i m h. ground (
        arith,
        lookup-delete id i s.links,
        c.link_egress i m,
        lookup-delete l.src_id m.src_id s.used_egress,
        sources_apart s id i l m c found,
      );
      link_ingress = λ i m h inner. ground (
        arith,
        lookup-delete id i s.links,
        c.link_ingress i m,
        lookup-delete l.tgt_id m.tgt_id s.used_ingress,
        c.link_ingress id l found,
        c.link_id id l found,
        c.link_id i m,
        bytes_eq.beq_iff id i,
        bytes_eq.beq_iff l.tgt_id m.tgt_id,
      );
      nic_egress = λ i h n at_host among.
          let (m, used) = c.nic_egress i h n at_host among in
          (
            m,
            ground (
              arith,
              lookup-delete l.src_id n.id s.used_egress,
              c.link_egress id l found,
              bytes_eq.beq_iff l.src_id n.id,
            ),
          );
      nic_ingress = λ i h n at_host among.
          let (m, used) = c.nic_ingress i h n at_host among in
          (
            m,
            ground (
              arith,
              lookup-delete l.tgt_id n.id s.used_ingress,
              c.link_ingress id l found,
              c.nic_local i h n at_host among,
              bytes_eq.beq_iff l.tgt_id n.id,
            ),
          );
      nic_local = c.nic_local;
      hosts_apart = c.hosts_apart;
      port_local = c.port_local;
    }))

-- The removal of a host: the ports of the others are not among its own.
others_after :
    (id : Bytes) (s : Simulation) (i : Bytes) (g : Host)
    → lookup i (delete id s.hosts) ≡ some g
    → ((id == i) ≡ false) × (lookup i s.hosts ≡ some g)
others_after id s i g found =
    (ground (arith, lookup-delete id i s.hosts), ground (arith, lookup-delete id i s.hosts))

link-IsApart :
    (id : Bytes) (h : Host) (port : Bytes) (l : Link) (s : Simulation)
    → IsConsistent s
    → lookup id s.hosts ≡ some h
    → (lookup port s.used_egress ≡ some (by_link l))
      ⊎ (lookup port s.used_ingress ≡ some (by_link l))
    → IsApart port h.interfaces
link-IsApart id h port l s c found used n i =
    let (m, out) = c.nic_egress id h n found i in
    let (m', in') = c.nic_ingress id h n found i in
    elim used [
      | inl u ↦ ground (arith, bytes_eq.beq_iff n.id port)
      | inr u ↦ ground (arith, bytes_eq.beq_iff n.id port)
    ]

pub remove_host-IsConsistent :
    (id : Bytes) (s : Simulation) → IsConsistent s → Leaves IsConsistent (remove_host id s)
unfolding remove_host
remove_host-IsConsistent id s c = Leaves-option (lookup id s.hosts) (refused c) (λ h found.
    returned (record {
      link_id = c.link_id;
      link_egress = λ i l at_link.
          free_nics-IsApart l.src_id h.interfaces s.used_egress
            (link-IsApart id h l.src_id l s c found (inl (c.link_egress i l at_link)))
          ∙ c.link_egress i l at_link;
      link_ingress = λ i l at_link inner.
          free_nics-IsApart l.tgt_id h.interfaces s.used_ingress
            (link-IsApart id h l.tgt_id l s c found (inr (c.link_ingress i l at_link inner)))
          ∙ c.link_ingress i l at_link inner;
      nic_egress = λ i g n at_host among.
          let (other, before) = others_after id s i g at_host in
          let (m, used) = c.nic_egress i g n before among in
          (
            m,
            free_nics-IsApart n.id h.interfaces s.used_egress
                  (λ n' i'. c.hosts_apart id i h g n' n found before other i' among)
                ∙ used,
          );
      nic_ingress = λ i g n at_host among.
          let (other, before) = others_after id s i g at_host in
          let (m, used) = c.nic_ingress i g n before among in
          (
            m,
            free_nics-IsApart n.id h.interfaces s.used_ingress
                  (λ n' i'. c.hosts_apart id i h g n' n found before other i' among)
                ∙ used,
          );
      nic_local = λ i g n at_host among. c.nic_local i g n (others_after id s i g at_host).1 among;
      hosts_apart = λ i i' g g' n n' at_host at_host' other among among'.
          c.hosts_apart i i' g g' n n' (others_after id s i g at_host).1
            (others_after id s i' g' at_host').1 other among among';
      port_local = c.port_local;
    }))
