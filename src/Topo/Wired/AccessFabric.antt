-- ===== src/Topo/Wired/AccessFabric.antt =====
-- The access fabric of pkg/topo/access_fabric.go is wired.
use fabric_sim.Prelude.{
  ℕ, zero, suc, ◌+◌, ◌*◌, ◌-◌, ◌≤◌, ◌<◌, nat_eq, pos, negsuc, Bytes, bytes_eq, codes, has_prefix,
  some, if◌then◌else◌, ◌≡◌, refl, arith,
}
use fabric_sim.GoMap.{lookup}
use fabric_sim.Topo.Position.{coord, grid_position}
use fabric_sim.Topo.Builder.{Build, new_builder, create_switch, create_link_trunk}
use fabric_sim.Topo.RackHosts.{ipu_id}
use fabric_sim.Topo.Fabrics.{
  AccessFabric, spine_id, leaf_id, pair_leaf_id, access_spines, attach_pair, access_pair,
  access_pairs, generate_access_fabric,
}
use fabric_sim.Topo.Wired.{IsWired, Fits, Extends, Extends-refl, Extends-trans}
use fabric_sim.Topo.Wired.Links.{create_link_trunk-Extends, latch_min_port-Extends}
use fabric_sim.Topo.Wired.Racks.{IsLeaf, still-IsLeaf, create_rack_hosts-Extends}
use fabric_sim.Topo.Wired.Spines.{
  new_builder-Fits, switch-Extends, AreSpines, still-AreSpines, AreSpines-next,
}

module _ (size : Bytes → ℕ) where
  attach_pair-Extends :
      (leaf1 leaf2 : Bytes) (trunk i count : ℕ) (b : Build)
      → AreSpines size i (i + count) b
      → IsLeaf size leaf1 b
      → IsLeaf size leaf2 b
      → Fits size b
      → Extends size b (attach_pair leaf1 leaf2 trunk i count b)
        × (1 ≤ trunk
            → 1 ≤ count
            → ((n : ℕ) × (lookup leaf1 (attach_pair leaf1 leaf2 trunk i count b).next_port
                  ≡ some n))
              × ((n : ℕ) × (lookup leaf2 (attach_pair leaf1 leaf2 trunk i count b).next_port
                    ≡ some n)))
  unfolding attach_pair
  attach_pair-Extends leaf1 leaf2 trunk i zero b spines l1 l2 f =
      (Extends-refl size b f, λ p q. absurd (omega arith))
  attach_pair-Extends leaf1 leaf2 trunk i (suc count) b spines l1 l2 f =
      let s = spines i (omega arith) (omega arith) in
      let b1 : Build = create_link_trunk (spine_id i) leaf1 trunk b in
      let (e1, known1) =
        create_link_trunk-Extends size (spine_id i) leaf1 trunk b s.0 l1.0 s.1 l1.1 f in
      let b2 : Build = create_link_trunk (spine_id i) leaf2 trunk b1 in
      let (e2, known2) =
        create_link_trunk-Extends size (spine_id i) leaf2 trunk b1 s.0 l2.0
          (e1.still_made (spine_id i) s.1) (e1.still_made leaf2 l2.1) e1.fits in
      let e12 = Extends-trans size b b1 b2 e1 e2 in
      let (e3, known3) =
        attach_pair-Extends leaf1 leaf2 trunk (i + 1) count b2
          (λ j h k. still-IsLeaf size (spine_id j) b b2 e12 (spines j (omega arith) (omega arith)))
          (still-IsLeaf size leaf1 b b2 e12 l1) (still-IsLeaf size leaf2 b b2 e12 l2) e2.fits in
      (
        Extends-trans size b b2 _ e12 e3,
        λ p q.
            let (n, at1) = known1 p in
            let (n', at1') = e2.still_next leaf1 n at1 in
            let (m, at2) = known2 p in (e3.still_next leaf1 n' at1', e3.still_next leaf2 m at2),
      )

-- The number of ports that the switches of an access fabric have.
abbrev pub access_size : AccessFabric → Bytes → ℕ
access_size f id =
    if has_prefix (codes "spine") id
    then f.spine_port_count
    else if has_prefix (codes "leaf") id
    then f.leaf_port_count
    else 2 + 1 + f.vms_per_ipu

module _ (f : AccessFabric) (some_spine : 1 ≤ f.spines) (some_trunk : 1 ≤ f.spine_trunk)
    (some_spine_port : 1 ≤ f.spine_port_count) (some_port : 1 ≤ f.leaf_port_count) where
  access_spine_size : (i : ℕ) → access_size f (spine_id i) ≡ f.spine_port_count
  unfolding spine_id
  access_spine_size i = refl

  access_leaf_size : (pair n : ℕ) → access_size f (pair_leaf_id pair n) ≡ f.leaf_port_count
  unfolding leaf_id pair_leaf_id
  access_leaf_size pair n = refl

  access_ipu_size : (rack host : ℕ) → access_size f (ipu_id rack host) ≡ 2 + 1 + f.vms_per_ipu
  unfolding ipu_id
  access_ipu_size rack host = refl

  access_spines-Extends :
      (i count : ℕ) (b : Build)
      → Fits (access_size f) b
      → Extends (access_size f) b (access_spines f i count b)
        × AreSpines (access_size f) i (i + count) (access_spines f i count b)
  unfolding access_spines
  access_spines-Extends i zero b fits =
      (Extends-refl (access_size f) b fits, λ j h k. absurd (omega arith))
  access_spines-Extends i (suc count) b fits =
      let size = access_size f in
      let grid = grid_position (coord (pos i) (pos f.spines) 400 (pos 0)) (pos 0) in
      let b1 : Build = create_switch (spine_id i) f.spine_port_count grid b in
      let (e1, l) =
        switch-Extends size (spine_id i) f.spine_port_count grid b (access_spine_size i)
          some_spine_port fits in
      let (e2, more) = access_spines-Extends (i + 1) count b1 e1.fits in
      let b2 : Build = access_spines f (i + 1) count b1 in
      (
        Extends-trans size b b1 b2 e1 e2,
        AreSpines-next size i (i + suc count) b2 (still-IsLeaf size (spine_id i) b1 b2 e2 l)
            (λ j h k. more j h (omega arith)),
      )

  access_pair-Extends :
      (pair : ℕ) (b : Build)
      → AreSpines (access_size f) 1 (1 + f.spines) b
      → Fits (access_size f) b
      → Extends (access_size f) b (access_pair f pair b)
  unfolding access_pair
  access_pair-Extends pair b spines fits =
      let size = access_size f in
      let leaf1 = pair_leaf_id pair 1 in
      let leaf2 = pair_leaf_id pair 2 in
      let (e1, l1) =
        switch-Extends size leaf1 f.leaf_port_count
          (grid_position (coord (pos (2 * pair - 1)) (pos (2 * f.leaf_pairs)) 400 (pos 0))
            (pos 200))
          b (access_leaf_size pair 1) some_port fits in
      let (e2, l2) =
        switch-Extends size leaf2 f.leaf_port_count
          (grid_position (coord (pos (2 * pair)) (pos (2 * f.leaf_pairs)) 400 (pos 0)) (pos 200)) _
          (access_leaf_size pair 2) some_port e1.fits in
      let e12 = Extends-trans size b _ _ e1 e2 in
      let (e3, known) =
        attach_pair-Extends size leaf1 leaf2 f.spine_trunk 1 f.spines _
          (still-AreSpines size 1 (1 + f.spines) b _ e12 spines) (still-IsLeaf size leaf1 _ _ e2 l1)
          l2 e2.fits in
      let e13 = Extends-trans size b _ _ e12 e3 in
      let m1 = still-IsLeaf size leaf1 _ _ (Extends-trans size _ _ _ e2 e3) l1 in
      let m2 = still-IsLeaf size leaf2 _ _ e3 l2 in
      let e4 =
        (create_link_trunk-Extends size leaf1 leaf2 f.pair_trunk _ m1.0 m2.0 m1.1 m2.1 e3.fits).0 in
      let ((n, at1), (m, at2)) = known some_trunk some_spine in
      let (n', at1') = e4.still_next leaf1 n at1 in
      let (m', at2') = e4.still_next leaf2 m at2 in
      let e5 = latch_min_port-Extends size leaf1 n' _ at1' e4.fits in
      let (k, at2'') = e5.still_next leaf2 m' at2' in
      let e6 = latch_min_port-Extends size leaf2 k _ at2'' e5.fits in
      let e46 = Extends-trans size _ _ _ e4 (Extends-trans size _ _ _ e5 e6) in
      let e7 =
        create_rack_hosts-Extends size pair leaf1 leaf2 f.hosts_per_pair f.hosts_have_ipu
          f.vms_per_ipu (coord (pos (2 * pair)) (pos (2 * f.leaf_pairs)) 400 (negsuc 199)) 10 _
          (λ _ host. access_ipu_size pair host) (still-IsLeaf size leaf1 _ _ e46 m1)
          (still-IsLeaf size leaf2 _ _ e46 m2) e6.fits in
      Extends-trans size b _ _ e13 (Extends-trans size _ _ _ e46 e7)

  access_pairs-Extends :
      (pair count : ℕ) (b : Build)
      → AreSpines (access_size f) 1 (1 + f.spines) b
      → Fits (access_size f) b
      → Extends (access_size f) b (access_pairs f pair count b)
  unfolding access_pairs
  access_pairs-Extends pair zero b spines fits = Extends-refl (access_size f) b fits
  access_pairs-Extends pair (suc count) b spines fits =
      let e = access_pair-Extends pair b spines fits in
      Extends-trans (access_size f) b _ _ e (
        access_pairs-Extends (pair + 1) count (access_pair f pair b)
          (still-AreSpines (access_size f) 1 (1 + f.spines) b (access_pair f pair b) e spines)
          e.fits)

  -- With a spine, a link to each spine, a spine port and a leaf port, every link and every network
  -- interface of an access fabric ends on a port of one of its switches, between 1 and the number of
  -- its ports, also when the ports of a switch wrap around.
  pub generate_access_fabric-IsWired : IsWired (access_size f) (generate_access_fabric f)
  unfolding generate_access_fabric
  generate_access_fabric-IsWired =
      let (e, spines) =
        access_spines-Extends 1 f.spines new_builder (new_builder-Fits (access_size f)) in
      let spines' = λ (j : ℕ) (h : 1 ≤ j) (k : j < 1 + f.spines). spines j h k in
      (access_pairs-Extends 1 f.leaf_pairs (access_spines f 1 f.spines new_builder) spines'
        e.fits).fits.wired
