-- ===== src/Topo/Wired/PlainFabric.antt =====
-- The plain fabric of pkg/topo/plain_fabric.go is wired.
use fabric_sim.Prelude.{
  ℕ, zero, suc, ◌+◌, ◌≤◌, ◌<◌, nat_eq, pos, Bytes, bytes_eq, codes, has_prefix, [], if◌then◌else◌,
  ◌≡◌, refl, arith,
}
use fabric_sim.GoMap.{insert}
use fabric_sim.Topo.Position.{coord, grid_position, ◌-ℤ◌}
use fabric_sim.Topo.Builder.{Build, new_builder, create_switch, latch_min_port}
use fabric_sim.Topo.RackHosts.{ipu_id}
use fabric_sim.Topo.Fabrics.{
  PlainFabric, spine_id, leaf_id, plain_spines, attach_leaf, plain_leaf, plain_leaves,
  generate_plain_fabric,
}
use fabric_sim.Topo.Wired.{IsWired, Fits, Extends, Extends-refl, Extends-trans}
use fabric_sim.Topo.Wired.Links.{latch_min_port-Extends}
use fabric_sim.Topo.Wired.Racks.{still-IsLeaf, create_rack_hosts-Extends}
use fabric_sim.Topo.Wired.Spines.{
  new_builder-Fits, switch-Extends, reset-Extends, AreSpines, still-AreSpines, AreSpines-next,
  attach_leaf-Extends,
}

-- The number of ports that the switches of a plain fabric have.
abbrev pub plain_size : PlainFabric → Bytes → ℕ
plain_size f id =
    if has_prefix (codes "spine") id
    then f.spine_port_count
    else if has_prefix (codes "leaf") id
    then f.leaf_port_count
    else 2 + 1 + f.vms_per_ipu

module _ (f : PlainFabric) (some_spine : 1 ≤ f.spines) (some_trunk : 1 ≤ f.spine_trunk)
    (some_downlink : f.reserved_uplink_count < f.spine_port_count)
    (some_port : 1 ≤ f.leaf_port_count) where
  plain_spine_size : (i : ℕ) → plain_size f (spine_id i) ≡ f.spine_port_count
  unfolding spine_id
  plain_spine_size i = refl

  plain_leaf_size : (i : ℕ) → plain_size f (leaf_id i) ≡ f.leaf_port_count
  unfolding leaf_id
  plain_leaf_size i = refl

  plain_ipu_size : (rack host : ℕ) → plain_size f (ipu_id rack host) ≡ 2 + 1 + f.vms_per_ipu
  unfolding ipu_id
  plain_ipu_size rack host = refl

  plain_spines-Extends :
      (i count : ℕ) (b : Build)
      → Fits (plain_size f) b
      → Extends (plain_size f) b (plain_spines f i count b)
        × AreSpines (plain_size f) i (i + count) (plain_spines f i count b)
  unfolding plain_spines
  plain_spines-Extends i zero b fits =
      (Extends-refl (plain_size f) b fits, λ j h k. absurd (omega arith))
  plain_spines-Extends i (suc count) b fits =
      let size = plain_size f in
      let n : ℕ = f.reserved_uplink_count + 1 in
      let b1 : Build = record b { next_port = insert (spine_id i) n b.next_port } in
      let e1 =
        reset-Extends size (spine_id i) n b (omega arith) (rw (plain_spine_size i) (omega arith))
          fits in
      let grid = grid_position (coord (pos i -ℤ pos 1) (pos f.spines) 400 (pos 0)) (pos 0) in
      let b2 : Build = create_switch (spine_id i) f.spine_port_count grid b1 in
      let (e2, l) =
        switch-Extends size (spine_id i) f.spine_port_count grid b1 (plain_spine_size i)
          (omega arith) e1.fits in
      let (e3, more) = plain_spines-Extends (i + 1) count b2 e2.fits in
      let b3 : Build = plain_spines f (i + 1) count b2 in
      (
        Extends-trans size b b1 b3 e1 (Extends-trans size b1 b2 b3 e2 e3),
        AreSpines-next size i (i + suc count) b3 (still-IsLeaf size (spine_id i) b2 b3 e3 l)
            (λ j h k. more j h (omega arith)),
      )

  plain_leaf-Extends :
      (i : ℕ) (b : Build)
      → AreSpines (plain_size f) 1 (1 + f.spines) b
      → Fits (plain_size f) b
      → Extends (plain_size f) b (plain_leaf f i b)
  unfolding plain_leaf
  plain_leaf-Extends i b spines fits =
      let size = plain_size f in
      let leaf = leaf_id i in
      let x = coord (pos i -ℤ pos 1) (pos f.leaves) 400 (pos 0) in
      let b1 : Build = create_switch leaf f.leaf_port_count (grid_position x (pos 200)) b in
      let (e1, l) =
        switch-Extends size leaf f.leaf_port_count (grid_position x (pos 200)) b (plain_leaf_size i)
          some_port fits in
      let b2 : Build = attach_leaf leaf f.spine_trunk 1 f.spines b1 in
      let (e2, known) =
        attach_leaf-Extends size leaf f.spine_trunk 1 f.spines b1
          (still-AreSpines size 1 (1 + f.spines) b b1 e1 spines) l e1.fits in
      let (n, at_next) = known some_trunk some_spine in
      let b3 : Build = latch_min_port leaf b2 in
      let e3 = latch_min_port-Extends size leaf n b2 at_next e2.fits in
      let e13 = Extends-trans size b1 b2 b3 e2 e3 in
      let e4 =
        create_rack_hosts-Extends size i leaf [] f.hosts_per_leaf f.hosts_have_ipu f.vms_per_ipu x 5
          b3 (λ _ host. plain_ipu_size i host) (still-IsLeaf size leaf b1 b3 e13 l) tt e3.fits in
      Extends-trans size b b1 _ e1 (Extends-trans size b1 b3 _ e13 e4)

  plain_leaves-Extends :
      (i count : ℕ) (b : Build)
      → AreSpines (plain_size f) 1 (1 + f.spines) b
      → Fits (plain_size f) b
      → Extends (plain_size f) b (plain_leaves f i count b)
  unfolding plain_leaves
  plain_leaves-Extends i zero b spines fits = Extends-refl (plain_size f) b fits
  plain_leaves-Extends i (suc count) b spines fits =
      let e = plain_leaf-Extends i b spines fits in
      Extends-trans (plain_size f) b _ _ e (
        plain_leaves-Extends (i + 1) count (plain_leaf f i b)
          (still-AreSpines (plain_size f) 1 (1 + f.spines) b (plain_leaf f i b) e spines) e.fits)

  -- With a spine, a link to each spine, a spine port that is not reserved and a leaf port, every
  -- link and every network interface of a plain fabric ends on a port of one of its switches,
  -- between 1 and the number of its ports, also when the ports of a switch wrap around.
  pub generate_plain_fabric-IsWired : IsWired (plain_size f) (generate_plain_fabric f)
  unfolding generate_plain_fabric
  generate_plain_fabric-IsWired =
      let (e, spines) =
        plain_spines-Extends 1 f.spines new_builder (new_builder-Fits (plain_size f)) in
      let spines' = λ (j : ℕ) (h : 1 ≤ j) (k : j < 1 + f.spines). spines j h k in
      (plain_leaves-Extends 1 f.leaves (plain_spines f 1 f.spines new_builder) spines'
        e.fits).fits.wired
