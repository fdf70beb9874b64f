-- ===== src/Topo/Fabrics.antt =====
-- The fabrics of pkg/topo/plain_fabric.go and access_fabric.go.
pub mod Fixed
pub mod Ids
pub mod Names
use fabric_sim.Prelude.{
  ℕ, zero, suc, ◌+◌, ◌*◌, ◌-◌, bytes_eq, ℤ, pos, negsuc, Bytes, codes, List, [], ◌∷◌, ◌++◌, Bool,
  true, false, Option, none, some,
}
use fabric_sim.GoMap.{insert}
use fabric_sim.Topo.Schema.{Topology}
use fabric_sim.Topo.Text.{decimal}
use fabric_sim.Topo.Position.{coord, grid_position, ◌-ℤ◌}
use fabric_sim.Topo.Builder.{Build, new_builder, create_switch, create_link_trunk, latch_min_port}
use fabric_sim.Topo.RackHosts.{create_rack_hosts}

-- PlainFabric, whose numbers are not negative
pub record PlainFabric : Type 0 where
  pub spines : ℕ
  pub spine_port_count : ℕ
  pub reserved_uplink_count : ℕ
  pub leaves : ℕ
  pub leaf_port_count : ℕ
  pub spine_trunk : ℕ
  pub hosts_per_leaf : ℕ
  pub hosts_have_ipu : Bool
  pub vms_per_ipu : ℕ

-- AccessFabric, whose numbers are not negative
pub record AccessFabric : Type 0 where
  pub spines : ℕ
  pub spine_port_count : ℕ
  pub leaf_pairs : ℕ
  pub leaf_port_count : ℕ
  pub spine_trunk : ℕ
  pub pair_trunk : ℕ
  pub hosts_per_pair : ℕ
  pub hosts_have_ipu : Bool
  pub vms_per_ipu : ℕ

unfoldable pub spine_id : ℕ → Bytes
unfolding decimal
spine_id n = codes "spine" ++ decimal n

-- fmt.Sprintf("leaf%d", n), of which those of leaf pairs have another digit
unfoldable pub leaf_id : ℕ → Bytes
unfolding decimal
leaf_id n = codes "leaf" ++ decimal n

unfoldable pub pair_leaf_id : ℕ → ℕ → Bytes
unfolding leaf_id decimal
pair_leaf_id pair n = leaf_id pair ++ decimal n

-- The loop of GeneratePlainFabric over the spines, from `i` and for a count of them
unfoldable pub plain_spines : PlainFabric → ℕ → ℕ → Build → Build
unfolding spine_id create_switch coord grid_position ◌-ℤ◌
plain_spines f i zero b = b
plain_spines f i (suc count) b =
    let b' = record b {
      next_port = insert (spine_id i) (f.reserved_uplink_count + 1) b.next_port;
    } in
    plain_spines f (i + 1) count (
      create_switch (spine_id i) f.spine_port_count
        (grid_position (coord (pos i -ℤ pos 1) (pos f.spines) 400 (pos 0)) (pos 0)) b')

-- The loops that attach a leaf to the spines
unfoldable pub attach_leaf : Bytes → ℕ → ℕ → ℕ → Build → Build
unfolding spine_id create_link_trunk
attach_leaf leaf trunk i zero b = b
attach_leaf leaf trunk i (suc count) b =
    attach_leaf leaf trunk (i + 1) count (create_link_trunk (spine_id i) leaf trunk b)

-- A round of the loop of GeneratePlainFabric over the leaves
unfoldable pub plain_leaf : PlainFabric → ℕ → Build → Build
unfolding leaf_id create_switch attach_leaf latch_min_port create_rack_hosts coord grid_position
    ◌-ℤ◌
plain_leaf f i b =
    let x = coord (pos i -ℤ pos 1) (pos f.leaves) 400 (pos 0) in
    let b1 = create_switch (leaf_id i) f.leaf_port_count (grid_position x (pos 200)) b in
    let b2 = attach_leaf (leaf_id i) f.spine_trunk 1 f.spines b1 in
    let b3 = latch_min_port (leaf_id i) b2 in
    create_rack_hosts i (leaf_id i) [] f.hosts_per_leaf f.hosts_have_ipu f.vms_per_ipu x 5 b3

unfoldable pub plain_leaves : PlainFabric → ℕ → ℕ → Build → Build
unfolding plain_leaf
plain_leaves f i zero b = b
plain_leaves f i (suc count) b = plain_leaves f (i + 1) count (plain_leaf f i b)

-- GeneratePlainFabric
unfoldable pub generate_plain_fabric : PlainFabric → Topology
unfolding plain_spines plain_leaves
generate_plain_fabric f =
    (plain_leaves f 1 f.leaves (plain_spines f 1 f.spines new_builder)).topology

-- The loop of GenerateAccessFabric over the spines
unfoldable pub access_spines : AccessFabric → ℕ → ℕ → Build → Build
unfolding spine_id create_switch coord grid_position
access_spines f i zero b = b
access_spines f i (suc count) b = access_spines f (i + 1) count (
    create_switch (spine_id i) f.spine_port_count
      (grid_position (coord (pos i) (pos f.spines) 400 (pos 0)) (pos 0)) b)

-- The loop that attaches a pair of leaves to the spines
unfoldable pub attach_pair : Bytes → Bytes → ℕ → ℕ → ℕ → Build → Build
unfolding spine_id create_link_trunk
attach_pair leaf1 leaf2 trunk i zero b = b
attach_pair leaf1 leaf2 trunk i (suc count) b =
    attach_pair leaf1 leaf2 trunk (i + 1) count
      (create_link_trunk (spine_id i) leaf2 trunk (create_link_trunk (spine_id i) leaf1 trunk b))

-- A round of the loop of GenerateAccessFabric over the pairs of leaves
unfoldable pub access_pair : AccessFabric → ℕ → Build → Build
unfolding pair_leaf_id create_switch attach_pair create_link_trunk latch_min_port create_rack_hosts
    coord grid_position
access_pair f pair b =
    let leaf1 = pair_leaf_id pair 1 in
    let leaf2 = pair_leaf_id pair 2 in
    let x1 = coord (pos (2 * pair - 1)) (pos (2 * f.leaf_pairs)) 400 (pos 0) in
    let x2 = coord (pos (2 * pair)) (pos (2 * f.leaf_pairs)) 400 (pos 0) in
    let b1 = create_switch leaf1 f.leaf_port_count (grid_position x1 (pos 200)) b in
    let b2 = create_switch leaf2 f.leaf_port_count (grid_position x2 (pos 200)) b1 in
    let b3 = attach_pair leaf1 leaf2 f.spine_trunk 1 f.spines b2 in
    let b4 = create_link_trunk leaf1 leaf2 f.pair_trunk b3 in
    let b5 = latch_min_port leaf2 (latch_min_port leaf1 b4) in
    create_rack_hosts pair leaf1 leaf2 f.hosts_per_pair f.hosts_have_ipu f.vms_per_ipu
      (coord (pos (2 * pair)) (pos (2 * f.leaf_pairs)) 400 (negsuc 199)) 10 b5

unfoldable pub access_pairs : AccessFabric → ℕ → ℕ → Build → Build
unfolding access_pair
access_pairs f pair zero b = b
access_pairs f pair (suc count) b = access_pairs f (pair + 1) count (access_pair f pair b)

-- GenerateAccessFabric
unfoldable pub generate_access_fabric : AccessFabric → Topology
unfolding access_spines access_pairs
generate_access_fabric f =
    (access_pairs f 1 f.leaf_pairs (access_spines f 1 f.spines new_builder)).topology
