-- ===== src/Topo/Fabrics/Fixed.antt =====
-- The fabric of pkg/topo/fixed_fabric.go.
use fabric_sim.Prelude.{ℕ, ◌+◌, ◌*◌, ◌-◌, ℤ, pos, negsuc, Bytes, codes, false}
use fabric_sim.Topo.Schema.{Topology}
use fabric_sim.Topo.Position.{coord, grid_position}
use fabric_sim.Topo.Builder.{Build, new_builder, create_switch, create_link_trunk, latch_min_port}
use fabric_sim.Topo.RackHosts.{create_rack_hosts}
use fabric_sim.Topo.Fabrics.{spine_id, pair_leaf_id}

abbrev pub superspine1 : Bytes
superspine1 = codes "sspine1"

abbrev pub superspine2 : Bytes
superspine2 = codes "sspine2"

-- A switch of 32 ports
unfoldable pub create_switch_32 : Bytes → ℤ → ℤ → Build → Build
unfolding create_switch grid_position
create_switch_32 id x y b = create_switch id 32 (grid_position x y) b

-- The switches of createRackPairFabric, and the links between them
unfoldable pub rack_pair_spines : ℕ → Build → Build
unfolding create_switch_32 create_link_trunk coord spine_id
rack_pair_spines rack b =
    let spine1 = spine_id rack in
    let spine2 = spine_id (rack + 1) in
    let b1 = create_switch_32 spine1 (coord (pos rack) (pos 4) 800 (pos 0)) (pos 0) b in
    let b2 = create_switch_32 spine2 (coord (pos (rack + 1)) (pos 4) 800 (pos 0)) (pos 0) b1 in
    let b3 = create_link_trunk spine1 superspine1 8 b2 in
    let b4 = create_link_trunk spine1 superspine2 8 b3 in
    let b5 = create_link_trunk spine2 superspine1 8 b4 in create_link_trunk spine2 superspine2 8 b5

unfoldable pub fixed_leaf : Bytes → ℕ → Build → Build
unfolding create_switch_32 coord
fixed_leaf leaf place b = create_switch_32 leaf (coord (pos place) (pos 8) 400 (pos 0)) (pos 200) b

-- The two trunks of a leaf
unfoldable pub attach_fixed_leaf : ℕ → Bytes → Build → Build
unfolding create_link_trunk spine_id
attach_fixed_leaf rack leaf b =
    create_link_trunk leaf (spine_id (rack + 1)) 4 (create_link_trunk leaf (spine_id rack) 4 b)

-- createRackPairFabric
unfoldable pub create_rack_pair_fabric : ℕ → Build → Build
unfolding rack_pair_spines fixed_leaf attach_fixed_leaf create_link_trunk latch_min_port
    create_rack_hosts coord pair_leaf_id
create_rack_pair_fabric rack b =
    let leaf11 = pair_leaf_id rack 1 in
    let leaf12 = pair_leaf_id rack 2 in
    let leaf21 = pair_leaf_id (rack + 1) 1 in
    let leaf22 = pair_leaf_id (rack + 1) 2 in
    let b1 = rack_pair_spines rack b in
    let b2 = fixed_leaf leaf11 (2 * rack - 1) b1 in
    let b3 = fixed_leaf leaf12 (2 * rack) b2 in
    let b4 = fixed_leaf leaf21 (2 * rack + 1) b3 in
    let b5 = fixed_leaf leaf22 (2 * rack + 2) b4 in
    let b6 = attach_fixed_leaf rack leaf12 (attach_fixed_leaf rack leaf11 b5) in
    let b7 = attach_fixed_leaf rack leaf22 (attach_fixed_leaf rack leaf21 b6) in
    let b8 = create_link_trunk leaf21 leaf22 2 (create_link_trunk leaf11 leaf12 2 b7) in
    let b9 = latch_min_port leaf12 (latch_min_port leaf11 b8) in
    let b10 = latch_min_port leaf22 (latch_min_port leaf21 b9) in
    let b11 =
      create_rack_hosts rack leaf11 leaf12 10 false 0
        (coord (pos (2 * rack - 1)) (pos 4) 400 (negsuc 599)) 10 b10 in
    create_rack_hosts (rack + 1) leaf21 leaf22 10 false 0
      (coord (pos (2 * rack)) (pos 4) 400 (negsuc 199)) 10 b11

-- GenerateFixedFabric
unfoldable pub generate_fixed_fabric : Topology
unfolding create_switch_32 create_rack_pair_fabric coord
generate_fixed_fabric =
    let b1 =
      create_switch_32 superspine1 (coord (pos 1) (pos 2) 800 (pos 0)) (negsuc 199) new_builder in
    let b2 = create_switch_32 superspine2 (coord (pos 2) (pos 2) 800 (pos 0)) (negsuc 199) b1 in
    (create_rack_pair_fabric 3 (create_rack_pair_fabric 1 b2)).topology
