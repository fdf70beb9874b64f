-- ===== src/Topo/Fabrics/Ids.antt =====
-- The ids of the switches of a plain fabric without infrastructure processing units.
use mathlib.Core.List.{append-nil, append_assoc}
use fabric_sim.Prelude.{
  ℕ, zero, suc, ◌+◌, bytes_eq, Bytes, List, [], ◌∷◌, ◌++◌, map, Bool, true, false, Option, ℤ, pos,
  if◌then◌else◌, ◌%◌, nat_eq, ◌==◌, ◌≡◌, refl, sym, ap, ◌∙◌,
}
use fabric_sim.GoMap.{insert}
use fabric_sim.Topo.Schema.{Device, GridPosition}
use fabric_sim.Topo.Position.{coord, grid_position, ◌-ℤ◌, ◌+ℤ◌}
use fabric_sim.Topo.Builder.{
  Build, new_builder, next_agent_port, next_device_port_id, create_switch, append_link, append_host,
  create_link_trunk, latch_min_port,
}
use fabric_sim.Topo.RackHosts.{
  create_nic, create_nics, create_rack_host, create_hosts_from, create_rack_hosts, row_start,
}
use fabric_sim.Topo.Fabrics.{
  PlainFabric, spine_id, leaf_id, plain_spines, attach_leaf, plain_leaf, plain_leaves,
  generate_plain_fabric,
}

abbrev pub ids_of : List Device → List Bytes
ids_of ds = map (λ d. d.id) ds

-- The names of a count of numbers.
abbrev pub names_from : (ℕ → Bytes) → ℕ → ℕ → List Bytes
names_from name i zero = []
names_from name i (suc count) = name i ∷ names_from name (i + 1) count

abbrev switches : Build → List Device
switches b = b.topology.devices

create_link_trunk_devices :
    (src tgt : Bytes) (count : ℕ) (b : Build)
    → switches (create_link_trunk src tgt count b) ≡ switches b
unfolding create_link_trunk append_link next_device_port_id
create_link_trunk_devices src tgt zero b = refl
create_link_trunk_devices src tgt (suc count) b = create_link_trunk_devices src tgt count _

attach_leaf_devices :
    (leaf : Bytes) (trunk i count : ℕ) (b : Build)
    → switches (attach_leaf leaf trunk i count b) ≡ switches b
unfolding attach_leaf
attach_leaf_devices leaf trunk i zero b = refl
attach_leaf_devices leaf trunk i (suc count) b =
    attach_leaf_devices leaf trunk (i + 1) count (create_link_trunk (spine_id i) leaf trunk b)
    ∙ create_link_trunk_devices (spine_id i) leaf trunk b

create_rack_host_devices :
    (rack host : ℕ) (leaf : Bytes) (vms : ℕ) (grid : Option GridPosition) (b : Build)
    → switches (create_rack_host rack host leaf [] false vms grid b) ≡ switches b
unfolding create_rack_host create_nics create_nic next_device_port_id append_host
create_rack_host_devices rack host leaf vms grid b = refl

create_hosts_from_devices :
    (rack i count : ℕ) (leaf : Bytes) (vms : ℕ) (grid_x : ℤ) (per_row : ℕ) (x y : ℤ) (b : Build)
    → switches (create_hosts_from rack i count leaf [] false vms grid_x per_row x y b) ≡ switches b
unfolding create_hosts_from
create_hosts_from_devices rack i zero leaf vms grid_x per_row x y b = refl
create_hosts_from_devices rack i (suc count) leaf vms grid_x per_row x y b =
    create_hosts_from_devices rack (i + 1) count leaf vms grid_x per_row
      (if i % per_row == 0 then row_start grid_x per_row else x +ℤ pos 70)
      (if i % per_row == 0 then y +ℤ pos 80 else y)
      (create_rack_host rack i leaf [] false vms (grid_position x y) b)
    ∙ create_rack_host_devices rack i leaf vms (grid_position x y) b

create_rack_hosts_devices :
    (rack : ℕ) (leaf : Bytes) (count : ℕ) (has_ipu : Bool) (vms : ℕ) (grid_x : ℤ) (per_row : ℕ)
    (b : Build)
    → has_ipu ≡ false
    → switches (create_rack_hosts rack leaf [] count has_ipu vms grid_x per_row b) ≡ switches b
unfolding create_rack_hosts
create_rack_hosts_devices rack leaf count true vms grid_x per_row b h = absurd (cc)
create_rack_hosts_devices rack leaf count false vms grid_x per_row b h =
    create_hosts_from_devices rack 1 count leaf vms grid_x per_row (row_start grid_x per_row)
      (pos 450) b

ids_of-append : (ds es : List Device) → ids_of (ds ++ es) ≡ ids_of ds ++ ids_of es
ids_of-append [] es = refl
ids_of-append (d ∷ ds) es = ap (◌∷◌ d.id) (ids_of-append ds es)

create_switch_ids :
    (id : Bytes) (count : ℕ) (grid : Option GridPosition) (b : Build)
    → ids_of (switches (create_switch id count grid b)) ≡ ids_of (switches b) ++ id ∷ []
unfolding create_switch next_agent_port
create_switch_ids id count grid b = ids_of-append (switches b) _

module _ (f : PlainFabric) (no_ipu : f.hosts_have_ipu ≡ false) where
  plain_spines_ids :
      (i count : ℕ) (b : Build)
      → ids_of (switches (plain_spines f i count b))
        ≡ ids_of (switches b) ++ names_from spine_id i count
  unfolding plain_spines
  plain_spines_ids i zero b = sym (append-nil (ids_of (switches b)))
  plain_spines_ids i (suc count) b =
      let n : ℕ = f.reserved_uplink_count + 1 in
      let b1 : Build = record b { next_port = insert (spine_id i) n b.next_port } in
      let grid = grid_position (coord (pos i -ℤ pos 1) (pos f.spines) 400 (pos 0)) (pos 0) in
      plain_spines_ids (i + 1) count (create_switch (spine_id i) f.spine_port_count grid b1)
      ∙ ap (λ ids. ids ++ names_from spine_id (i + 1) count)
          (create_switch_ids (spine_id i) f.spine_port_count grid b1)
      ∙ append_assoc (ids_of (switches b)) (spine_id i ∷ []) (names_from spine_id (i + 1) count)

  plain_leaf_ids :
      (i : ℕ) (b : Build)
      → ids_of (switches (plain_leaf f i b)) ≡ ids_of (switches b) ++ leaf_id i ∷ []
  unfolding plain_leaf latch_min_port
  plain_leaf_ids i b =
      let x = coord (pos i -ℤ pos 1) (pos f.leaves) 400 (pos 0) in
      let b1 : Build = create_switch (leaf_id i) f.leaf_port_count (grid_position x (pos 200)) b in
      let b2 : Build = attach_leaf (leaf_id i) f.spine_trunk 1 f.spines b1 in
      let b3 : Build = latch_min_port (leaf_id i) b2 in
      ap ids_of (
        create_rack_hosts_devices i (leaf_id i) f.hosts_per_leaf f.hosts_have_ipu f.vms_per_ipu x 5
          b3 no_ipu)
      ∙ ap ids_of (attach_leaf_devices (leaf_id i) f.spine_trunk 1 f.spines b1)
      ∙ create_switch_ids (leaf_id i) f.leaf_port_count (grid_position x (pos 200)) b

  plain_leaves_ids :
      (i count : ℕ) (b : Build)
      → ids_of (switches (plain_leaves f i count b))
        ≡ ids_of (switches b) ++ names_from leaf_id i count
  unfolding plain_leaves
  plain_leaves_ids i zero b = sym (append-nil (ids_of (switches b)))
  plain_leaves_ids i (suc count) b =
      plain_leaves_ids (i + 1) count (plain_leaf f i b)
      ∙ ap (λ ids. ids ++ names_from leaf_id (i + 1) count) (plain_leaf_ids i b)
      ∙ append_assoc (ids_of (switches b)) (leaf_id i ∷ []) (names_from leaf_id (i + 1) count)

  pub generate_plain_fabric_ids :
      ids_of (generate_plain_fabric f).devices
      ≡ names_from spine_id 1 f.spines ++ names_from leaf_id 1 f.leaves
  unfolding generate_plain_fabric
  generate_plain_fabric_ids =
      plain_leaves_ids 1 f.leaves (plain_spines f 1 f.spines new_builder)
      ∙ ap (λ ids. ids ++ names_from leaf_id 1 f.leaves) (plain_spines_ids 1 f.spines new_builder)
