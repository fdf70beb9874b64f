-- ===== src/Topo/SuperSpines.antt =====
-- The super-spine tier of pkg/topo/superspine_tier.go: a topology of super-spines and, for each pod, one
-- of links to them.
use fabric_sim.Prelude.{
  ℕ, zero, suc, ◌+◌, bytes_eq, pos, negsuc, Bytes, codes, List, [], ◌∷◌, ◌++◌, true,
}
use fabric_sim.GoMap.{insert}
use fabric_sim.Topo.Schema.{Link, Topology, empty_topology}
use fabric_sim.Topo.Text.{decimal}
use fabric_sim.Topo.Position.{coord, grid_position}
use fabric_sim.Topo.Builder.{Build, new_builder, next_device_port_id, create_switch, append_link}
use fabric_sim.Topo.Fabrics.{spine_id}

-- SuperSpineTier, whose numbers are not negative. PodsDomain is a format of the number of a pod.
pub record SuperSpineTier : Type 0 where
  pub superspines : ℕ
  pub superspines_domain : Bytes
  pub superspine_port_count : ℕ
  pub pods : ℕ
  pub pods_domain : ℕ → Bytes
  pub pod_spines : ℕ

unfoldable pub superspine_id : ℕ → Bytes
unfolding decimal
superspine_id n = codes "superspine" ++ decimal n

-- fmt.Sprintf("%s%s%s", domain, linkDomainDelimiter, port)
unfoldable pub external_id : Bytes → Bytes → Bytes
external_id domain port = domain ++ (codes "::" ++ port)

unfoldable pub add_pod_link : Link → Topology → Topology
add_pod_link l t = record t { links = t.links ++ l ∷ [] }

-- createExternalLinkTrunk, with the topology of a pod
unfoldable pub create_external_link_trunk :
    Bytes → Bytes → Bytes → Bytes → ℕ → Build → Topology → Build × Topology
unfolding next_device_port_id external_id append_link add_pod_link
create_external_link_trunk d1 domain1 d2 domain2 zero b t = (b, t)
create_external_link_trunk d1 domain1 d2 domain2 (suc count) b t =
    let (b1, p1) = next_device_port_id d1 b in
    let (b2, p2) = next_device_port_id d2 b1 in
    let out : Link = record { src = p1; tgt = external_id domain2 p2; unidirectional = true } in
    let back : Link = record { src = p2; tgt = external_id domain1 p1; unidirectional = true } in
    create_external_link_trunk d1 domain1 d2 domain2 count (append_link out b2)
      (add_pod_link back t)

-- The loops of GenerateSuperSpineTier, each from a number and for a count
unfoldable pub create_superspines : SuperSpineTier → ℕ → ℕ → Build → Build
unfolding create_switch superspine_id coord grid_position
create_superspines f i zero b = b
create_superspines f i (suc count) b = create_superspines f (i + 1) count (
    create_switch (superspine_id i) f.superspine_port_count
      (grid_position (coord (pos 1) (pos 2) 800 (pos 0)) (negsuc 199)) b)

unfoldable pub link_spine :
    SuperSpineTier → Bytes → Bytes → ℕ → ℕ → Build → Topology → Build × Topology
unfolding create_external_link_trunk superspine_id
link_spine f domain spine i zero b t = (b, t)
link_spine f domain spine i (suc count) b t =
    let (b', t') =
      create_external_link_trunk (superspine_id i) f.superspines_domain spine domain 2 b t in
    link_spine f domain spine (i + 1) count b' t'

-- A round over the spines of a pod, which resets the next port and the number of ports of the spine
unfoldable pub pod_spines : SuperSpineTier → Bytes → ℕ → ℕ → Build → Topology → Build × Topology
unfolding link_spine spine_id
pod_spines f domain i zero b t = (b, t)
pod_spines f domain i (suc count) b t =
    let b' = record b {
      next_port = insert (spine_id i) 1 b.next_port;
      max_port = insert (spine_id i) f.superspine_port_count b.max_port;
    } in
    let (b'', t') = link_spine f domain (spine_id i) 1 f.superspines b' t in
    pod_spines f domain (i + 1) count b'' t'

unfoldable pub create_pods : SuperSpineTier → ℕ → ℕ → Build → Build × List Topology
unfolding pod_spines
create_pods f pod zero b = (b, [])
create_pods f pod (suc count) b =
    let (b', t) = pod_spines f (f.pods_domain pod) 1 f.pod_spines b empty_topology in
    let (b'', ts) = create_pods f (pod + 1) count b' in (b'', t ∷ ts)

-- GenerateSuperSpineTier: the topology, and those that are saved for the pods
unfoldable pub generate_superspine_tier : SuperSpineTier → Topology × List Topology
unfolding create_superspines create_pods
generate_superspine_tier f =
    let (b, pods) = create_pods f 1 f.pods (create_superspines f 1 f.superspines new_builder) in
    (b.topology, pods)
