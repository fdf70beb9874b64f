-- ===== src/Topo/RackHosts.antt =====
-- The hosts of a rack of pkg/topo/generator.go, with or without infrastructure processing units.
use fabric_sim.Prelude.{
  ℕ, zero, suc, ◌+◌, ◌%◌, nat_eq, ◌==◌, ℤ, pos, Bytes, codes, List, [], ◌∷◌, ◌++◌, Bool,
  if◌then◌else◌, Option, none,
}
use fabric_sim.Topo.Schema.{GridPosition, Nic, Host}
use fabric_sim.Topo.Text.{decimal, two_digits}
use fabric_sim.Topo.Position.{◌+ℤ◌, ◌-ℤ◌, quotient, times, grid_position}
use fabric_sim.Topo.Builder.{
  Build, next_device_port_id, create_switch, create_link_trunk, append_host,
}

-- mac
unfoldable pub mac : ℕ → ℕ → ℕ → Bytes
unfolding two_digits
mac rack host leaf =
    codes "00:ca:fe:"
    ++ (two_digits rack ++ (codes ":" ++ (two_digits leaf ++ (codes ":" ++ two_digits host))))

-- ipv4
unfoldable pub ipv4 : ℕ → ℕ → ℕ → Bytes
unfolding decimal
ipv4 rack host leaf =
    codes "10." ++ (decimal rack ++ (codes "." ++ (decimal leaf ++ (codes "." ++ decimal host))))

-- ipv6
unfoldable pub ipv6 : ℕ → ℕ → ℕ → Bytes
unfolding decimal
ipv6 rack host leaf =
    codes "::ffff:10.10." ++ (decimal rack ++ (decimal leaf ++ (codes "." ++ decimal host)))

-- A NIC with the next port of a device.
unfoldable pub create_nic : ℕ → ℕ → ℕ → Bytes → Build → Build × Nic
unfolding mac ipv4 ipv6 next_device_port_id
create_nic rack host leaf device b =
    let (b', port) = next_device_port_id device b in
    (
      b',
      record {
        mac = mac rack host leaf;
        ipv4 = ipv4 rack host leaf;
        ipv6 = ipv6 rack host leaf;
        port = port;
      },
    )

-- The loop of createServerIPUAndVMs, from the virtual machine `i` and for a count of them
unfoldable pub create_vms : ℕ → ℕ → Bytes → ℕ → ℕ → Build → Build
unfolding create_nic append_host two_digits
create_vms rack host ipu i zero b = b
create_vms rack host ipu i (suc count) b =
    let (b', nic) = create_nic rack host (10 + i) ipu b in
    let vm : Host = record {
      id = codes "vm" ++ (two_digits rack ++ (two_digits host ++ two_digits i));
      nics = nic ∷ [];
      grid = none;
    } in
    create_vms rack host ipu (i + 1) count (append_host vm b')

unfoldable pub ipu_id : ℕ → ℕ → Bytes
unfolding two_digits
ipu_id rack host = codes "ipu" ++ (two_digits rack ++ two_digits host)

-- The switch of createServerIPUAndVMs, and its two uplinks. `leaf2` is empty for a single leaf.
unfoldable pub create_ipu : ℕ → ℕ → Bytes → Bytes → ℕ → Build → Build
unfolding create_switch create_link_trunk ipu_id
create_ipu rack host leaf1 leaf2 vms b =
    let b1 = create_switch (ipu_id rack host) (2 + 1 + vms) none b in
    let b2 = create_link_trunk leaf1 (ipu_id rack host) 1 b1 in
    create_link_trunk (elim leaf2 [ [] ↦ leaf1 | c ∷ s ↦ c ∷ s ]) (ipu_id rack host) 1 b2

-- createServerIPUAndVMs
unfoldable pub create_server_ipu_and_vms : ℕ → ℕ → Bytes → Bytes → ℕ → Build → Build × List Nic
unfolding create_ipu create_nic create_vms
create_server_ipu_and_vms rack host leaf1 leaf2 vms b =
    let (b', nic) =
      create_nic rack host 1 (ipu_id rack host) (create_ipu rack host leaf1 leaf2 vms b) in
    (create_vms rack host (ipu_id rack host) 1 vms b', nic ∷ [])

-- The interfaces of a host without such a unit.
unfoldable pub create_nics : ℕ → ℕ → Bytes → Bytes → Build → Build × List Nic
unfolding create_nic
create_nics rack host leaf1 [] b = let (b', nic) = create_nic rack host 1 leaf1 b in (b', nic ∷ [])
create_nics rack host leaf1 (c ∷ leaf2) b =
    let (b1, nic1) = create_nic rack host 1 leaf1 b in
    let (b2, nic2) = create_nic rack host 2 (c ∷ leaf2) b1 in (b2, nic1 ∷ nic2 ∷ [])

-- createRackHost
unfoldable pub create_rack_host :
    ℕ → ℕ → Bytes → Bytes → Bool → ℕ → Option GridPosition → Build → Build
unfolding create_server_ipu_and_vms create_nics append_host two_digits
create_rack_host rack host leaf1 leaf2 has_ipu vms grid b =
    let (b', nics) =
      if has_ipu
      then create_server_ipu_and_vms rack host leaf1 leaf2 vms b
      else create_nics rack host leaf1 leaf2 b in
    append_host
      (record {
        id = codes "host" ++ (two_digits rack ++ two_digits host);
        nics = nics;
        grid = grid;
      })
      b'

-- The left end of a row of hosts
unfoldable pub row_start : ℤ → ℕ → ℤ
unfolding times quotient ◌-ℤ◌
row_start grid_x per_row = grid_x -ℤ quotient (times 70 (pos per_row -ℤ pos 1)) 2

-- The loop of createRackHosts, from the host `i` and for a count of them
unfoldable pub create_hosts_from :
    ℕ → ℕ → ℕ → Bytes → Bytes → Bool → ℕ → ℤ → ℕ → ℤ → ℤ → Build → Build
unfolding create_rack_host grid_position row_start ◌+ℤ◌
create_hosts_from rack i zero leaf1 leaf2 has_ipu vms grid_x per_row x y b = b
create_hosts_from rack i (suc count) leaf1 leaf2 has_ipu vms grid_x per_row x y b =
    let b' = create_rack_host rack i leaf1 leaf2 has_ipu vms (grid_position x y) b in
    let row_ends = i % per_row == 0 in
    create_hosts_from rack (i + 1) count leaf1 leaf2 has_ipu vms grid_x per_row
      (if row_ends then row_start grid_x per_row else x +ℤ pos 70)
      (if row_ends then y +ℤ pos 80 else y) b'

-- createRackHosts, for rows of at least one host
unfoldable pub create_rack_hosts : ℕ → Bytes → Bytes → ℕ → Bool → ℕ → ℤ → ℕ → Build → Build
unfolding create_hosts_from row_start
create_rack_hosts rack leaf1 leaf2 count has_ipu vms grid_x per_row b =
    create_hosts_from rack 1 count leaf1 leaf2 has_ipu vms grid_x per_row (row_start grid_x per_row)
      (pos 450) b
