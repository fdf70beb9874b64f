-- ===== src/Topo/Netcfg/Total.antt =====
-- The network configuration of a wired topology is made without a panic.
use mathlib.Core.List.{Memᴰ}
use fabric_sim.Prelude.{
  ℕ, zero, suc, ◌+◌, ◌^◌, ◌≤◌, ◌<◌, nat_eq, bytes_eq, Bytes, List, [], ◌∷◌, Option, some, length,
  length-append, get_elem?, ◌≡◌, refl, arith,
}
use fabric_sim.GoMap.{GoMap}
use fabric_sim.Topo.Schema.{Device, Nic, Host, Topology}
use fabric_sim.Topo.Wired.{IsWired}
use fabric_sim.Topo.Netcfg.{
  Netcfg, Output, digit_runs, command_for, create_onos_command, port_map_of, add_nic, add_nics,
  add_hosts, netcfg_devices, generate_netcfg,
}
use fabric_sim.Topo.Netcfg.PortMap.{HaveRuns, Has, port_map_of-HaveRuns, no_entry, IsPortOf-Has}

command_for_done :
    (port : Bytes) (tenant : ℕ) (rs : List Bytes)
    → 2 ≤ length rs
    → (c : Bytes) × (command_for port tenant rs ≡ some c)
unfolding command_for
command_for_done port tenant [] h = absurd (omega (arith, h))
command_for_done port tenant (r ∷ []) h = absurd (omega (arith, h))
command_for_done port tenant (r ∷ r' ∷ rs) h = (_, refl)

create_onos_command_done :
    (nic : Nic) (tenant : ℕ) (m : GoMap Bytes Bytes)
    → HaveRuns m
    → Has nic.port m
    → (c : Bytes) × (create_onos_command nic tenant m ≡ some c)
unfolding create_onos_command
create_onos_command_done nic tenant m r (p, h) =
    rw h (command_for_done p tenant (digit_runs p) (r nic.port p h))

-- A loop over interfaces has made a command for each of a number of them, and another tenant is next.
record Makes (tenants count : ℕ) (o : Output) (made : Option Output) : Type 0 where
  after : Output
  done : made ≡ some after
  tenant_left : after.tenant_index < tenants
  counted : length after.commands ≡ length o.commands + count

-- The number of the network interfaces of hosts.
abbrev pub nic_count : List Host → ℕ
nic_count [] = 0
nic_count (h ∷ hs) = length h.nics + nic_count hs

module _ (m : GoMap Bytes Bytes) (tenants : List ℕ) (r : HaveRuns m) where
  get_elem?-lt : (xs : List ℕ) (i : ℕ) → i < length xs → (x : ℕ) × (get_elem? xs i ≡ some x)
  get_elem?-lt [] i h = absurd (omega (arith, h))
  get_elem?-lt (x ∷ xs) zero h = (x, refl)
  get_elem?-lt (x ∷ xs) (suc i) h = get_elem?-lt xs i (omega arith)

  add_nic-Makes :
      (host : Host) (nic : Nic) (o : Output)
      → Has nic.port m
      → o.tenant_index < length tenants
      → Makes (length tenants) 1 o (add_nic m tenants host nic o)
  unfolding add_nic
  add_nic-Makes host nic o h left =
      let (tenant, found) = get_elem?-lt tenants o.tenant_index left in
      let (c, made) = create_onos_command_done nic tenant m r h in
      rw (found, add_nic)
        (rw (made, add_nic)
          (record {
            after = _;
            done = refl;
            tenant_left = omega arith;
            counted = length-append o.commands (c ∷ []);
          }))

  add_nics-Makes :
      (host : Host) (nics : List Nic) (o : Output)
      → ((n : Nic) → Memᴰ n nics → Has n.port m)
      → o.tenant_index < length tenants
      → Makes (length tenants) (length nics) o (add_nics m tenants host nics (some o))
  unfolding add_nics
  add_nics-Makes host [] o h left = record {
    after = o;
    done = refl;
    tenant_left = left;
    counted = omega arith;
  }
  add_nics-Makes host (n ∷ nics) o h left =
      let a = add_nic-Makes host n o (h n (Memᴰ.head refl)) left in
      let b = add_nics-Makes host nics a.after (λ x i. h x (Memᴰ.tail i)) a.tenant_left in
      record {
        after = b.after;
        done = rw (a.done, add_nics) b.done;
        tenant_left = b.tenant_left;
        counted = omega (arith, a.counted, b.counted);
      }

  add_hosts-Makes :
      (hs : List Host) (o : Output)
      → ((h : Host) (n : Nic) → Memᴰ h hs → Memᴰ n h.nics → Has n.port m)
      → o.tenant_index < length tenants
      → Makes (length tenants) (nic_count hs) o (add_hosts m tenants hs (some o))
  unfolding add_hosts
  add_hosts-Makes [] o h left = record {
    after = o;
    done = refl;
    tenant_left = left;
    counted = omega arith;
  }
  add_hosts-Makes (x ∷ hs) o h left =
      let a = add_nics-Makes x x.nics o (λ n i. h x n (Memᴰ.head refl) i) left in
      let b = add_hosts-Makes hs a.after (λ y n i. h y n (Memᴰ.tail i)) a.tenant_left in
      record {
        after = b.after;
        done = rw (a.done, add_hosts) b.done;
        tenant_left = b.tenant_left;
        counted = omega (arith, a.counted, b.counted);
      }

-- For a wired topology of switches with fewer than 2 ^ 32 ports and a digit in each id, and for at
-- least one tenant, the network configuration is made without a panic, with one command for each
-- network interface of a host.
pub generate_netcfg-Makes :
    (size : Bytes → ℕ) (t : Topology) (driver pipeconf : Bytes) (tenants : List ℕ)
    → IsWired size t
    → ((id : Bytes) → size id < 2 ^ 32)
    → ((d : Device) → Memᴰ d t.devices → 1 ≤ length (digit_runs d.id))
    → 1 ≤ length tenants
    → (n : Netcfg) × (commands : List Bytes) × (generate_netcfg t driver pipeconf tenants
        ≡ some (n, commands))
      × (length commands ≡ nic_count t.hosts)
unfolding generate_netcfg
generate_netcfg-Makes size t driver pipeconf tenants w small digit tenant =
    let m = port_map_of t.devices [] in
    let r = port_map_of-HaveRuns t.devices [] digit (λ k p h. absurd (no_entry k p h)) in
    let a =
      add_hosts-Makes m tenants r t.hosts (record { hosts = []; commands = []; tenant_index = 0 })
        (λ h n i j. IsPortOf-Has size t n.port small (w.nic_port h n i j)) (omega arith) in
    (
      record { devices = netcfg_devices driver pipeconf t.devices []; hosts = a.after.hosts },
      a.after.commands,
      rw (a.done, generate_netcfg) refl,
      omega (arith, a.counted),
    )
