-- ===== src/Simulation/Attached/Inventory.antt =====
-- The calls that change the inventory keep what is attached attached, but for the removal of a
-- device.
use fabric_sim.Prelude.{
  ℕ, suc, ◌<◌, ◌≤◌, ◌+◌, nat_eq, bytes_eq, ◌==◌, Bytes, List, [], ◌∷◌, some, length, ◌≡◌, refl, ap,
  arith, Option-cases, Bool-cases, inl, inr,
}
use fabric_sim.GoMap.{GoMap, lookup, insert, delete, lookup-insert, lookup-delete}
use fabric_sim.Outcome.Settles.{Settles, ended, stopped, Settles-option, Settles-cases}
use fabric_sim.Device.State.{Port, Device, DeviceSim, add_ports, new_device_simulator}
use fabric_sim.Simulation.Ports.{
  Link, Nic, Host, Use, by_link, by_nic, Simulation, new_simulation, add_device,
}
use fabric_sim.Simulation.Links.{
  place_link, add_link, remove_link, IsPlaced, add_link-IsPlaced, add_link_failed,
}
use fabric_sim.Simulation.Hosts.{
  add_host, remove_host, check_nics, check_nics-IsFree, take_nics, free_nics,
}
use fabric_sim.Simulation.Attached.{IsGood, IsAttached, IsAttached-insert}

pub new_simulation-IsAttached : IsAttached new_simulation
unfolding lookup
new_simulation-IsAttached = record {
  good = λ id d h. cc;
  link_lands = λ port l h inner. cc;
  nic_lands = λ id h n held m. cc;
}

-- The loop over the ports leaves the device, and pointers below the number of its ports.
add_ports_device : (i : ℕ) (ps : List Port) (d : DeviceSim) → (add_ports i ps d).device ≡ d.device
unfolding add_ports
add_ports_device i [] d = refl
add_ports_device i (p ∷ ps) d =
    add_ports_device (suc i) ps (record d {
      ports = insert p.id i d.ports;
      sdn_ports = insert p.internal_number i d.sdn_ports;
    })

add_ports_bound :
    (i n : ℕ) (ps : List Port) (d : DeviceSim)
    → i + length ps ≤ n
    → ((port : Bytes) (k : ℕ) → lookup port d.ports ≡ some k → k < n)
    → (port : Bytes) (k : ℕ) → lookup port (add_ports i ps d).ports ≡ some k
    → k < n
unfolding add_ports
add_ports_bound i n [] d room below = below
add_ports_bound i n (p ∷ ps) d room below =
    add_ports_bound (suc i) n ps
      (record d {
        ports = insert p.id i d.ports;
        sdn_ports = insert p.internal_number i d.sdn_ports;
      })
      (omega arith) λ port k h. ground (arith, lookup-insert p.id port i d.ports, below port k)

pub new_device-IsGood : (device : Device) → IsGood device.id (new_device_simulator device)
unfolding new_device_simulator lookup
new_device-IsGood device = record {
  keyed = ap (λ d. d.id) (add_ports_device 0 device.ports _);
  pointers = λ port k h.
      rw (add_ports_device 0 device.ports _) (
        add_ports_bound 0 (length device.ports) device.ports _ (omega arith) (λ q j e. cc) port k
          h);
}

-- AddDeviceSimulator
pub add_device-IsAttached :
    (device : Device) (s : Simulation) → IsAttached s → Settles IsAttached (add_device device s)
unfolding add_device
add_device-IsAttached device s a = elim (Option-cases (lookup device.id s.devices)) [
  | inl free ↦
      rw (free, add_device)
        (ended (
          IsAttached-insert device.id (new_device_simulator device) s
            (record s { devices = insert device.id (new_device_simulator device) s.devices }) refl
            refl refl (λ d held. ground arith) (new_device-IsGood device) a))
  | inr (d, held) ↦ rw (held, add_device) (stopped a)
]

-- AddLinkSimulator
placed-IsAttached : (l : Link) (s s' : Simulation) → IsPlaced l s s' → IsAttached s → IsAttached s'
placed-IsAttached l s s' p a = record {
  good = λ id d held. a.good id d (rw (← p.devices_kept) held);
  link_lands = λ port l' used inner. rw p.devices_kept (elim (Bool-cases (l.src_id == port)) [
    | inl here ↦
        let e : l ≡ l' = ground (arith, p.egress_after port) in rw (← e) (p.tgt_exists (rw e inner))
    | inr there ↦ a.link_lands port l' (ground (arith, p.egress_after port)) inner
  ]);
  nic_lands = λ id h n held m. rw p.devices_kept (a.nic_lands id h n (rw (← p.hosts_kept) held) m);
}

pub add_link-IsAttached :
    (l : Link) (s : Simulation) → IsAttached s → Settles IsAttached (add_link l s)
unfolding add_link place_link
add_link-IsAttached l s a =
    Settles-cases (add_link l s) (λ h. ground arith)
      (λ s' h. placed-IsAttached l s s' (add_link-IsPlaced l s s' h) a)
      λ e s' h. rw (add_link_failed l s e s' h) a

-- RemoveLinkSimulator
pub remove_link-IsAttached :
    (id : Bytes) (s : Simulation) → IsAttached s → Settles IsAttached (remove_link id s)
unfolding remove_link
remove_link-IsAttached id s a =
    Settles-option (lookup id s.links) (λ _. stopped a)
      λ l held. ended (record {
        good = a.good;
        link_lands = λ port l' used inner.
            a.link_lands port l' (ground (arith, lookup-delete l.src_id port s.used_egress)) inner;
        nic_lands = a.nic_lands;
      })

-- What is used by a link after the interfaces took their ports was before.
take_nics_link :
    (port : Bytes) (l : Link) (ns : List Nic) (used : GoMap Bytes Use)
    → lookup port (take_nics ns used) ≡ some (by_link l)
    → lookup port used ≡ some (by_link l)
unfolding take_nics
take_nics_link port l [] used h = h
take_nics_link port l (n ∷ ns) used h = ground (
  arith,
  lookup-insert n.id port (by_nic n) used,
  take_nics_link port l ns (insert n.id (by_nic n) used),
)

free_nics_before :
    (port : Bytes) (u : Use) (ns : List Nic) (used : GoMap Bytes Use)
    → lookup port (free_nics ns used) ≡ some u
    → lookup port used ≡ some u
unfolding free_nics
free_nics_before port u [] used h = h
free_nics_before port u (n ∷ ns) used h =
    ground (arith, lookup-delete n.id port used, free_nics_before port u ns (delete n.id used))

-- AddHostSimulator
pub add_host-IsAttached :
    (h : Host) (s : Simulation) → IsAttached s → Settles IsAttached (add_host h s)
unfolding add_host
add_host-IsAttached h s a = elim (Option-cases (check_nics h.interfaces s)) [
  | inr (e, bad) ↦ rw (bad, add_host) (stopped a)
  | inl checked ↦
      rw (checked, add_host)
        (Settles-option (lookup h.id s.hosts)
          (λ _. ended (record {
            good = a.good;
            link_lands = λ port l used inner.
                a.link_lands port l (take_nics_link port l h.interfaces s.used_egress used) inner;
            nic_lands = λ id h' n held m. elim (Bool-cases (h.id == id)) [
              | inl here ↦
                  let e : h' ≡ h = ground (arith, lookup-insert h.id id h s.hosts) in
                  (check_nics-IsFree h.interfaces s checked n (rw e at m)).exists
              | inr there ↦ a.nic_lands id h' n (ground (arith, lookup-insert h.id id h s.hosts)) m
            ];
          }))
          (λ old _. stopped a))
]

-- RemoveHostSimulator
pub remove_host-IsAttached :
    (id : Bytes) (s : Simulation) → IsAttached s → Settles IsAttached (remove_host id s)
unfolding remove_host
remove_host-IsAttached id s a =
    Settles-option (lookup id s.hosts) (λ _. stopped a)
      λ h held. ended (record {
        good = a.good;
        link_lands = λ port l used inner.
            a.link_lands port l (free_nics_before port (by_link l) h.interfaces s.used_egress used)
              inner;
        nic_lands = λ id' h' n held' m.
            a.nic_lands id' h' n (ground (arith, lookup-delete id id' s.hosts)) m;
      })
