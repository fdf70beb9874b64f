-- ===== src/Topo/Loader/Cleared.antt =====
-- ClearTopology empties every simulation that inventory calls reach.
use fabric_sim.Prelude.{bytes_eq, Bytes, List, [], ◌∷◌, some, ◌≡◌, refl, ◌∙◌}
use fabric_sim.GoMap.{GoMap, lookup, delete, values}
use fabric_sim.Outcome.{done}
use fabric_sim.Outcome.Each.{each}
use fabric_sim.Device.State.{DeviceSim}
use fabric_sim.Simulation.Ports.{Link, Host, Simulation, new_simulation, remove_device, device_list}
use fabric_sim.Simulation.Links.{remove_link, link_list}
use fabric_sim.Simulation.Hosts.{remove_host, free_nics, host_list}
use fabric_sim.Simulation.Exclusive.Reached.{Call, run}
use fabric_sim.Topo.Loader.{remove_all_hosts, remove_all_links, remove_all_devices, clear_topology}
use fabric_sim.Topo.Loader.Tidy.{IsTidy, IsTidy-first, AllTidy, reached-AllTidy}

clear_hosts :
    (hosts : GoMap Bytes Host) (s : Simulation)
    → s.hosts ≡ hosts
    → IsTidy (λ (h : Host). h.id) hosts
    → (s' : Simulation) × (each (λ (h : Host). remove_host h.id) (values hosts) s ≡ done s')
      × (s'.hosts ≡ [])
      × (s'.links ≡ s.links)
      × (s'.devices ≡ s.devices)
unfolding each values remove_host
clear_hosts [] s e t = (s, refl, e, refl, refl)
clear_hosts ((k, h) ∷ rest) s e t =
    let (found, removed, tidy) = IsTidy-first (λ (x : Host). x.id) k h rest t in
    let found' : lookup h.id s.hosts ≡ some h = rw e found in
    let removed' : delete h.id s.hosts ≡ rest = rw e removed in
    let s1 : Simulation = record s {
      hosts = delete h.id s.hosts;
      used_egress = free_nics h.interfaces s.used_egress;
      used_ingress = free_nics h.interfaces s.used_ingress;
    } in
    let (s', ends, hosts, links, devices) = clear_hosts rest s1 removed' tidy in
    (s', rw (found', remove_host) ends, hosts, links, devices)

clear_links :
    (links : GoMap Bytes Link) (s : Simulation)
    → s.links ≡ links
    → IsTidy (λ (l : Link). l.id) links
    → (s' : Simulation) × (each (λ (l : Link). remove_link l.id) (values links) s ≡ done s')
      × (s'.links ≡ [])
      × (s'.hosts ≡ s.hosts)
      × (s'.devices ≡ s.devices)
unfolding each values remove_link
clear_links [] s e t = (s, refl, e, refl, refl)
clear_links ((k, l) ∷ rest) s e t =
    let (found, removed, tidy) = IsTidy-first (λ (x : Link). x.id) k l rest t in
    let found' : lookup l.id s.links ≡ some l = rw e found in
    let removed' : delete l.id s.links ≡ rest = rw e removed in
    let s1 : Simulation = record s {
      links = delete l.id s.links;
      used_egress = delete l.src_id s.used_egress;
      used_ingress = delete l.tgt_id s.used_ingress;
    } in
    let (s', ends, links, hosts, devices) = clear_links rest s1 removed' tidy in
    (s', rw (found', remove_link) ends, links, hosts, devices)

clear_devices :
    (devices : GoMap Bytes DeviceSim) (s : Simulation)
    → s.devices ≡ devices
    → IsTidy (λ (d : DeviceSim). d.device.id) devices
    → (s' : Simulation) × (each (λ (d : DeviceSim). remove_device d.device.id) (values devices) s
        ≡ done s')
      × (s'.devices ≡ [])
      × (s'.hosts ≡ s.hosts)
      × (s'.links ≡ s.links)
unfolding each values remove_device
clear_devices [] s e t = (s, refl, e, refl, refl)
clear_devices ((k, d) ∷ rest) s e t =
    let (found, removed, tidy) = IsTidy-first (λ (x : DeviceSim). x.device.id) k d rest t in
    let found' : lookup d.device.id s.devices ≡ some d = rw e found in
    let removed' : delete d.device.id s.devices ≡ rest = rw e removed in
    let s1 : Simulation = record s { devices = delete d.device.id s.devices } in
    let (s', ends, devices, hosts, links) = clear_devices rest s1 removed' tidy in
    (s', rw (found', remove_device) ends, devices, hosts, links)

clear_tidy :
    (s : Simulation)
    → AllTidy s
    → (s' : Simulation) × (clear_topology s ≡ done s')
      × (s'.devices ≡ [])
      × (s'.links ≡ [])
      × (s'.hosts ≡ [])
unfolding clear_topology remove_all_hosts remove_all_links remove_all_devices host_list link_list
    device_list
clear_tidy s t =
    let (s1, e1, hosts1, links1, devices1) = clear_hosts s.hosts s refl t.hosts_tidy in
    let (s2, e2, links2, hosts2, devices2) =
      clear_links s1.links s1 refl (rw links1 t.links_tidy) in
    let (s3, e3, devices3, hosts3, links3) =
      clear_devices s2.devices s2 refl (rw devices2 (rw devices1 t.devices_tidy)) in
    (s3, rw e1 (rw e2 e3), devices3, links3 ∙ links2, hosts3 ∙ hosts2 ∙ hosts1)

-- Whatever calls a new inventory has answered, ClearTopology, apart from the stops of agents and of the
-- requests of hosts (the latter may wait without end), ends without an error, and leaves no
-- host, no link and no device.
pub clear_topology_empties :
    (calls : List Call)
    → (s' : Simulation) × (clear_topology (run calls new_simulation) ≡ done s')
      × (s'.devices ≡ [])
      × (s'.links ≡ [])
      × (s'.hosts ≡ [])
clear_topology_empties calls = clear_tidy (run calls new_simulation) (reached-AllTidy calls)
