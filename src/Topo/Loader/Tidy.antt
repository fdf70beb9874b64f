-- ===== src/Topo/Loader/Tidy.antt =====
-- The maps of the inventory hold each device, link and host once, under its own id.
use fabric_sim.Prelude.{
  bytes_eq, ◌==◌, Bytes, List, [], ◌∷◌, Bool, false, Option, none, some, is_some, if◌then◌else◌,
  ◌≡◌, refl, arith, Bool-cases, inl, inr,
}
use fabric_sim.GoMap.{
  GoMap, lookup, insert, delete, HasDistinctKeys, lookup-insert, lookup-delete, delete_absent,
  insert-HasDistinctKeys, delete-HasDistinctKeys,
}
use fabric_sim.Outcome.{Error, Outcome, done, failed, panic, state_or, Leaves, returned, refused}
use fabric_sim.Outcome.Rules.{Leaves-option, Leaves-if}
use fabric_sim.Device.State.{DeviceSim, new_device_simulator}
use fabric_sim.Simulation.Ports.{
  Link, Host, Simulation, new_simulation, add_device, remove_device, validate_port,
  is_external_link,
}
use fabric_sim.Simulation.Links.{place_link, add_link, remove_link}
use fabric_sim.Simulation.Hosts.{add_host, remove_host, check_nics}
use fabric_sim.Simulation.Attached.Inventory.{new_device-IsGood}
use fabric_sim.Simulation.Exclusive.Reached.{
  Call, adds_device, removes_device, adds_link, removes_link, adds_host, removes_host, answer, run,
}

-- A map that holds each value once, under its own id.
pub record IsTidy {ℓ} {V : Type ℓ} (id_of : V → Bytes) (m : GoMap Bytes V) : Type ℓ where
  pub distinct : HasDistinctKeys m
  pub keyed : (id : Bytes) (v : V) → lookup id m ≡ some v → id_of v ≡ id

module _ {ℓ} {V : Type ℓ} (id_of : V → Bytes) where
  IsTidy-insert :
      (id : Bytes) (v : V) (m : GoMap Bytes V)
      → id_of v ≡ id
      → IsTidy id_of m
      → IsTidy id_of (insert id v m)
  IsTidy-insert id v m own t = record {
    distinct = insert-HasDistinctKeys id v m t.distinct;
    keyed = λ id' v' h. elim (Bool-cases (id == id')) [
      | inl here ↦
          let e : v ≡ v' = ground (arith, lookup-insert id id' v m) in
          rw (← e) (rw own ((bytes_eq.beq_iff id id').0 here))
      | inr there ↦ t.keyed id' v' (ground (arith, lookup-insert id id' v m))
    ];
  }

  IsTidy-delete : (id : Bytes) (m : GoMap Bytes V) → IsTidy id_of m → IsTidy id_of (delete id m)
  IsTidy-delete id m t = record {
    distinct = delete-HasDistinctKeys id m t.distinct;
    keyed = λ id' v' h. t.keyed id' v' (ground (arith, lookup-delete id id' m));
  }

  -- The first value of a tidy map is found under its id, and the rest is what a deletion leaves.
  pub IsTidy-first :
      (k : Bytes) (v : V) (m : GoMap Bytes V)
      → IsTidy id_of ((k, v) ∷ m)
      → (lookup (id_of v) ((k, v) ∷ m) ≡ some v)
        × (delete (id_of v) ((k, v) ∷ m) ≡ m)
        × IsTidy id_of m
  unfolding lookup delete
  IsTidy-first k v m t =
      let own : id_of v ≡ k = t.keyed k v (ground (arith, bytes_eq.beq_iff k k)) in
      (
        ground (arith, bytes_eq.beq_iff k k),
        ground (arith, bytes_eq.beq_iff k k, delete_absent k m, t.distinct),
        record {
          distinct = t.distinct.1;
          keyed = λ id v' h. t.keyed id v' (ground (arith, bytes_eq.beq_iff k id, t.distinct));
        },
      )

-- The three maps of a simulation are tidy.
pub record AllTidy (s : Simulation) : Type 0 where
  pub devices_tidy : IsTidy (λ d. d.device.id) s.devices
  pub links_tidy : IsTidy (λ l. l.id) s.links
  pub hosts_tidy : IsTidy (λ h. h.id) s.hosts

-- Every call keeps the maps tidy.
placed-AllTidy :
    (l : Link) (b : Bool) (s : Simulation) → AllTidy s → Leaves AllTidy (place_link l b s)
unfolding place_link
placed-AllTidy l b s t =
    Leaves-if (is_some (lookup l.src_id s.used_egress)) (λ _. refused t)
      λ _.
        Leaves-if (if b then false else is_some (lookup l.tgt_id s.used_ingress)) (λ _. refused t)
          λ _.
            Leaves-option (lookup l.id s.links)
              (returned (record {
                devices_tidy = t.devices_tidy;
                links_tidy = IsTidy-insert (λ (x : Link). x.id) l.id l s.links refl t.links_tidy;
                hosts_tidy = t.hosts_tidy;
              }))
              (λ old _. refused t)

answer-AllTidy : (call : Call) (s : Simulation) → AllTidy s → Leaves AllTidy (answer call s)
unfolding answer add_device remove_device add_link remove_link add_host remove_host
answer-AllTidy (adds_device d) s t =
    Leaves-option (lookup d.id s.devices)
      (returned (record {
        devices_tidy =
            IsTidy-insert (λ (x : DeviceSim). x.device.id) d.id (new_device_simulator d) s.devices
              (new_device-IsGood d).keyed t.devices_tidy;
        links_tidy = t.links_tidy;
        hosts_tidy = t.hosts_tidy;
      }))
      (λ old _. refused t)
answer-AllTidy (removes_device id) s t = Leaves-option (lookup id s.devices) (refused t) λ d _.
    returned (record {
      devices_tidy = IsTidy-delete (λ (x : DeviceSim). x.device.id) id s.devices t.devices_tidy;
      links_tidy = t.links_tidy;
      hosts_tidy = t.hosts_tidy;
    })
answer-AllTidy (adds_link l) s t =
    go (validate_port l.src_id s.devices)
      (if is_external_link l then none else validate_port l.tgt_id s.devices)
  where
    go :
        (o o' : Option Error)
        → Leaves AllTidy (elim o [
          | some e ↦ failed e s
          | none ↦ elim o' [ some e ↦ failed e s | none ↦ place_link l (is_external_link l) s ]
        ])
    go (some e) o' = refused t
    go none (some e) = refused t
    go none none = placed-AllTidy l (is_external_link l) s t
answer-AllTidy (removes_link id) s t = Leaves-option (lookup id s.links) (refused t) λ l _.
    returned (record {
      devices_tidy = t.devices_tidy;
      links_tidy = IsTidy-delete (λ (x : Link). x.id) id s.links t.links_tidy;
      hosts_tidy = t.hosts_tidy;
    })
answer-AllTidy (adds_host h) s t =
    Leaves-option (check_nics h.interfaces s)
      (Leaves-option (lookup h.id s.hosts)
        (returned (record {
          devices_tidy = t.devices_tidy;
          links_tidy = t.links_tidy;
          hosts_tidy = IsTidy-insert (λ (x : Host). x.id) h.id h s.hosts refl t.hosts_tidy;
        }))
        (λ old _. refused t))
      (λ e _. refused t)
answer-AllTidy (removes_host id) s t = Leaves-option (lookup id s.hosts) (refused t) λ h _.
    returned (record {
      devices_tidy = t.devices_tidy;
      links_tidy = t.links_tidy;
      hosts_tidy = IsTidy-delete (λ (x : Host). x.id) id s.hosts t.hosts_tidy;
    })

run-AllTidy : (calls : List Call) (s : Simulation) → AllTidy s → AllTidy (run calls s)
unfolding run
run-AllTidy [] s t = t
run-AllTidy (call ∷ calls) s t =
    run-AllTidy calls (state_or s (answer call s)) (kept (answer call s) (answer-AllTidy call s t))
  where
    kept : (m : Outcome Simulation) → Leaves AllTidy m → AllTidy (state_or s m)
    kept (done s') (returned u) = u
    kept (failed e s') (refused u) = u
    kept panic u = t

-- The maps of every inventory that calls reach are tidy.
pub reached-AllTidy : (calls : List Call) → AllTidy (run calls new_simulation)
unfolding lookup
reached-AllTidy calls = run-AllTidy calls new_simulation (record {
  devices_tidy = record { distinct = tt; keyed = λ id d h. cc };
  links_tidy = record { distinct = tt; keyed = λ id l h. cc };
  hosts_tidy = record { distinct = tt; keyed = λ id h e. cc };
})
