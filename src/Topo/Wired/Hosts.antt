-- ===== src/Topo/Wired/Hosts.antt =====
-- The hosts of a rack keep a builder fitting.
use mathlib.Core.List.{Memᴰ}
use fabric_sim.Prelude.{ℕ, zero, suc, ◌+◌, ◌≤◌, nat_eq, Bytes, List, [], ◌∷◌, refl, inl, inr}
use fabric_sim.Topo.Schema.{Nic, Host, Topology}
use fabric_sim.Topo.Builder.{Build, append_host}
use fabric_sim.Topo.RackHosts.{create_nic, create_vms}
use fabric_sim.Topo.Wired.{
  IsPortOf, Fits, IsMade, Extends, Extends-refl, Extends-trans, next_device_port_id-Extends,
}
use fabric_sim.Topo.Wired.Switches.{Memᴰ_cases, IsPortOf-same, IsSwitch-same}

module _ (size : Bytes → ℕ) where
  -- The interfaces of a list end on ports.
  abbrev pub AreOn : List Nic → Topology → Type 0
  AreOn ns t = (n : Nic) → Memᴰ n ns → IsPortOf size n.port t

  pub append_host-Extends :
      (h : Host) (b : Build)
      → AreOn h.nics b.topology
      → Fits size b
      → Extends size b (append_host h b)
  unfolding append_host
  append_host-Extends h b on f =
      let kept = λ (port : Bytes) (p : IsPortOf size port b.topology).
        IsPortOf-same size port b.topology (append_host h b).topology refl p in
      record {
        fits = record {
          next_fits = f.next_fits;
          min_fits = f.min_fits;
          max_fits = f.max_fits;
          min_made = f.min_made;
          made = λ id n m.
              IsSwitch-same size id b.topology (append_host h b).topology refl (f.made id n m);
          wired = record {
            link_src = λ l m. kept l.src (f.wired.link_src l m);
            link_tgt = λ l m. kept l.tgt (f.wired.link_tgt l m);
            nic_port = λ h' n m m'. elim (Memᴰ_cases h' h b.topology.hosts m) [
              | inl old ↦ kept n.port (f.wired.nic_port h' n old m')
              | inr e ↦ kept n.port (on n (rw e at m'))
            ];
          };
        };
        still_made = λ id m. m;
        still_next = λ id n k. (n, k);
        still_port = kept;
      }

  pub create_nic-Extends :
      (rack host leaf : ℕ) (device : Bytes) (b : Build)
      → 1 ≤ size device
      → IsMade size device b
      → Fits size b
      → Extends size b (create_nic rack host leaf device b).0
        × IsPortOf size
            (create_nic rack host leaf device b).1.port
            (create_nic rack host leaf device b).0.topology
  unfolding create_nic
  create_nic-Extends rack host leaf device b p m f =
      let (e, on, known) = next_device_port_id-Extends size device b p m f in (e, on)

  pub AreOn-one : (n : Nic) (t : Topology) → IsPortOf size n.port t → AreOn (n ∷ []) t
  AreOn-one n t p m (Memᴰ.head e) = rw e p
  AreOn-one n t p m (Memᴰ.tail i) = elim i [ ]

  pub AreOn-two :
      (n n' : Nic) (t : Topology)
      → IsPortOf size n.port t
      → IsPortOf size n'.port t
      → AreOn (n ∷ n' ∷ []) t
  AreOn-two n n' t p p' m (Memᴰ.head e) = rw e p
  AreOn-two n n' t p p' m (Memᴰ.tail i) = AreOn-one n' t p' m i

  pub create_vms-Extends :
      (rack host : ℕ) (ipu : Bytes) (i count : ℕ) (b : Build)
      → 1 ≤ size ipu
      → IsMade size ipu b
      → Fits size b
      → Extends size b (create_vms rack host ipu i count b)
  unfolding create_vms
  create_vms-Extends rack host ipu i zero b p m f = Extends-refl size b f
  create_vms-Extends rack host ipu i (suc count) b p m f =
      let (e, on) = create_nic-Extends rack host (10 + i) ipu b p m f in
      let b' : Build = (create_nic rack host (10 + i) ipu b).0 in
      let nic : Nic = (create_nic rack host (10 + i) ipu b).1 in
      let e' = append_host-Extends _ b' (AreOn-one nic b'.topology on) e.fits in
      let rest =
        create_vms-Extends rack host ipu (i + 1) count (append_host _ b') p
          (e'.still_made ipu (e.still_made ipu m)) e'.fits in
      Extends-trans size b b' _ e (Extends-trans size b' (append_host _ b') _ e' rest)
