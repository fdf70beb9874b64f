-- ===== src/Topo/Wired/Racks.antt =====
-- The hosts of a rack, with infrastructure processing units or without, keep a builder fitting.
use mathlib.Core.Path.{subst}
use fabric_sim.Prelude.{
  ℕ, zero, suc, ◌+◌, ◌≤◌, nat_eq, ◌==◌, ◌%◌, ℤ, pos, Bytes, [], ◌∷◌, Bool, true, false, Option,
  none, if◌then◌else◌, ◌≡◌, refl, arith,
}
use fabric_sim.Topo.Schema.{GridPosition}
use fabric_sim.Topo.Position.{grid_position, ◌+ℤ◌}
use fabric_sim.Topo.Builder.{Build, create_switch, create_link_trunk}
use fabric_sim.Topo.RackHosts.{
  create_nic, create_vms, ipu_id, create_ipu, create_server_ipu_and_vms, create_nics,
  create_rack_host, row_start, create_hosts_from, create_rack_hosts,
}
use fabric_sim.Topo.Wired.{Fits, IsMade, Extends, Extends-refl, Extends-trans}
use fabric_sim.Topo.Wired.Switches.{create_switch-Extends}
use fabric_sim.Topo.Wired.Links.{create_link_trunk-Extends}
use fabric_sim.Topo.Wired.Hosts.{
  AreOn, append_host-Extends, create_nic-Extends, AreOn-one, AreOn-two, create_vms-Extends,
}

module _ (size : Bytes → ℕ) where
  -- A switch of at least one port that was made.
  abbrev pub IsLeaf : Bytes → Build → Type 0
  IsLeaf leaf b = (1 ≤ size leaf) × IsMade size leaf b

  -- The second leaf, if there is one.
  abbrev pub IsSecondLeaf : Bytes → Build → Type 0
  IsSecondLeaf [] b = Unit
  IsSecondLeaf (c ∷ s) b = IsLeaf (c ∷ s) b

  pub still-IsLeaf :
      (leaf : Bytes) (b b' : Build) → Extends size b b' → IsLeaf leaf b → IsLeaf leaf b'
  still-IsLeaf leaf b b' e (p, m) = (p, e.still_made leaf m)

  pub still-IsSecondLeaf :
      (leaf : Bytes) (b b' : Build) → Extends size b b' → IsSecondLeaf leaf b → IsSecondLeaf leaf b'
  still-IsSecondLeaf [] b b' e l = tt
  still-IsSecondLeaf (c ∷ s) b b' e l = still-IsLeaf (c ∷ s) b b' e l

  trunk-Extends :
      (src tgt : Bytes) (count : ℕ) (b : Build)
      → IsLeaf src b
      → IsLeaf tgt b
      → Fits size b
      → Extends size b (create_link_trunk src tgt count b)
  trunk-Extends src tgt count b (p, m) (p', m') f =
      (create_link_trunk-Extends size src tgt count b p p' m m' f).0

  create_ipu-Extends :
      (rack host : ℕ) (leaf1 leaf2 : Bytes) (vms : ℕ) (b : Build)
      → size (ipu_id rack host) ≡ 2 + 1 + vms
      → IsLeaf leaf1 b
      → IsSecondLeaf leaf2 b
      → Fits size b
      → Extends size b (create_ipu rack host leaf1 leaf2 vms b)
        × IsLeaf (ipu_id rack host) (create_ipu rack host leaf1 leaf2 vms b)
  unfolding create_ipu
  create_ipu-Extends rack host leaf1 leaf2 vms b sized l1 l2 f =
      let ipu = ipu_id rack host in
      let some_port : 1 ≤ size ipu = omega arith in
      let b1 : Build = create_switch ipu (2 + 1 + vms) none b in
      let made : Extends size b b1 × IsMade size ipu b1 =
        subst
          (λ (k : ℕ).
            Extends size b (create_switch ipu k none b)
            × IsMade size ipu (create_switch ipu k none b))
          sized (create_switch-Extends size ipu none b some_port f) in
      let e1 = made.0 in
      let b2 : Build = create_link_trunk leaf1 ipu 1 b1 in
      let e2 =
        trunk-Extends leaf1 ipu 1 b1 (still-IsLeaf leaf1 b b1 e1 l1) (some_port, made.1) e1.fits in
      let e12 = Extends-trans size b b1 b2 e1 e2 in
      let on2 : IsLeaf ipu b2 = (some_port, e2.still_made ipu made.1) in
      let b3 : Build = create_ipu rack host leaf1 leaf2 vms b in
      let e3 : Extends size b2 b3 =
        second leaf2 b2 ipu (still-IsLeaf leaf1 b b2 e12 l1) (still-IsSecondLeaf leaf2 b b2 e12 l2)
          on2 e2.fits in
      (Extends-trans size b b2 b3 e12 e3, still-IsLeaf ipu b2 b3 e3 on2)
    where
      second :
          (leaf : Bytes) (c : Build) (ipu : Bytes)
          → IsLeaf leaf1 c
          → IsSecondLeaf leaf c
          → IsLeaf ipu c
          → Fits size c
          → Extends size c (create_link_trunk (elim leaf [ [] ↦ leaf1 | x ∷ s ↦ x ∷ s ]) ipu 1 c)
      second [] c ipu l1 l2 on f = trunk-Extends leaf1 ipu 1 c l1 on f
      second (x ∷ s) c ipu l1 l2 on f = trunk-Extends (x ∷ s) ipu 1 c l2 on f

  create_server-Extends :
      (rack host : ℕ) (leaf1 leaf2 : Bytes) (vms : ℕ) (b : Build)
      → size (ipu_id rack host) ≡ 2 + 1 + vms
      → IsLeaf leaf1 b
      → IsSecondLeaf leaf2 b
      → Fits size b
      → Extends size b (create_server_ipu_and_vms rack host leaf1 leaf2 vms b).0
        × AreOn size
            (create_server_ipu_and_vms rack host leaf1 leaf2 vms b).1
            (create_server_ipu_and_vms rack host leaf1 leaf2 vms b).0.topology
  unfolding create_server_ipu_and_vms
  create_server-Extends rack host leaf1 leaf2 vms b sized l1 l2 f =
      let ipu = ipu_id rack host in
      let b1 : Build = create_ipu rack host leaf1 leaf2 vms b in
      let (e1, (p, m)) = create_ipu-Extends rack host leaf1 leaf2 vms b sized l1 l2 f in
      let b2 : Build = (create_nic rack host 1 ipu b1).0 in
      let (e2, on) = create_nic-Extends size rack host 1 ipu b1 p m e1.fits in
      let e3 = create_vms-Extends size rack host ipu 1 vms b2 p (e2.still_made ipu m) e2.fits in
      let b3 : Build = create_vms rack host ipu 1 vms b2 in
      (
        Extends-trans size b b1 b3 e1 (Extends-trans size b1 b2 b3 e2 e3),
        AreOn-one size _ b3.topology (e3.still_port _ on),
      )

  create_nics-Extends :
      (rack host : ℕ) (leaf1 leaf2 : Bytes) (b : Build)
      → IsLeaf leaf1 b
      → IsSecondLeaf leaf2 b
      → Fits size b
      → Extends size b (create_nics rack host leaf1 leaf2 b).0
        × AreOn size
            (create_nics rack host leaf1 leaf2 b).1
            (create_nics rack host leaf1 leaf2 b).0.topology
  unfolding create_nics
  create_nics-Extends rack host leaf1 [] b (p, m) l2 f =
      let (e, on) = create_nic-Extends size rack host 1 leaf1 b p m f in (e, AreOn-one size _ _ on)
  create_nics-Extends rack host leaf1 (c ∷ s) b (p, m) (p', m') f =
      let (e, on) = create_nic-Extends size rack host 1 leaf1 b p m f in
      let b1 : Build = (create_nic rack host 1 leaf1 b).0 in
      let (e', on') =
        create_nic-Extends size rack host 2 (c ∷ s) b1 p' (e.still_made (c ∷ s) m') e.fits in
      let b2 : Build = (create_nic rack host 2 (c ∷ s) b1).0 in
      (Extends-trans size b b1 b2 e e', AreOn-two size _ _ b2.topology (e'.still_port _ on) on')

  create_rack_host-Extends :
      (rack host : ℕ) (leaf1 leaf2 : Bytes) (has_ipu : Bool) (vms : ℕ) (grid : Option GridPosition)
      (b : Build)
      → (has_ipu ≡ true → size (ipu_id rack host) ≡ 2 + 1 + vms)
      → IsLeaf leaf1 b
      → IsSecondLeaf leaf2 b
      → Fits size b
      → Extends size b (create_rack_host rack host leaf1 leaf2 has_ipu vms grid b)
  unfolding create_rack_host
  create_rack_host-Extends rack host leaf1 leaf2 true vms grid b sized l1 l2 f =
      let (e, on) = create_server-Extends rack host leaf1 leaf2 vms b (sized refl) l1 l2 f in
      Extends-trans size b _ _ e (append_host-Extends size _ _ on e.fits)
  create_rack_host-Extends rack host leaf1 leaf2 false vms grid b sized l1 l2 f =
      let (e, on) = create_nics-Extends rack host leaf1 leaf2 b l1 l2 f in
      Extends-trans size b _ _ e (append_host-Extends size _ _ on e.fits)

  create_hosts_from-Extends :
      (rack i count : ℕ) (leaf1 leaf2 : Bytes) (has_ipu : Bool) (vms : ℕ) (grid_x : ℤ) (per_row : ℕ)
      (x y : ℤ) (b : Build)
      → (has_ipu ≡ true → (host : ℕ) → size (ipu_id rack host) ≡ 2 + 1 + vms)
      → IsLeaf leaf1 b
      → IsSecondLeaf leaf2 b
      → Fits size b
      → Extends size b (create_hosts_from rack i count leaf1 leaf2 has_ipu vms grid_x per_row x y b)
  unfolding create_hosts_from
  create_hosts_from-Extends rack i zero leaf1 leaf2 has_ipu vms grid_x per_row x y b sized l1 l2 f =
      Extends-refl size b f
  create_hosts_from-Extends rack i (suc count) leaf1 leaf2 has_ipu vms grid_x per_row x y b sized l1
        l2 f =
      let b' : Build = create_rack_host rack i leaf1 leaf2 has_ipu vms (grid_position x y) b in
      let e =
        create_rack_host-Extends rack i leaf1 leaf2 has_ipu vms (grid_position x y) b
          (λ h. sized h i) l1 l2 f in
      Extends-trans size b b' _ e (
        create_hosts_from-Extends rack (i + 1) count leaf1 leaf2 has_ipu vms grid_x per_row
          (if i % per_row == 0 then row_start grid_x per_row else x +ℤ pos 70)
          (if i % per_row == 0 then y +ℤ pos 80 else y) b' sized (still-IsLeaf leaf1 b b' e l1)
          (still-IsSecondLeaf leaf2 b b' e l2) e.fits)

  -- createRackHosts for leaves that were made, whose units have switches of the size that
  -- createServerIPUAndVMs makes.
  pub create_rack_hosts-Extends :
      (rack : ℕ) (leaf1 leaf2 : Bytes) (count : ℕ) (has_ipu : Bool) (vms : ℕ) (grid_x : ℤ)
      (per_row : ℕ) (b : Build)
      → (has_ipu ≡ true → (host : ℕ) → size (ipu_id rack host) ≡ 2 + 1 + vms)
      → IsLeaf leaf1 b
      → IsSecondLeaf leaf2 b
      → Fits size b
      → Extends size b (create_rack_hosts rack leaf1 leaf2 count has_ipu vms grid_x per_row b)
  unfolding create_rack_hosts
  create_rack_hosts-Extends rack leaf1 leaf2 count has_ipu vms grid_x per_row b sized l1 l2 f =
      create_hosts_from-Extends rack 1 count leaf1 leaf2 has_ipu vms grid_x per_row _ _ b sized l1
        l2 f
