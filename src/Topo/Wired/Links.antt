-- ===== src/Topo/Wired/Links.antt =====
-- Links that are added, in trunks, keep a builder fitting.
use fabric_sim.Prelude.{
  ℕ, zero, suc, ◌≤◌, Bytes, bytes_eq, ◌==◌, false, some, ◌≡◌, refl, arith, Bool-cases, inl, inr,
}
use fabric_sim.GoMap.{lookup, lookup-insert}
use fabric_sim.Topo.Schema.{Link}
use fabric_sim.Topo.Builder.{
  Build, port_of, next_device_port_id, append_link, create_link_trunk, latch_min_port,
}
use fabric_sim.Topo.Wired.{
  IsPortOf, Fits, IsMade, Extends, Extends-refl, Extends-trans, next_device_port_id-Extends,
}
use fabric_sim.Topo.Wired.Switches.{Memᴰ_cases, IsPortOf-same, IsSwitch-same}

module _ (size : Bytes → ℕ) where
  append_link-Extends :
      (l : Link) (b : Build)
      → IsPortOf size l.src b.topology
      → IsPortOf size l.tgt b.topology
      → Fits size b
      → Extends size b (append_link l b)
  unfolding append_link
  append_link-Extends l b from to f =
      let kept = λ (port : Bytes) (p : IsPortOf size port b.topology).
        IsPortOf-same size port b.topology (append_link l b).topology refl p in
      record {
        fits = record {
          next_fits = f.next_fits;
          min_fits = f.min_fits;
          max_fits = f.max_fits;
          min_made = f.min_made;
          made = λ id n h.
              IsSwitch-same size id b.topology (append_link l b).topology refl (f.made id n h);
          wired = record {
            link_src = λ l' m. elim (Memᴰ_cases l' l b.topology.links m) [
              | inl old ↦ kept l'.src (f.wired.link_src l' old)
              | inr e ↦ rw e (kept l.src from)
            ];
            link_tgt = λ l' m. elim (Memᴰ_cases l' l b.topology.links m) [
              | inl old ↦ kept l'.tgt (f.wired.link_tgt l' old)
              | inr e ↦ rw e (kept l.tgt to)
            ];
            nic_port = λ h n m m'. kept n.port (f.wired.nic_port h n m m');
          };
        };
        still_made = λ id m. m;
        still_next = λ id n h. (n, h);
        still_port = kept;
      }

  -- createLinkTrunk between switches that were made; a link of it leaves the next port of the target
  -- known.
  pub create_link_trunk-Extends :
      (src tgt : Bytes) (count : ℕ) (b : Build)
      → 1 ≤ size src
      → 1 ≤ size tgt
      → IsMade size src b
      → IsMade size tgt b
      → Fits size b
      → Extends size b (create_link_trunk src tgt count b)
        × (1 ≤ count
            → (n : ℕ) × (lookup tgt (create_link_trunk src tgt count b).next_port ≡ some n))
  unfolding create_link_trunk
  create_link_trunk-Extends src tgt zero b p q m m' f =
      (Extends-refl size b f, λ h. absurd (omega arith))
  create_link_trunk-Extends src tgt (suc count) b p q m m' f =
      let (e1, from, known1) = next_device_port_id-Extends size src b p m f in
      let b1 : Build = (next_device_port_id src b).0 in
      let (e2, to, (n, known)) =
        next_device_port_id-Extends size tgt b1 q (e1.still_made tgt m') e1.fits in
      let b2 : Build = (next_device_port_id tgt b1).0 in
      let l : Link = record {
        src = (next_device_port_id src b).1;
        tgt = (next_device_port_id tgt b1).1;
        unidirectional = false;
      } in
      let e3 = append_link-Extends l b2 (e2.still_port l.src from) to e2.fits in
      let e12 = Extends-trans size b b1 b2 e1 e2 in
      let e13 = Extends-trans size b b2 (append_link l b2) e12 e3 in
      let (e4, known4) =
        create_link_trunk-Extends src tgt count (append_link l b2) p q (e13.still_made src m)
          (e13.still_made tgt m') e3.fits in
      (
        Extends-trans size b (append_link l b2) _ e13 e4,
        λ _. let (k, known3) = e3.still_next tgt n known in e4.still_next tgt k known3,
      )

  port_of_known :
      (id : Bytes) (n : ℕ) (b : Build) → lookup id b.next_port ≡ some n → port_of id b.next_port ≡ n
  unfolding port_of
  port_of_known id n b known = rw (known, port_of) refl

  -- builder.minPort[id] = builder.nextPort[id], where the next port is known.
  pub latch_min_port-Extends :
      (id : Bytes) (n : ℕ) (b : Build)
      → lookup id b.next_port ≡ some n
      → Fits size b
      → Extends size b (latch_min_port id b)
  unfolding latch_min_port
  latch_min_port-Extends id n b known f =
      let value = port_of_known id n b known in
      let k' : ℕ = port_of id b.next_port in
      record {
        fits = record {
          next_fits = f.next_fits;
          min_fits = λ id' k h. elim (Bool-cases (id == id')) [
            | inl here ↦
                let e : k' ≡ k = ground (arith, lookup-insert id id' k' b.min_port) in
                rw (← (bytes_eq.beq_iff id id').0 here)
                  (rw (← e) (rw value (f.next_fits id n known)))
            | inr there ↦ f.min_fits id' k (ground (arith, lookup-insert id id' k' b.min_port))
          ];
          max_fits = f.max_fits;
          min_made = λ id' k h. elim (Bool-cases (id == id')) [
            | inl here ↦ (k', ground (arith, lookup-insert id id' k' b.min_port))
            | inr there ↦
                let (j, at_min) = f.min_made id' k h in
                (j, ground (arith, lookup-insert id id' k' b.min_port))
          ];
          made = f.made;
          wired = f.wired;
        };
        still_made = λ id' m. m;
        still_next = λ id' k h. (k, h);
        still_port = λ port p. p;
      }
