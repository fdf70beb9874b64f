-- ===== src/Topo/Wired/Spines.antt =====
-- The spines of a fabric, and the leaves that are attached to them, keep a builder fitting.
use mathlib.Core.Path.{subst}
use fabric_sim.Prelude.{
  ℕ, zero, suc, ◌+◌, ◌≤◌, ◌<◌, nat_eq, Bytes, bytes_eq, ◌==◌, Option, some, ◌≡◌, arith, Bool-cases,
  inl, inr,
}
use fabric_sim.GoMap.{lookup, insert, lookup-insert}
use fabric_sim.Topo.Schema.{GridPosition}
use fabric_sim.Topo.Builder.{Build, new_builder, create_switch, create_link_trunk}
use fabric_sim.Topo.Fabrics.{spine_id, attach_leaf}
use fabric_sim.Topo.Wired.{Fits, IsMade, Extends, Extends-refl, Extends-trans}
use fabric_sim.Topo.Wired.Switches.{create_switch-Extends}
use fabric_sim.Topo.Wired.Links.{create_link_trunk-Extends}
use fabric_sim.Topo.Wired.Racks.{IsLeaf, still-IsLeaf}

module _ (size : Bytes → ℕ) where
  pub new_builder-Fits : Fits size new_builder
  unfolding lookup
  new_builder-Fits = record {
    next_fits = λ id n h. absurd (cc);
    min_fits = λ id n h. absurd (cc);
    max_fits = λ id n h. absurd (cc);
    min_made = λ id n h. absurd (cc);
    made = λ id n h. absurd (cc);
    wired = record {
      link_src = λ l m. elim m [ ];
      link_tgt = λ l m. elim m [ ];
      nic_port = λ h n m m'. elim m [ ];
    };
  }

  pub switch-Extends :
      (id : Bytes) (count : ℕ) (grid : Option GridPosition) (b : Build)
      → size id ≡ count
      → 1 ≤ count
      → Fits size b
      → Extends size b (create_switch id count grid b)
        × IsLeaf size id (create_switch id count grid b)
  switch-Extends id count grid b sized some_port f =
      let some_size : 1 ≤ size id = omega arith in
      let (e, m) =
        subst
          (λ (k : ℕ).
            Extends size b (create_switch id k grid b) × IsMade size id (create_switch id k grid b))
          sized (create_switch-Extends size id grid b some_size f) in
      (e, (some_size, m))

  -- builder.nextPort[id] = n
  pub reset-Extends :
      (id : Bytes) (n : ℕ) (b : Build)
      → 1 ≤ n
      → n ≤ size id
      → Fits size b
      → Extends size b (record b { next_port = insert id n b.next_port })
  reset-Extends id n b first last f = record {
    fits = record {
      next_fits = λ id' k h. elim (Bool-cases (id == id')) [
        | inl here ↦
            let e : n ≡ k = ground (arith, lookup-insert id id' n b.next_port) in
            rw (← (bytes_eq.beq_iff id id').0 here) (rw (← e) (first, last))
        | inr there ↦ f.next_fits id' k (ground (arith, lookup-insert id id' n b.next_port))
      ];
      min_fits = f.min_fits;
      max_fits = f.max_fits;
      min_made = f.min_made;
      made = f.made;
      wired = f.wired;
    };
    still_made = λ id' m. m;
    still_next = λ id' k h. elim (Bool-cases (id == id')) [
      | inl here ↦ (n, ground (arith, lookup-insert id id' n b.next_port))
      | inr there ↦ (k, ground (arith, lookup-insert id id' n b.next_port))
    ];
    still_port = λ port p. p;
  }

  -- The spines of a range of numbers are made.
  abbrev pub AreSpines : ℕ → ℕ → Build → Type 0
  AreSpines from to b = (j : ℕ) → from ≤ j → j < to → IsLeaf size (spine_id j) b

  pub still-AreSpines :
      (from to : ℕ) (b b' : Build) → Extends size b b' → AreSpines from to b → AreSpines from to b'
  still-AreSpines from to b b' e made j h k = still-IsLeaf size (spine_id j) b b' e (made j h k)

  pub AreSpines-next :
      (i to : ℕ) (b : Build)
      → IsLeaf size (spine_id i) b
      → AreSpines (i + 1) to b
      → AreSpines i to b
  AreSpines-next i to b l more j h k = elim (Bool-cases (i == j)) [
    | inl here ↦ let e : i ≡ j = ground arith in rw (← e) l
    | inr there ↦ more j (ground arith) k
  ]

  pub attach_leaf-Extends :
      (leaf : Bytes) (trunk i count : ℕ) (b : Build)
      → AreSpines i (i + count) b
      → IsLeaf size leaf b
      → Fits size b
      → Extends size b (attach_leaf leaf trunk i count b)
        × (1 ≤ trunk
            → 1 ≤ count
            → (n : ℕ) × (lookup leaf (attach_leaf leaf trunk i count b).next_port ≡ some n))
  unfolding attach_leaf
  attach_leaf-Extends leaf trunk i zero b spines l f =
      (Extends-refl size b f, λ p q. absurd (omega arith))
  attach_leaf-Extends leaf trunk i (suc count) b spines l f =
      let s = spines i (omega arith) (omega arith) in
      let b' : Build = create_link_trunk (spine_id i) leaf trunk b in
      let (e, known) = create_link_trunk-Extends size (spine_id i) leaf trunk b s.0 l.0 s.1 l.1 f in
      let (e', known') =
        attach_leaf-Extends leaf trunk (i + 1) count b'
          (λ j h k. still-IsLeaf size (spine_id j) b b' e (spines j (omega arith) (omega arith)))
          (still-IsLeaf size leaf b b' e l) e.fits in
      (
        Extends-trans size b b' _ e e',
        λ p q. let (n, at_next) = known p in e'.still_next leaf n at_next,
      )
