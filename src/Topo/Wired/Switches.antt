-- ===== src/Topo/Wired/Switches.antt =====
-- Switches that are added keep a builder fitting.
use mathlib.Core.List.{Memᴰ}
use fabric_sim.Prelude.{
  ℕ, ◌≤◌, Bytes, bytes_eq, ◌==◌, List, [], ◌∷◌, ◌++◌, Option, ◌≡◌, ◌⊎◌, refl, arith, Bool-cases,
  inl, inr,
}
use fabric_sim.GoMap.{lookup-insert}
use fabric_sim.Topo.Schema.{GridPosition, Device, Topology}
use fabric_sim.Topo.Builder.{Build, create_switch, next_agent_port}
use fabric_sim.Topo.Wired.{IsSwitch, IsPortOf, Fits, IsMade, Extends}

module _ {ℓ} {A : Type ℓ} where
  pub Memᴰ-append : (x : A) (xs ys : List A) → Memᴰ x xs → Memᴰ x (xs ++ ys)
  Memᴰ-append x [] ys m = elim m [ ]
  Memᴰ-append x (y ∷ xs) ys (Memᴰ.head e) = Memᴰ.head e
  Memᴰ-append x (y ∷ xs) ys (Memᴰ.tail m) = Memᴰ.tail (Memᴰ-append x xs ys m)

  pub Memᴰ_last : (x : A) (xs : List A) → Memᴰ x (xs ++ x ∷ [])
  Memᴰ_last x [] = Memᴰ.head refl
  Memᴰ_last x (y ∷ xs) = Memᴰ.tail (Memᴰ_last x xs)

  pub Memᴰ_cases : (x y : A) (xs : List A) → Memᴰ x (xs ++ y ∷ []) → Memᴰ x xs ⊎ (x ≡ y)
  Memᴰ_cases x y [] (Memᴰ.head e) = inr e
  Memᴰ_cases x y [] (Memᴰ.tail m) = elim m [ ]
  Memᴰ_cases x y (z ∷ xs) (Memᴰ.head e) = inl (Memᴰ.head e)
  Memᴰ_cases x y (z ∷ xs) (Memᴰ.tail m) = elim (Memᴰ_cases x y xs m) [
    | inl before ↦ inl (Memᴰ.tail before)
    | inr e ↦ inr e
  ]

module _ (size : Bytes → ℕ) where
  -- More switches.
  pub IsSwitch-append :
      (id : Bytes) (t t' : Topology) (ds : List Device)
      → t'.devices ≡ t.devices ++ ds
      → IsSwitch size id t
      → IsSwitch size id t'
  IsSwitch-append id t t' ds e s = record {
    device = s.device;
    among = rw e (Memᴰ-append s.device t.devices ds s.among);
    named = s.named;
    sized = s.sized;
  }

  pub IsPortOf-append :
      (port : Bytes) (t t' : Topology) (ds : List Device)
      → t'.devices ≡ t.devices ++ ds
      → IsPortOf size port t
      → IsPortOf size port t'
  IsPortOf-append port t t' ds e p = record {
    id = p.id;
    number = p.number;
    spelled = p.spelled;
    first = p.first;
    last = p.last;
    switch = IsSwitch-append p.id t t' ds e p.switch;
  }

  -- The same switches.
  pub IsSwitch-same :
      (id : Bytes) (t t' : Topology)
      → t'.devices ≡ t.devices
      → IsSwitch size id t
      → IsSwitch size id t'
  IsSwitch-same id t t' e s = record {
    device = s.device;
    among = rw e s.among;
    named = s.named;
    sized = s.sized;
  }

  pub IsPortOf-same :
      (port : Bytes) (t t' : Topology)
      → t'.devices ≡ t.devices
      → IsPortOf size port t
      → IsPortOf size port t'
  IsPortOf-same port t t' e p = record {
    id = p.id;
    number = p.number;
    spelled = p.spelled;
    first = p.first;
    last = p.last;
    switch = IsSwitch-same p.id t t' e p.switch;
  }

  -- createSwitch with the size of the id, which is not 0.
  pub create_switch-Extends :
      (id : Bytes) (grid : Option GridPosition) (b : Build)
      → 1 ≤ size id
      → Fits size b
      → Extends size b (create_switch id (size id) grid b)
        × IsMade size id (create_switch id (size id) grid b)
  unfolding create_switch next_agent_port
  create_switch-Extends id grid b some_port f =
      let after : Build = create_switch id (size id) grid b in
      (
        record {
          fits = record {
            next_fits = f.next_fits;
            min_fits = λ id' n h. elim (Bool-cases (id == id')) [
              | inl here ↦
                  let e : 1 ≡ n = ground (arith, lookup-insert id id' 1 b.min_port) in
                  rw (← (bytes_eq.beq_iff id id').0 here) (rw (← e) (omega arith, some_port))
              | inr there ↦ f.min_fits id' n (ground (arith, lookup-insert id id' 1 b.min_port))
            ];
            max_fits = λ id' n h. elim (Bool-cases (id == id')) [
              | inl here ↦
                  let e : size id ≡ n = ground (arith, lookup-insert id id' (size id) b.max_port) in
                  rw (← (bytes_eq.beq_iff id id').0 here) (omega arith)
              | inr there ↦
                  f.max_fits id' n (ground (arith, lookup-insert id id' (size id) b.max_port))
            ];
            min_made = λ id' n h. elim (Bool-cases (id == id')) [
              | inl here ↦ (1, ground (arith, lookup-insert id id' 1 b.min_port))
              | inr there ↦
                  let (k, at_min) =
                    f.min_made id' n (ground (arith, lookup-insert id id' (size id) b.max_port)) in
                  (k, ground (arith, lookup-insert id id' 1 b.min_port))
            ];
            made = λ id' n h. elim (Bool-cases (id == id')) [
              | inl here ↦ record {
                device = _;
                among = Memᴰ_last _ b.topology.devices;
                named = (bytes_eq.beq_iff id id').0 here;
                sized = rw (← (bytes_eq.beq_iff id id').0 here) refl;
              }
              | inr there ↦
                  IsSwitch-append id' b.topology after.topology _ refl
                    (f.made id' n (ground (arith, lookup-insert id id' (size id) b.max_port)))
            ];
            wired = record {
              link_src = λ l m.
                  IsPortOf-append l.src b.topology after.topology _ refl (f.wired.link_src l m);
              link_tgt = λ l m.
                  IsPortOf-append l.tgt b.topology after.topology _ refl (f.wired.link_tgt l m);
              nic_port = λ h n m m'.
                  IsPortOf-append n.port b.topology after.topology _ refl
                    (f.wired.nic_port h n m m');
            };
          };
          still_made = λ id' m.
              ground (arith, lookup-insert id id' (size id) b.max_port, bytes_eq.beq_iff id id');
          still_next = λ id' n h. (n, h);
          still_port = λ port p. IsPortOf-append port b.topology after.topology _ refl p;
        },
        ground (arith, lookup-insert id id (size id) b.max_port, bytes_eq.beq_iff id id),
      )
