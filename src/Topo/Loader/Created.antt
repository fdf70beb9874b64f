-- ===== src/Topo/Loader/Created.antt =====
-- The devices that the loader creates, and the ports that exist after it.
use mathlib.Core.Path.{subst}
use mathlib.Core.List.{Memᴰ}
use fabric_sim.Prelude.{
  ℕ, suc, false, nat_eq, bytes_eq, ◌==◌, Bytes, List, [], ◌∷◌, map, none, some, ◌≡◌, ◌⊎◌, refl, sym,
  ap, ◌∙◌, arith, Bool-cases, inl, inr,
}
use fabric_sim.GoMap.{lookup, insert, lookup-insert}
use fabric_sim.Outcome.{Outcome, done, failed, panic, ◌>>=◌}
use fabric_sim.Outcome.Each.{each}
use fabric_sim.Device.State.{DeviceSim, add_ports, new_device_simulator}
use fabric_sim.Device.State as State
use fabric_sim.Simulation.Ports.{
  Simulation, extract_device_id, extract_device_id-append, add_device,
}
use fabric_sim.Simulation.Attached.{Exists, IsPort-Exists, Exists-insert}
use fabric_sim.Topo.Schema.{Port, Device}
use fabric_sim.Topo.Text.{decimal, port_id}
use fabric_sim.Topo.Loader.{construct_port, construct_device, create_device, create_devices}

add_ports_found :
    (i : ℕ) (ps : List State.Port) (d : DeviceSim) (port : Bytes)
    → ((p : State.Port) × Memᴰ p ps × (p.id ≡ port)) ⊎ ((k : ℕ) × (lookup port d.ports ≡ some k))
    → (k : ℕ) × (lookup port (add_ports i ps d).ports ≡ some k)
unfolding add_ports
add_ports_found i [] d port (inl (p, m, e)) = elim m [ ]
add_ports_found i [] d port (inr found) = found
add_ports_found i (q ∷ ps) d port h =
    add_ports_found (suc i) ps
      (record d {
        ports = insert q.id i d.ports;
        sdn_ports = insert q.internal_number i d.sdn_ports;
      })
      port (next h)
  where
    now : q.id ≡ port → (k : ℕ) × (lookup port (insert q.id i d.ports) ≡ some k)
    now e = (i, ground (arith, lookup-insert q.id port i d.ports, bytes_eq.beq_iff q.id port))

    kept :
        (k : ℕ)
        → lookup port d.ports ≡ some k
        → (k' : ℕ) × (lookup port (insert q.id i d.ports) ≡ some k')
    kept k found = elim (Bool-cases (q.id == port)) [
      | inl here ↦ (i, ground (arith, lookup-insert q.id port i d.ports))
      | inr there ↦ (k, ground (arith, lookup-insert q.id port i d.ports))
    ]

    next :
        ((p : State.Port) × Memᴰ p (q ∷ ps) × (p.id ≡ port))
          ⊎ ((k : ℕ) × (lookup port d.ports ≡ some k))
        → ((p : State.Port) × Memᴰ p ps × (p.id ≡ port))
          ⊎ ((k : ℕ) × (lookup port (insert q.id i d.ports) ≡ some k))
    next (inl (p, Memᴰ.head e, named)) = inr (now (ap (λ r. r.id) (sym e) ∙ named))
    next (inl (p, Memᴰ.tail m, named)) = inl (p, m, named)
    next (inr (k, found)) = inr (kept k found)

Memᴰ-map {ℓ κ} :
    {A : Type ℓ} {B : Type κ} (f : A → B) (x : A) (xs : List A) → Memᴰ x xs → Memᴰ (f x) (map f xs)
Memᴰ-map f x [] m = elim m [ ]
Memᴰ-map f x (y ∷ xs) (Memᴰ.head e) = Memᴰ.head (ap f e)
Memᴰ-map f x (y ∷ xs) (Memᴰ.tail m) = Memᴰ.tail (Memᴰ-map f x xs m)

-- A device that was just created has its ports, if its id has no slash.
create_device-Exists :
    (dd : Device) (pd : Port) (s s' : Simulation)
    → extract_device_id dd.id ≡ none
    → Memᴰ pd dd.ports
    → create_device dd s ≡ done s'
    → Exists (port_id dd.id pd.number) s'
unfolding create_device add_device construct_device construct_port port_id new_device_simulator
create_device-Exists dd pd s s' free m created =
    let d : DeviceSim = new_device_simulator (construct_device dd) in
    let after : s'.devices ≡ insert dd.id d s.devices = ground arith in
    let held : lookup dd.id s'.devices ≡ some d =
      rw after
        (ground (arith, lookup-insert dd.id dd.id d s.devices, bytes_eq.beq_iff dd.id dd.id)) in
    let (k, found) =
      add_ports_found 0 (map (construct_port dd.id) dd.ports) _ (port_id dd.id pd.number)
        (inl (construct_port dd.id pd, Memᴰ-map (construct_port dd.id) pd dd.ports m, refl)) in
    IsPort-Exists (port_id dd.id pd.number) s' (record {
      device_id = dd.id;
      named = extract_device_id-append dd.id (decimal pd.number) free;
      device = d;
      held = held;
      pointer = k;
      at_port = found;
    })

-- A port that exists still does after another device is created.
create_device-kept :
    (dd : Device) (port : Bytes) (s s' : Simulation)
    → create_device dd s ≡ done s'
    → Exists port s
    → Exists port s'
unfolding create_device add_device construct_device
create_device-kept dd port s s' created e =
    Exists-insert port dd.id (new_device_simulator (construct_device dd)) s s' (ground arith)
      (λ d held. absurd (ground arith)) e

-- What the creation of a list of devices does for the ports: those that existed still do, and so do
-- those of the devices, for ids without a slash.
pub record Created (ds : List Device) (s s' : Simulation) : Type 0 where
  pub kept : (port : Bytes) → Exists port s → Exists port s'
  pub created :
      (dd : Device) (pd : Port)
      → Memᴰ dd ds
      → extract_device_id dd.id ≡ none
      → Memᴰ pd dd.ports
      → Exists (port_id dd.id pd.number) s'

pub create_devices-Created :
    (ds : List Device) (s s' : Simulation) → create_devices ds s ≡ done s' → Created ds s s'
unfolding create_devices each
create_devices-Created [] s s' h = record {
  kept = λ port e. ground arith;
  created = λ dd pd m. elim m [ ];
}
create_devices-Created (d ∷ ds) s s' h =
    go (create_device d s) refl h (λ t. create_devices-Created ds t s')
  where
    go :
        (m : Outcome Simulation)
        → create_device d s ≡ m
        → (m >>= each create_device ds) ≡ done s'
        → ((t : Simulation) → each create_device ds t ≡ done s' → Created ds t s')
        → Created (d ∷ ds) s s'
    go (done t) e rest ih = record {
      kept = λ port x. (ih t rest).kept port (create_device-kept d port s t e x);
      created = λ dd pd m free p. elim m [
        | Memᴰ.head same ↦
            let p' : Memᴰ pd d.ports = subst (λ (x : Device). Memᴰ pd x.ports) same p in
            let free' : extract_device_id d.id ≡ none =
              subst (λ (x : Device). extract_device_id x.id ≡ none) same free in
            subst (λ (x : Device). Exists (port_id x.id pd.number) s') (sym same)
              ((ih t rest).kept (port_id d.id pd.number) (create_device-Exists d pd s t free' p' e))
        | Memᴰ.tail later ↦ (ih t rest).created dd pd later free p
      ];
    }
    go (failed f t) e rest ih = absurd (cc)
    go panic e rest ih = absurd (cc)

-- The devices of a list have different ids.
abbrev pub HaveDistinctIds : List Device → Type 0
HaveDistinctIds [] = Unit
HaveDistinctIds (d ∷ ds) = ((x : Device) → Memᴰ x ds → (d.id == x.id) ≡ false) × HaveDistinctIds ds

create_device_done :
    (d : Device) (s : Simulation)
    → lookup d.id s.devices ≡ none
    → create_device d s
      ≡ done
          (record s { devices = insert d.id (new_device_simulator (construct_device d)) s.devices })
unfolding create_device add_device construct_device
create_device_done d s free = rw (free, add_device) refl

-- Devices with different ids that are new to the simulation are all created.
pub create_devices_done :
    (ds : List Device) (s : Simulation)
    → HaveDistinctIds ds
    → ((d : Device) → Memᴰ d ds → lookup d.id s.devices ≡ none)
    → (s' : Simulation) × (create_devices ds s ≡ done s')
unfolding create_devices each
create_devices_done [] s distinct fresh = (s, refl)
create_devices_done (d ∷ ds) s distinct fresh =
    let free = fresh d (Memᴰ.head refl) in
    let dsim : DeviceSim = new_device_simulator (construct_device d) in
    let s1 : Simulation = record s { devices = insert d.id dsim s.devices } in
    let (s', rest) = create_devices_done ds s1 distinct.1 λ x m.
      ground
        (arith, lookup-insert d.id x.id dsim s.devices, distinct.0 x m, fresh x (Memᴰ.tail m)) in
    (s', rw (create_device_done d s free) rest)
