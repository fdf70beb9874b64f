-- ===== src/Entries/Cells/Laws.antt =====
-- Counter and meter cells: a cell holds an entry of its own index and of its own counter, and a
-- write changes exactly the cell that it addresses.
use native.Mathlib.Decide.{ℕ_discrete}
use fabric_sim.Prelude.{
  ltb→lt, ℕ, zero, suc, ◌+◌, ◌<◌, nat_eq, ◌≡◌, ◌≢◌, refl, sym, ap, ◌∙◌, ℤ, pos, negsuc, List, [],
  ◌∷◌, Bool, true, false, Option, none, some, arith, ltb, set, length, get_elem?, length-set,
  get_elem?-set_self, get_elem?-set_ne,
}
use fabric_sim.GoMap.{GoMap, lookup, insert, lookup-insert_self, lookup-insert_ne}
use fabric_sim.GoMap.Every.{Every, insert-Every, lookup-Every}
use fabric_sim.Outcome.{not_found, Outcome, done, failed, panic, Leaves, returned, refused, crashed}
use fabric_sim.Outcome.Rules.{Leaves-if, Leaves-option, Leaves-map, lookup-lift-done}
use fabric_sim.Entries.Message.{CounterEntry, MeterEntry, CellsInfo}
use fabric_sim.Entries.Cells.{
  Cells, cell_loop, new_cells, write_cell, write_cell_of, add_cells, counter_cell, meter_cell,
  Counters, Meters, new_counters, new_meters, modify_counter_entry, modify_meter_entry,
}

module _ {ℓ} {E : Type ℓ} (index : E → Option ℤ) (id : E → ℕ) where
  -- Every cell holds an entry of its own position, and the array has the announced size.
  pub record AreIndexed (key : ℕ) (c : Cells E) : Type ℓ where
    pub sized : c.info.size ≡ pos (length c.cells)
    pub placed :
        (i : ℕ) (x : E) → get_elem? c.cells i ≡ some x → (index x ≡ some (pos i)) × (id x ≡ key)

  cell_loop-placed :
      (cell : ℕ → E) (key : ℕ)
      → ((i : ℕ) → (index (cell i) ≡ some (pos i)) × (id (cell i) ≡ key))
      → (i n j : ℕ) (x : E) → get_elem? (cell_loop cell i n) j ≡ some x
      → (index x ≡ some (pos (i + j))) × (id x ≡ key)
  unfolding cell_loop
  cell_loop-placed cell key good i zero j x h = cc
  cell_loop-placed cell key good i (suc n) zero x h = ground (arith, good i)
  cell_loop-placed cell key good i (suc n) (suc j) x h =
      ground (arith, cell_loop-placed cell key good (suc i) n j x h)

  length-cell_loop : (cell : ℕ → E) (i n : ℕ) → length (cell_loop cell i n) ≡ n
  unfolding cell_loop
  length-cell_loop cell i zero = refl
  length-cell_loop cell i (suc n) = ap suc (length-cell_loop cell (suc i) n)

  new_cells-AreIndexed :
      (cell : CellsInfo → ℕ → E) (info : CellsInfo)
      → ((i : ℕ) → (index (cell info i) ≡ some (pos i)) × (id (cell info i) ≡ info.id))
      → Leaves (AreIndexed info.id) (new_cells cell info)
  unfolding new_cells
  new_cells-AreIndexed cell info good = go info.size refl
    where
      go :
          (z : ℤ)
          → info.size ≡ z
          → Leaves (AreIndexed info.id) (elim z [
            | pos n ↦ done (record { info = info; cells = cell_loop (cell info) 0 n })
            | negsuc n ↦ panic
          ])
      go (negsuc n) e = crashed
      go (pos n) e = returned (record {
        sized = e ∙ ap pos (sym (length-cell_loop (cell info) 0 n));
        placed = λ i x h. ground (arith, cell_loop-placed (cell info) info.id good 0 n i x h);
      })

  set-AreIndexed :
      (key i : ℕ) (e : E) (c : Cells E)
      → index e ≡ some (pos i)
      → id e ≡ key
      → i < length c.cells
      → AreIndexed key c
      → AreIndexed key (record c { cells = set c.cells i e })
  set-AreIndexed key i e c at same small v = record {
    sized = v.sized ∙ ap pos (sym (length-set c.cells i e));
    placed = λ j x h. elim (ℕ_discrete i j) [
      | yes here ↦ ground (arith, get_elem?-set_self c.cells i e small)
      | no there ↦ v.placed j x (sym (get_elem?-set_ne c.cells i j e there) ∙ h)
    ];
  }

  write_cell-AreIndexed :
      (key : ℕ) (e : E) (c : Cells E)
      → id e ≡ key
      → AreIndexed key c
      → Leaves (AreIndexed key) (write_cell (index e) e c)
  unfolding write_cell
  write_cell-AreIndexed key e c same v = go (index e) refl
    where
      go : (o : Option ℤ) → index e ≡ o → Leaves (AreIndexed key) (write_cell o e c)
      go none h = refused v
      go (some (negsuc n)) h = refused v
      go (some (pos i)) h =
          Leaves-if (ltb i (length c.cells))
            (λ small. returned (set-AreIndexed key i e c h same (ltb→lt _ _ small) v))
            (λ _. refused v)

  -- All arrays of the map, each under its id.
  abbrev pub AllIndexed : GoMap ℕ (Cells E) → Type ℓ
  AllIndexed = Every AreIndexed

  add_cells-AllIndexed :
      (cell : CellsInfo → ℕ → E)
      → ((info : CellsInfo) (i : ℕ)
          → (index (cell info i) ≡ some (pos i)) × (id (cell info i) ≡ info.id))
      → (infos : List CellsInfo) (cs : GoMap ℕ (Cells E)) → AllIndexed cs
      → Leaves AllIndexed (add_cells cell infos cs)
  unfolding add_cells
  add_cells-AllIndexed cell good [] cs v = returned v
  add_cells-AllIndexed cell good (i ∷ is) cs v =
      go
        (λ c p.
          add_cells-AllIndexed cell good is (insert i.id c cs)
            (insert-Every AreIndexed i.id c cs p v))
        (new_cells cell i) (new_cells-AreIndexed cell i (good i))
    where
      go :
          ((c : Cells E)
            → AreIndexed i.id c
            → Leaves AllIndexed (add_cells cell is (insert i.id c cs)))
          → (m : Outcome (Cells E)) → Leaves (AreIndexed i.id) m
          → Leaves AllIndexed (elim m [
            | done c ↦ add_cells cell is (insert i.id c cs)
            | failed e c ↦ failed e cs
            | panic ↦ panic
          ])
      go rest (done c) (returned p) = rest c p
      go rest (failed e c) p = refused v
      go rest panic p = crashed

  write_cell_of-AllIndexed :
      (e : E) (is_insert : Bool) (cs : GoMap ℕ (Cells E))
      → AllIndexed cs
      → Leaves AllIndexed (write_cell_of (id e) (index e) e is_insert cs)
  unfolding write_cell_of
  write_cell_of-AllIndexed e is_insert cs v =
      Leaves-if is_insert (λ _. refused v)
        (λ _. Leaves-option (lookup (id e) cs) (refused v) (λ c found.
          Leaves-map (λ c'. insert (id e) c' cs) (write_cell (index e) e c)
            (write_cell-AreIndexed (id e) e c refl (lookup-Every AreIndexed (id e) cs found v))
            (λ c' v'. insert-Every AreIndexed (id e) c' cs v' v)))

-- What an accepted write of a cell has checked, and all that it changes.
pub record IsWritten {ℓ} {E : Type ℓ} (key : ℕ) (at : Option ℤ) (e : E) (is_insert : Bool)
    (cs cs' : GoMap ℕ (Cells E)) : Type ℓ where
  pub updates : is_insert ≡ false
  pub array : Cells E
  pub found : lookup key cs ≡ some array
  pub i : ℕ
  pub index_given : at ≡ some (pos i)
  pub in_bounds : i < length array.cells
  pub array' : Cells E
  pub found' : lookup key cs' ≡ some array'
  pub written : get_elem? array'.cells i ≡ some e
  pub others : (j : ℕ) → i ≢ j → get_elem? array'.cells j ≡ get_elem? array.cells j
  pub same_length : length array'.cells ≡ length array.cells
  pub elsewhere : (k : ℕ) → key ≢ k → lookup k cs' ≡ lookup k cs

write_cell_done {ℓ} :
    {E : Type ℓ} (at : Option ℤ) (e : E) (c c' : Cells E)
    → write_cell at e c ≡ done c'
    → (i : ℕ) × (at ≡ some (pos i))
      × (i < length c.cells)
      × (c' ≡ record c { cells = set c.cells i e })
unfolding write_cell
write_cell_done none e c c' h = cc
write_cell_done (some (negsuc n)) e c c' h = cc
write_cell_done (some (pos i)) e c c' h = (i, refl, ground arith, ground arith)

write_cell_of_done {ℓ} :
    {E : Type ℓ} (key : ℕ) (at : Option ℤ) (e : E) (is_insert : Bool) (cs cs' : GoMap ℕ (Cells E))
    → write_cell_of key at e is_insert cs ≡ done cs'
    → (is_insert ≡ false)
      × (c : Cells E) × (c' : Cells E) × (lookup key cs ≡ some c)
      × (write_cell at e c ≡ done c')
      × (cs' ≡ insert key c' cs)
unfolding write_cell_of
write_cell_of_done key at e true cs cs' h = cc
write_cell_of_done key at e false cs cs' h =
    let (c, found, c', run, write) =
      lookup-lift-done (lookup key cs) not_found cs (λ c c'. insert key c' cs)
        (λ c. write_cell at e c) h in
    (refl, c, c', found, run, write)

write_cell_of-IsWritten {ℓ} :
    {E : Type ℓ} (key : ℕ) (at : Option ℤ) (e : E) (is_insert : Bool) (cs cs' : GoMap ℕ (Cells E))
    → write_cell_of key at e is_insert cs ≡ done cs'
    → IsWritten key at e is_insert cs cs'
write_cell_of-IsWritten key at e is_insert cs cs' h =
    let (updates, c, c', found, run, write) = write_cell_of_done key at e is_insert cs cs' h in
    let (i, given, small, write') = write_cell_done at e c c' run in
    record {
      updates = updates;
      array = c;
      found = found;
      i = i;
      index_given = given;
      in_bounds = small;
      array' = c';
      found' = rw write (lookup-insert_self key c' cs);
      written = rw write' (get_elem?-set_self c.cells i e small);
      others = λ j there. rw write' (get_elem?-set_ne c.cells i j e there);
      same_length = rw write' (length-set c.cells i e);
      elsewhere = λ k there. rw write (lookup-insert_ne key k c' cs there);
    }

-- An accepted write of a counter cell is an update of a cell inside an existing counter; that
-- cell then holds the entry, and no other cell and no other counter changes.
pub modify_counter_entry-IsWritten :
    (e : CounterEntry) (is_insert : Bool) (cs cs' : Counters)
    → modify_counter_entry e is_insert cs ≡ done cs'
    → IsWritten e.counter_id e.index e is_insert cs cs'
unfolding modify_counter_entry
modify_counter_entry-IsWritten e is_insert cs cs' h =
    write_cell_of-IsWritten e.counter_id e.index e is_insert cs cs' h

-- An accepted write of a meter cell is an update of a cell inside an existing meter; that cell then
-- holds the entry, and no other cell and no other meter changes.
pub modify_meter_entry-IsWritten :
    (e : MeterEntry) (is_insert : Bool) (cs cs' : Meters)
    → modify_meter_entry e is_insert cs ≡ done cs'
    → IsWritten e.meter_id e.index e is_insert cs cs'
unfolding modify_meter_entry
modify_meter_entry-IsWritten e is_insert cs cs' h =
    write_cell_of-IsWritten e.meter_id e.index e is_insert cs cs' h

-- Counters and meters keep cells that hold entries of their own index and id.
abbrev pub CountersValid : Counters → Type 0
CountersValid = AllIndexed (λ e. e.index) (λ e. e.counter_id)

abbrev pub MetersValid : Meters → Type 0
MetersValid = AllIndexed (λ e. e.index) (λ e. e.meter_id)

pub new_counters-CountersValid :
    (infos : List CellsInfo) → Leaves CountersValid (new_counters infos)
unfolding new_counters
new_counters-CountersValid infos =
    add_cells-AllIndexed (λ e. e.index) (λ e. e.counter_id) counter_cell (λ info i. (refl, refl))
      infos [] tt

pub new_meters-MetersValid : (infos : List CellsInfo) → Leaves MetersValid (new_meters infos)
unfolding new_meters
new_meters-MetersValid infos =
    add_cells-AllIndexed (λ e. e.index) (λ e. e.meter_id) meter_cell (λ info i. (refl, refl)) infos
      [] tt

pub modify_counter_entry-CountersValid :
    (e : CounterEntry) (is_insert : Bool) (cs : Counters)
    → CountersValid cs
    → Leaves CountersValid (modify_counter_entry e is_insert cs)
unfolding modify_counter_entry
modify_counter_entry-CountersValid e is_insert cs v =
    write_cell_of-AllIndexed (λ e. e.index) (λ e. e.counter_id) e is_insert cs v

pub modify_meter_entry-MetersValid :
    (e : MeterEntry) (is_insert : Bool) (cs : Meters)
    → MetersValid cs
    → Leaves MetersValid (modify_meter_entry e is_insert cs)
unfolding modify_meter_entry
modify_meter_entry-MetersValid e is_insert cs v =
    write_cell_of-AllIndexed (λ e. e.index) (λ e. e.meter_id) e is_insert cs v
