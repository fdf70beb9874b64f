-- ===== src/Entries/Cells.antt =====
-- pkg/simulator/entries/counter.go and meter.go: arrays of cells that a write addresses by index.
-- The two files have one shape; the element type and its index field are the parameters.
pub mod Laws
use fabric_sim.Prelude.{
  ℕ, zero, suc, nat_eq, ℤ, pos, negsuc, Bytes, List, [], ◌∷◌, Bool, Option, none, some, ltb, set,
  length, get_elem?, if◌then◌else◌,
}
use fabric_sim.GoMap.{GoMap, lookup, insert, values}
use fabric_sim.Outcome.{Error, not_found, invalid, Outcome, done, failed, panic, lift, ◌>>=◌}
use fabric_sim.Entries.Message.{CounterEntry, MeterEntry, CellsInfo}

-- Counter and Meter
pub record Cells {ℓ} (E : Type ℓ) : Type ℓ where
  pub info : CellsInfo
  pub cells : List E

module _ {ℓ} {E : Type ℓ} where
  -- The loop of NewCounter and NewMeter, from cell `i` for `n` cells.
  unfoldable pub cell_loop : (ℕ → E) → ℕ → ℕ → List E
  cell_loop cell i zero = []
  cell_loop cell i (suc n) = cell i ∷ cell_loop cell (suc i) n

  -- `make([]T, size)` panics for a negative size; one that is too large is not modelled.
  unfoldable pub new_cells : (CellsInfo → ℕ → E) → CellsInfo → Outcome (Cells E)
  unfolding cell_loop
  new_cells cell info = elim info.size [
    | pos n ↦ done (record { info = info; cells = cell_loop (cell info) 0 n })
    | negsuc n ↦ panic
  ]

  -- The guard and the write of the second half of the Modify functions.
  unfoldable pub write_cell : Option ℤ → E → Cells E → Outcome (Cells E)
  write_cell none e c = failed not_found c
  write_cell (some (negsuc n)) e c = failed not_found c
  write_cell (some (pos i)) e c =
      if ltb i (length c.cells)
      then done (record c { cells = set c.cells i e })
      else failed not_found c

  -- The map lookup before it.
  unfoldable pub write_cell_of :
      ℕ → Option ℤ → E → Bool → GoMap ℕ (Cells E) → Outcome (GoMap ℕ (Cells E))
  unfolding write_cell
  write_cell_of id index e is_insert cs =
      if is_insert then failed invalid cs else elim (lookup id cs) [
        | none ↦ failed not_found cs
        | some c ↦ lift (λ c'. insert id c' cs) (write_cell index e c)
      ]

  -- The loops of NewCounters and NewMeters.
  unfoldable pub add_cells :
      (CellsInfo → ℕ → E) → List CellsInfo → GoMap ℕ (Cells E) → Outcome (GoMap ℕ (Cells E))
  unfolding new_cells
  add_cells cell [] cs = done cs
  add_cells cell (i ∷ is) cs = elim (new_cells cell i) [
    | done c ↦ add_cells cell is (insert i.id c cs)
    | failed e c ↦ failed e cs
    | panic ↦ panic
  ]

-- The cells that NewCounter and NewMeter make.
abbrev pub counter_cell : CellsInfo → ℕ → CounterEntry
counter_cell info i = record { counter_id = info.id; index = some (pos i); counter_data = none }

abbrev pub meter_cell : CellsInfo → ℕ → MeterEntry
meter_cell info i = record { meter_id = info.id; index = some (pos i); config = none }

-- Counters and Meters
abbrev pub Counters : Type 0
Counters = GoMap ℕ (Cells CounterEntry)

abbrev pub Meters : Type 0
Meters = GoMap ℕ (Cells MeterEntry)

-- NewCounters
unfoldable pub new_counters : List CellsInfo → Outcome Counters
unfolding add_cells
new_counters infos = add_cells counter_cell infos []

-- NewMeters
unfoldable pub new_meters : List CellsInfo → Outcome Meters
unfolding add_cells
new_meters infos = add_cells meter_cell infos []

-- ModifyCounterEntry
unfoldable pub modify_counter_entry : CounterEntry → Bool → Counters → Outcome Counters
unfolding write_cell_of
modify_counter_entry e is_insert = write_cell_of e.counter_id e.index e is_insert

-- ModifyMeterEntry
unfoldable pub modify_meter_entry : MeterEntry → Bool → Meters → Outcome Meters
unfolding write_cell_of
modify_meter_entry e is_insert = write_cell_of e.meter_id e.index e is_insert

-- Counter.Size and Meter.Size
unfoldable pub cells_size {ℓ} : {E : Type ℓ} → Cells E → ℕ
cells_size c = length c.cells

-- Counter.Cell and Meter.Cell, which panic outside the array
unfoldable pub cell {ℓ} : {E : Type ℓ} → ℤ → Cells E → Option E
cell (pos i) c = get_elem? c.cells i
cell (negsuc i) c = none

-- Counters.Counters and Meters.Meters
unfoldable pub counter_list : Counters → List (Cells CounterEntry)
counter_list cs = values cs

unfoldable pub meter_list : Meters → List (Cells MeterEntry)
meter_list ms = values ms
