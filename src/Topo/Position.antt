-- ===== src/Topo/Position.antt =====
-- The arithmetic on int of pkg/topo/generator.go, for the positions on the grid.
use fabric_sim.Prelude.{ℕ, ◌+◌, ◌-◌, ◌*◌, ◌/◌, ℤ, pos, negsuc, leb, if◌then◌else◌, some, Option}
use fabric_sim.Topo.Schema.{GridPosition}

-- a - b, as an integer.
unfoldable pub sub_ℕ : ℕ → ℕ → ℤ
sub_ℕ a b = if leb b a then pos (a - b) else negsuc (b - a - 1)

infixl 65 ◌+ℤ◌ ◌-ℤ◌
unfoldable pub ◌+ℤ◌ : ℤ → ℤ → ℤ
unfolding sub_ℕ
pos a +ℤ pos b = pos (a + b)
pos a +ℤ negsuc b = sub_ℕ a (b + 1)
negsuc a +ℤ pos b = sub_ℕ b (a + 1)
negsuc a +ℤ negsuc b = negsuc (a + b + 1)

unfoldable pub negate : ℤ → ℤ
unfolding sub_ℕ
negate (pos a) = sub_ℕ 0 a
negate (negsuc a) = pos (a + 1)

unfoldable pub ◌-ℤ◌ : ℤ → ℤ → ℤ
unfolding ◌+ℤ◌ negate
a -ℤ b = a +ℤ negate b

-- A product by, and Go's quotient by, a number that is not negative.
unfoldable pub times : ℕ → ℤ → ℤ
unfolding sub_ℕ
times k (pos a) = pos (k * a)
times k (negsuc a) = sub_ℕ 0 (k * (a + 1))

unfoldable pub quotient : ℤ → ℕ → ℤ
unfolding sub_ℕ
quotient (pos a) k = pos (a / k)
quotient (negsuc a) k = sub_ℕ 0 ((a + 1) / k)

-- coord
unfoldable pub coord : ℤ → ℤ → ℕ → ℤ → ℤ
unfolding ◌-ℤ◌ ◌+ℤ◌ times quotient
coord i n gap offset = times gap (i -ℤ pos 1) -ℤ quotient (times gap (n -ℤ pos 1)) 2 +ℤ offset

-- pos
unfoldable pub grid_position : ℤ → ℤ → Option GridPosition
grid_position x y = some (record { x = x; y = y })
