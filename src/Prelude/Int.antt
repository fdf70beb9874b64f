-- ===== src/Prelude/Int.antt =====
-- Signed integers, for the int64 fields that the source compares with 0 or with a length.
use Prim.Native.Nat.{ℕ}
use mathlib.Core.Bool.{Bool, true}
use fabric_sim.Prelude.Tests.{ltb}

-- `negsuc n` is -(n + 1).
pub data ℤ : Type 0 where
  pos : ℕ → ℤ
  negsuc : ℕ → ℤ

-- `int64(n) > z`
abbrev pub exceeds : ℕ → ℤ → Bool
exceeds n (pos m) = ltb m n
exceeds n (negsuc m) = true
