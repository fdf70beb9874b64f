-- ===== src/Prelude/Text.antt =====
-- Literal names of the source as bytes, and the substring test of Go's `strings`.
use Prim.Native.Char.{code}
use Prim.Native.String.{String}
use mathlib.Core.Bool.{Bool, true, false, ◌&&◌, ◌||◌}
use mathlib.Core.List.{[], ◌∷◌}
use fabric_sim.Prelude.Tests.{nat_beq}
use fabric_sim.Prelude.Equality.{Bytes}

-- The bytes of an ASCII text.
abbrev pub codes : String → Bytes
codes String.[] = []
codes (String.◌∷◌ c s) = code c ∷ codes s

-- strings.HasPrefix(s, p)
abbrev pub has_prefix : Bytes → Bytes → Bool
has_prefix [] s = true
has_prefix (p ∷ ps) [] = false
has_prefix (p ∷ ps) (c ∷ s) = nat_beq p c && has_prefix ps s

-- strings.Contains(s, p)
abbrev pub contains : Bytes → Bytes → Bool
contains p [] = has_prefix p []
contains p (c ∷ s) = has_prefix p (c ∷ s) || contains p s
