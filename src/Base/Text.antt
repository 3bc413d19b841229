-- ===== src/Base/Text.antt =====
-- What the examples ask of a string: whether it is empty.
use Prim.Native.String.{String}
use mathlib.Core.Bool.{Bool, true, false}

abbrev pub is_empty : String → Bool
is_empty String.[] = true
is_empty (String.◌∷◌ c s) = false
