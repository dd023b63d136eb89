-- ===== src/Prelude/Text.antt =====
-- String literals as their bytes (all are ASCII).
use Prim.Native.Char.{code}
use Prim.Native.String.{String}
use mathlib.Core.List.{[], ◌∷◌}
use resolvd.Prelude.Slices.{Bytes}

abbrev pub bytes : String → Bytes
bytes String.[] = []
bytes (String.◌∷◌ c s) = code c ∷ bytes s
