-- ===== src/Prelude/Text.antt =====
-- The characters of a text, as a function that runs on literals.
use Prim.Native.Char.{Char}
use Prim.Native.String as Str
use Prim.Native.String.{String}
use mathlib.Core.List.{List, [], ◌∷◌}

unfoldable pub chars : String → List Char
chars Str.[] = []
chars (Str.◌∷◌ c s) = c ∷ chars s
