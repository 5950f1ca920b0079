-- ===== src/Text/Chars.antt =====
-- The code points of a Rust string, of a key that is read as a text.
use Prim.Native.Char.{code}
use Prim.Native.String.{String, [], ◌∷◌}
use mathlib.Core.List
use aicortex.Text.{Text}

unfoldable pub chars : String → Text
chars [] = List.[]
chars (c ∷ s) = List.◌∷◌ (code c) (chars s)
