-- ===== src/Gate/Normalize.antt =====
-- crates/aicortex-gate/src/normalize.rs: what a body is judged and stored as. The Unicode
-- composition `nfc` belongs to another crate, and is a parameter.
use aicortex.Prelude.{
  ℕ, ◌≡◌, refl, Bool, true, false, not, ◌&&◌, ◌||◌, Option, none, some, List, [], ◌∷◌, ◌++◌, map,
  arith, leb, ◌==◌, if◌then◌else◌, any, retain, All,
}
use aicortex.Text.{Text}
use aicortex.Text.Trim.{trim_end, split_on, is_empty}
use aicortex.Types.Memory.{MemoryBody}
pub mod Laws

-- Soft hyphen, Mongolian vowel separator, the zero-width and directional marks of the table.
abbrev pub removed : List ℕ
removed =
    0xad ∷ 0x180e ∷ 0x200b ∷ 0x200c ∷ 0x200d ∷ 0x200e ∷ 0x200f ∷ 0x202a ∷ 0x202b ∷ 0x202c ∷ 0x202d
    ∷ 0x202e ∷ 0x2060 ∷ 0x2066 ∷ 0x2067 ∷ 0x2068 ∷ []

unfoldable pub is_removed : ℕ → Bool
is_removed c = any (λ r. r == c) removed || c == 0x2069 || c == 0xfeff

-- The lines joined again, each without its trailing whitespace.
unfoldable pub join_lines : List Text → Text
join_lines [] = []
join_lines (l ∷ []) = trim_end l
join_lines (l ∷ m ∷ ls) = trim_end l ++ b'\n' ∷ join_lines (m ∷ ls)

unfoldable pub text : (Text → Text) → Text → Text
unfolding join_lines
text nfc raw = trim_end (join_lines (split_on b'\n' (nfc (retain (λ c. not (is_removed c)) raw))))

-- A title that is empty once normalized is none.
unfoldable pub kept_title : Option Text → Option Text
kept_title none = none
kept_title (some t) = if is_empty t then none else some t

unfoldable pub body : (Text → Text) → MemoryBody → MemoryBody
unfolding kept_title
body nfc raw = record {
  text = text nfc raw.text;
  title = kept_title (map_title raw.title);
  media = raw.media;
}
  where
    map_title : Option Text → Option Text
    map_title none = none
    map_title (some t) = some (text nfc t)
