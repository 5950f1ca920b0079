-- ===== src/Gate/Limits.antt =====
-- crates/aicortex-gate/src/limits.rs: the ceilings of a deployment, which may only be narrowed.
-- A `BTreeSet` is the list of its elements in ascending order.
use aicortex.Prelude.{
  ℕ, ◌≤◌, ◌≡◌, refl, Bool, true, false, not, ◌&&◌, ◌||◌, Option, none, some, List, [], ◌∷◌, arith,
  ltb, ◌==◌, if◌then◌else◌, any, map, Result, ok, err, ◌>>=◌, ◌>>◌,
}
use Prim.Native.String.{String}
use aicortex.Text.{Text, ascii_lower, text_eq}
use aicortex.Text.Trim.{trim, is_empty}
use aicortex.Types.Memory.{MediaRef}
pub mod Laws

pub data GateError : Type 0 where
  ceiling_raised : String → ℕ → ℕ → GateError
  media_type_widened : Text → GateError
  override_does_not_apply : String → Option String → GateError
  override_unjustified : GateError

pub record Limits : Type 0 where
  pub max_body_bytes : ℕ
  pub max_media_refs : ℕ
  pub media_top_levels : List Text

unfoldable pub contains : List Text → Text → Bool
contains levels t = any (text_eq t) levels

unfoldable pub with_max_body_bytes : Limits → ℕ → Result GateError Limits
with_max_body_bytes l bytes =
    if ltb l.max_body_bytes bytes
    then err (ceiling_raised "max_body_bytes" l.max_body_bytes bytes)
    else ok (record l { max_body_bytes = bytes })

unfoldable pub with_max_media_refs : Limits → ℕ → Result GateError Limits
with_max_media_refs l refs =
    if ltb l.max_media_refs refs
    then err (ceiling_raised "max_media_refs" l.max_media_refs refs)
    else ok (record l { max_media_refs = refs })

-- `difference(…).next()`: the first of `xs` that is not among `ys`.
unfoldable pub first_added : List Text → List Text → Option Text
unfolding contains
first_added [] ys = none
first_added (x ∷ xs) ys = if contains ys x then first_added xs ys else some x

abbrev pub replace_levels : Limits → List Text → Option Text → Result GateError Limits
replace_levels narrowed levels (some added) = err (media_type_widened added)
replace_levels narrowed levels none = ok (record narrowed { media_top_levels = levels })

unfoldable pub narrowed_to : Limits → Limits → Result GateError Limits
unfolding with_max_body_bytes with_max_media_refs
narrowed_to l other = do
  bodies ← with_max_body_bytes l other.max_body_bytes
  narrowed ← with_max_media_refs bodies other.max_media_refs
  replace_levels narrowed other.media_top_levels
      (first_added other.media_top_levels l.media_top_levels)

-- The part of a media type before the first `/` or `;`.
unfoldable pub before_separator : Text → Text
before_separator [] = []
before_separator (c ∷ cs) = if c == b'/' || c == b';' then [] else c ∷ before_separator cs

unfoldable pub top_level_of : MediaRef → Text
unfolding before_separator trim
top_level_of media = trim (before_separator media.media_type)

unfoldable pub admits_media : Limits → MediaRef → Bool
unfolding contains
admits_media l media =
    let top_level = map ascii_lower (top_level_of media) in
    not (is_empty top_level)
    && any (λ c. c == b'/') media.media_type
    && contains l.media_top_levels top_level
