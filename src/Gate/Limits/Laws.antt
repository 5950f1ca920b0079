-- ===== src/Gate/Limits/Laws.antt =====
-- Narrowing the limits of crates/aicortex-gate/src/limits.rs.
use aicortex.Prelude.{
  ◌≤◌, ◌≡◌, refl, true, none, List, [], ◌∷◌, arith, map, ok, Bool-cases, inl, inr,
}
use aicortex.Text.{Text, ascii_lower, text_eq, text_eq_sound, text_eq_refl}
use aicortex.Types.Memory.{MediaRef}
use aicortex.Gate.Limits.{Limits, contains, first_added, narrowed_to, admits_media, top_level_of}

contains-first_added :
    (t : Text) (xs ys : List Text)
    → first_added xs ys ≡ none
    → contains xs t ≡ true
    → contains ys t ≡ true
unfolding first_added contains
contains-first_added t [] ys h c = cc
contains-first_added t (x ∷ xs) ys h c = elim (Bool-cases (text_eq t x)) [
  | inl e ↦ rw (text_eq_sound t x e) (ground arith)
  | inr e ↦ contains-first_added t xs ys (ground arith) (ground arith)
]

-- What narrowed limits hold: each ceiling is at most the old one and the one asked for, and the
-- media levels are those asked for, all of which were admitted before.
pub record IsNarrower (old new asked : Limits) : Type 0 where
  pub bodies :
      (new.max_body_bytes ≡ asked.max_body_bytes) × (new.max_body_bytes ≤ old.max_body_bytes)
  pub refs : (new.max_media_refs ≡ asked.max_media_refs) × (new.max_media_refs ≤ old.max_media_refs)
  pub levels : new.media_top_levels ≡ asked.media_top_levels
  pub known : first_added new.media_top_levels old.media_top_levels ≡ none

pub narrowed_to-IsNarrower :
    (old asked : Limits) {new : Limits} → narrowed_to old asked ≡ ok new → IsNarrower old new asked
unfolding narrowed_to
narrowed_to-IsNarrower old asked h = ground arith

-- If limits are narrowed and the new limits admit a media reference, the old limits admit it, and
-- neither ceiling has grown.
pub narrowed_to-admits_media :
    (old asked : Limits) {new : Limits} (media : MediaRef)
    → narrowed_to old asked ≡ ok new
    → admits_media new media ≡ true
    → (admits_media old media ≡ true)
      × (new.max_body_bytes ≤ old.max_body_bytes)
      × (new.max_media_refs ≤ old.max_media_refs)
unfolding admits_media
narrowed_to-admits_media old asked {new} media h a =
    let n = narrowed_to-IsNarrower old asked h in
    let level = map ascii_lower (top_level_of media) in
    (
      ground (arith, contains-first_added level new.media_top_levels old.media_top_levels n.known),
      n.bodies.1,
      n.refs.1,
    )

first_added-none :
    (xs ys : List Text)
    → ((t : Text) → contains xs t ≡ true → contains ys t ≡ true)
    → first_added xs ys ≡ none
unfolding first_added contains
first_added-none [] ys h = refl
first_added-none (x ∷ xs) ys h =
    ground (arith, text_eq_refl x, h x, first_added-none xs ys (λ t c. h t (ground arith)))

-- Limits that ask for no larger ceiling and for no media level that is not admitted already are
-- accepted, and become exactly the limits asked for.
pub narrowed_to-ok :
    (old asked : Limits)
    → asked.max_body_bytes ≤ old.max_body_bytes
    → asked.max_media_refs ≤ old.max_media_refs
    → ((t : Text)
        → contains asked.media_top_levels t ≡ true
        → contains old.media_top_levels t ≡ true)
    → narrowed_to old asked ≡ ok asked
unfolding narrowed_to
narrowed_to-ok old asked b r l =
    let known = first_added-none asked.media_top_levels old.media_top_levels l in ground arith
