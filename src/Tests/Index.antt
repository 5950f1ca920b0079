-- ===== src/Tests/Index.antt =====
-- The theorems on the bounded heap at concrete offers.
use aicortex.Prelude.{ℕ, List, [], ◌∷◌}
use aicortex.Index.TopK.{Entry, new_top, offer_all, into_sorted}
use aicortex.Index.TopK.Sorted.{Descending}
use aicortex.Index.TopK.Best.{IsBest, offer_all-IsBest}

abbrev scored : ℕ → ℕ → Entry ℕ
scored score id = record { score = score; chunk_id = id ∷ []; payload = id }

-- Two ties among four offers, for room for two.
abbrev offers : List (Entry ℕ)
offers = scored 5 b'c' ∷ scored 9 b'b' ∷ scored 5 b'a' ∷ scored 1 b'd' ∷ []

offer_all-IsBest_example :
    Descending (into_sorted (offer_all (new_top 2) offers).heap)
    × IsBest 2 offers (into_sorted (offer_all (new_top 2) offers).heap)
offer_all-IsBest_example = offer_all-IsBest 2 offers
