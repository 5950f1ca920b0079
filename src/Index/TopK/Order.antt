-- ===== src/Index/TopK/Order.antt =====
-- The order of entries in crates/aicortex-index/src/topk.rs.
use aicortex.Prelude.{ℕ, ◌≡◌, refl, true, not, ◌||◌, List, [], ◌∷◌, arith}
use aicortex.Prelude.Order.{compare_keys, is_gt}
use aicortex.Index.TopK.{Entry, rank, beats}

-- Where `xs` is above `zs`, it is above `ys`, or `ys` is above `zs`.
compare_keys_cotrans :
    (xs ys zs : List ℕ)
    → (not (is_gt (compare_keys xs zs))
        || (is_gt (compare_keys xs ys) || is_gt (compare_keys ys zs)))
      ≡ true
compare_keys_cotrans [] ys [] = refl
compare_keys_cotrans [] ys (z ∷ zs) = refl
compare_keys_cotrans (x ∷ xs) [] zs = ground arith
compare_keys_cotrans (x ∷ xs) (y ∷ ys) [] = ground arith
compare_keys_cotrans (x ∷ xs) (y ∷ ys) (z ∷ zs) = ground (arith, compare_keys_cotrans xs ys zs)

compare_keys_opposed :
    (xs ys : List ℕ) → (not (is_gt (compare_keys xs ys)) || not (is_gt (compare_keys ys xs))) ≡ true
compare_keys_opposed [] [] = refl
compare_keys_opposed [] (y ∷ ys) = refl
compare_keys_opposed (x ∷ xs) [] = refl
compare_keys_opposed (x ∷ xs) (y ∷ ys) = ground (arith, compare_keys_opposed xs ys)

module _ {T : Type 0} where
  -- Of two entries at most one beats the other.
  pub beats_asym : (a b : Entry T) → (not (beats a b) || not (beats b a)) ≡ true
  unfolding beats rank
  beats_asym a b = ground (arith, compare_keys_opposed a.chunk_id b.chunk_id)

  pub beats_cotrans : (a b c : Entry T) → (not (beats a c) || (beats a b || beats b c)) ≡ true
  unfolding beats rank
  beats_cotrans a b c = ground (arith, compare_keys_cotrans c.chunk_id b.chunk_id a.chunk_id)
