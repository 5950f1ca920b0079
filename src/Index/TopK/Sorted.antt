-- ===== src/Index/TopK/Sorted.antt =====
-- What `TopK::into_sorted` of crates/aicortex-index/src/topk.rs makes of the heap.
use aicortex.Prelude.{
  suc, ◌≡◌, refl, false, inl, inr, ◌∙◌, ap, List, [], ◌∷◌, arith, length, All, In, Bool-cases,
}
use aicortex.Index.TopK.{Entry, beats, insert_sorted, into_sorted}
use aicortex.Index.TopK.Heap.{not_beaten_back, beats_none_through}

module _ {T : Type 0} where
  -- No entry is beaten by one behind it.
  abbrev pub Descending : List (Entry T) → Type 0
  Descending [] = Unit
  Descending (d ∷ ds) = All (λ c. beats c d ≡ false) ds × Descending ds

  insert_sorted-All :
      (P : Entry T → Type 0) (e : Entry T) (ds : List (Entry T))
      → P e
      → All P ds
      → All P (insert_sorted e ds)
  unfolding insert_sorted
  insert_sorted-All P e [] p a = (p, tt)
  insert_sorted-All P e (d ∷ ds) p a = elim (Bool-cases (beats d e)) [
    | inl b ↦ rw b (a.0, insert_sorted-All P e ds p a.1)
    | inr b ↦ rw b (p, a)
  ]

  pub into_sorted-All :
      (P : Entry T → Type 0) (ds : List (Entry T)) → All P ds → All P (into_sorted ds)
  unfolding into_sorted
  into_sorted-All P [] a = tt
  into_sorted-All P (d ∷ ds) a =
      insert_sorted-All P d (into_sorted ds) a.0 (into_sorted-All P ds a.1)

  -- What does not beat the first entry is not better than an entry that it does not follow.
  not_above :
      (d e : Entry T) (ds : List (Entry T))
      → beats d e ≡ false
      → All (λ c. beats c d ≡ false) ds
      → All (λ c. beats c e ≡ false) ds
  not_above d e [] b a = tt
  not_above d e (c ∷ cs) b a = (beats_none_through c d e a.0 b, not_above d e cs b a.1)

  insert_sorted-Descending :
      (e : Entry T) (ds : List (Entry T)) → Descending ds → Descending (insert_sorted e ds)
  unfolding insert_sorted
  insert_sorted-Descending e [] a = (tt, tt)
  insert_sorted-Descending e (d ∷ ds) a = elim (Bool-cases (beats d e)) [
    | inl b ↦ rw b (
      insert_sorted-All (λ c. beats c d ≡ false) e ds (not_beaten_back d e b) a.0,
      insert_sorted-Descending e ds a.1,
    )
    | inr b ↦ rw b ((b, not_above d e ds b a.0), a)
  ]

  pub into_sorted-Descending : (ds : List (Entry T)) → Descending (into_sorted ds)
  unfolding into_sorted
  into_sorted-Descending [] = tt
  into_sorted-Descending (d ∷ ds) =
      insert_sorted-Descending d (into_sorted ds) (into_sorted-Descending ds)

  length-insert_sorted :
      (e : Entry T) (ds : List (Entry T)) → length (insert_sorted e ds) ≡ suc (length ds)
  unfolding insert_sorted
  length-insert_sorted e [] = refl
  length-insert_sorted e (d ∷ ds) = ground (arith, length-insert_sorted e ds)

  pub length-into_sorted : (ds : List (Entry T)) → length (into_sorted ds) ≡ length ds
  unfolding into_sorted
  length-into_sorted [] = refl
  length-into_sorted (d ∷ ds) =
      length-insert_sorted d (into_sorted ds) ∙ ap (λ n. suc n) (length-into_sorted ds)

  insert_sorted-In : (e : Entry T) (ds : List (Entry T)) → In e (insert_sorted e ds)
  unfolding insert_sorted
  insert_sorted-In e [] = inl refl
  insert_sorted-In e (d ∷ ds) = elim (Bool-cases (beats d e)) [
    | inl b ↦ rw b (inr (insert_sorted-In e ds))
    | inr b ↦ rw b (inl refl)
  ]

  In-insert_sorted : (x e : Entry T) (ds : List (Entry T)) → In x ds → In x (insert_sorted e ds)
  unfolding insert_sorted
  In-insert_sorted x e [] i = elim i [ ]
  In-insert_sorted x e (d ∷ ds) i = elim (Bool-cases (beats d e)) [
    | inr b ↦ rw b (inr i)
    | inl b ↦ rw b (elim i [ inl p ↦ inl p | inr j ↦ inr (In-insert_sorted x e ds j) ])
  ]

  pub In-into_sorted : (x : Entry T) (ds : List (Entry T)) → In x ds → In x (into_sorted ds)
  unfolding into_sorted
  In-into_sorted x [] i = elim i [ ]
  In-into_sorted x (d ∷ ds) (inl p) = rw p (insert_sorted-In d (into_sorted ds))
  In-into_sorted x (d ∷ ds) (inr i) = In-insert_sorted x d (into_sorted ds) (In-into_sorted x ds i)
