-- ===== src/Index/TopK/Best.antt =====
-- What the bounded heap of crates/aicortex-index/src/topk.rs keeps of what it is offered.
use mathlib.Core.Path.{subst}
use aicortex.Prelude.{
  ℕ, suc, ◌≤◌, ◌<◌, ◌≡◌, refl, sym, ap, ◌∙◌, true, false, ◌⊎◌, inl, inr, List, [], ◌∷◌, ◌++◌, arith,
  ltb, leb, if◌then◌else◌, ◌==◌, length, length-append, All, In, In-append_right, All-In,
  All-weaken, Bool-cases,
}
use aicortex.Index.TopK.{
  Entry, beats, TopK, new_top, push_heap, worst_of, pop_from, admits, offer, offer_all, into_sorted,
}
use aicortex.Index.TopK.Heap.{
  beats_irrefl, BeatsNone, not_beaten_back, beats_none_through, BeatsNone-beats, worst_of-BeatsNone,
  worst_of-In, length-pop_from, pop_from-All, In-pop_from,
}
use aicortex.Index.TopK.Sorted.{
  Descending, into_sorted-Descending, into_sorted-All, length-into_sorted, In-into_sorted,
}

module _ {T : Type 0} where
  -- The list holds as many of the entries as it may; an entry that it does not hold beats none that
  -- it does.
  pub record IsBest (k : ℕ) (seen : List (Entry T)) (heap : List (Entry T)) : Type 0 where
    pub size : length heap ≡ (if leb k (length seen) then k else length seen)
    pub offered : All (λ y. In y seen) heap
    pub best : (x : Entry T) → In x seen → In x heap ⊎ ((k ≤ length heap) × BeatsNone x heap)

  In-append_left : (x e : Entry T) (xs : List (Entry T)) → In x xs → In x (xs ++ e ∷ [])
  In-append_left x e [] i = elim i [ ]
  In-append_left x e (y ∷ ys) (inl p) = inl p
  In-append_left x e (y ∷ ys) (inr i) = inr (In-append_left x e ys i)

  In-snoc : (x e : Entry T) (xs : List (Entry T)) → In x (xs ++ e ∷ []) → In x xs ⊎ (x ≡ e)
  In-snoc x e [] (inl p) = inr p
  In-snoc x e [] (inr i) = elim i [ ]
  In-snoc x e (y ∷ ys) (inl p) = inl (inl p)
  In-snoc x e (y ∷ ys) (inr i) = elim (In-snoc x e ys i) [ inl j ↦ inl (inr j) | inr p ↦ inr p ]

  length-snoc : (xs : List (Entry T)) (e : Entry T) → length (xs ++ e ∷ []) ≡ suc (length xs)
  length-snoc xs e = length-append xs (e ∷ []) ∙ omega arith

  -- An entry that is left out.
  module _ (k : ℕ) (seen heap : List (Entry T)) (e : Entry T) (v : IsBest k seen heap) where
    earlier : (ds : List (Entry T)) → All (λ y. In y seen) ds → All (λ y. In y (seen ++ e ∷ [])) ds
    earlier ds a =
        All-weaken (λ y. In y seen) (λ y. In y (seen ++ e ∷ [])) ds
          (λ y i. In-append_left y e seen i) a

    left_out : k ≤ length heap → BeatsNone e heap → IsBest k (seen ++ e ∷ []) heap
    left_out full none_beaten = record {
      size = rw (length-snoc seen e) (ground (arith, v.size));
      offered = earlier heap v.offered;
      best = λ x i. elim (In-snoc x e seen i) [
        | inl j ↦ v.best x j
        | inr p ↦ inr (full, subst (λ z. BeatsNone z heap) (sym p) none_beaten)
      ];
    }

    taken_in : length heap < k → IsBest k (seen ++ e ∷ []) (e ∷ heap)
    taken_in room = record {
      size = rw (length-snoc seen e) (ground (arith, v.size));
      offered = (In-append_right seen [] e, earlier heap v.offered);
      best = λ x i. elim (In-snoc x e seen i) [
        | inr p ↦ inl (inl p)
        | inl j ↦ elim (v.best x j) [ inl h ↦ inl (inr h) | inr (full, b) ↦ absurd (omega arith) ]
      ];
    }

  replaced :
      (k : ℕ) (seen ds : List (Entry T)) (e d : Entry T)
      → IsBest k seen (d ∷ ds)
      → k ≤ length (d ∷ ds)
      → beats e (worst_of d ds) ≡ true
      → IsBest k (seen ++ e ∷ []) (e ∷ pop_from d ds)
  replaced k seen ds e d v full wins = record {
    size = rw (length-snoc seen e, length-pop_from d ds) (ground (arith, v.size));
    offered = (
      In-append_right seen [] e,
      pop_from-All (λ y. In y (seen ++ e ∷ [])) d ds
          (earlier k seen (d ∷ ds) e v (d ∷ ds) v.offered),
    );
    best = λ x i. elim (In-snoc x e seen i) [ inr p ↦ inl (inl p) | inl j ↦ kept x (v.best x j) ];
  }
    where
      worst : Entry T
      worst = worst_of d ds

      still_full : k ≤ length (e ∷ pop_from d ds)
      still_full = rw (length-pop_from d ds) full

      -- What beats none of the heap does not beat the entry that beats the worst.
      out :
          (x : Entry T)
          → BeatsNone x (d ∷ ds)
          → beats x worst ≡ false
          → BeatsNone x (e ∷ pop_from d ds)
      out x b l = (
        beats_none_through x worst e l (not_beaten_back e worst wins),
        pop_from-All (λ y. beats x y ≡ false) d ds b,
      )

      kept :
          (x : Entry T)
          → In x (d ∷ ds) ⊎ ((k ≤ length (d ∷ ds)) × BeatsNone x (d ∷ ds))
          → In x (e ∷ pop_from d ds)
            ⊎ ((k ≤ length (e ∷ pop_from d ds)) × BeatsNone x (e ∷ pop_from d ds))
      kept x (inl i) = elim (In-pop_from x d ds i) [
        | inl j ↦ inl (inr j)
        | inr p ↦ inr (
          still_full,
          subst (λ z. BeatsNone z (e ∷ pop_from d ds)) (sym p)
              (out worst (worst_of-BeatsNone d ds) (beats_irrefl worst)),
        )
      ]
      kept x (inr (f, b)) = inr (
        still_full,
        out x b (All-In (λ y. beats x y ≡ false) (d ∷ ds) worst b (worst_of-In d ds)),
      )

  -- One offer, for a heap and a bound in hand.
  offer-IsBest :
      (k : ℕ) (heap seen : List (Entry T)) (e : Entry T)
      → IsBest k seen heap
      → IsBest k (seen ++ e ∷ []) (offer (record { k = k; heap = heap }) e).heap
  unfolding offer admits push_heap
  offer-IsBest k [] seen e v = elim (Bool-cases (k == 0)) [
    | inl z ↦ rw z (left_out k seen [] e v (ground arith) tt)
    | inr z ↦
        let room : ltb 0 k ≡ true = ground arith in
        let more : leb k 0 ≡ false = ground arith in
        rw (z, room, more) (taken_in k seen [] e v (ground arith))
  ]
  offer-IsBest k (d ∷ ds) seen e v = elim (Bool-cases (k == 0)) [
    | inl z ↦ absurd (ground (arith, v.size))
    | inr z ↦ elim (Bool-cases (ltb (length (d ∷ ds)) k)) [
      | inl room ↦
          let more : leb k (length (d ∷ ds)) ≡ false = ground arith in
          rw (z, room, more) (taken_in k seen (d ∷ ds) e v (ground arith))
      | inr full ↦
          let enough : leb k (length (d ∷ ds)) ≡ true = ground arith in
          elim (Bool-cases (beats e (worst_of d ds))) [
            | inl wins ↦ rw (z, full, wins, enough) (replaced k seen ds e d v (ground arith) wins)
            | inr loses ↦
                rw (z, full, loses)
                  (left_out k seen (d ∷ ds) e v (ground arith)
                    (BeatsNone-beats e (worst_of d ds) (d ∷ ds) loses (worst_of-BeatsNone d ds)))
          ]
    ]
  ]

  offer-k : (top : TopK T) (e : Entry T) → (offer top e).k ≡ top.k
  unfolding offer
  offer-k top e = elim (Bool-cases (admits top e)) [ inl b ↦ rw b refl | inr b ↦ rw b refl ]

  append_end : (xs : List (Entry T)) → xs ++ [] ≡ xs
  append_end [] = refl
  append_end (x ∷ xs) = ap (λ ys. x ∷ ys) (append_end xs)

  append_step : (xs ys : List (Entry T)) (e : Entry T) → (xs ++ e ∷ []) ++ ys ≡ xs ++ e ∷ ys
  append_step [] ys e = refl
  append_step (x ∷ xs) ys e = ap (λ zs. x ∷ zs) (append_step xs ys e)

  offers-IsBest :
      (k : ℕ) (es seen : List (Entry T)) (top : TopK T)
      → top.k ≡ k
      → IsBest k seen top.heap
      → IsBest k (seen ++ es) (offer_all top es).heap
  unfolding offer_all
  offers-IsBest k [] seen top p v = rw (append_end seen) v
  offers-IsBest k (e ∷ es) seen top p v =
      subst (λ s. IsBest k s (offer_all (offer top e) es).heap) (append_step seen es e)
        (offers-IsBest k es (seen ++ e ∷ []) (offer top e) (offer-k top e ∙ p) (
          subst (λ n. IsBest n (seen ++ e ∷ []) (offer top e).heap) p
            (offer-IsBest top.k top.heap seen e (subst (λ n. IsBest n seen top.heap) (sym p) v))))

  -- Sorting keeps the entries.
  into_sorted-IsBest :
      (k : ℕ) (seen heap : List (Entry T)) → IsBest k seen heap → IsBest k seen (into_sorted heap)
  into_sorted-IsBest k seen heap v = record {
    size = length-into_sorted heap ∙ v.size;
    offered = into_sorted-All (λ y. In y seen) heap v.offered;
    best = λ x i. elim (v.best x i) [
      | inl j ↦ inl (In-into_sorted x heap j)
      | inr (full, b) ↦
          inr (rw (length-into_sorted heap) full, into_sorted-All (λ y. beats x y ≡ false) heap b)
    ];
  }

  -- After any offers to an empty heap of the bound `k`, the sorted entries stand best first. They are
  -- as many as were offered, or `k` if these are more; each of them was offered; and an offered entry
  -- that is not among them beats none of them.
  pub offer_all-IsBest :
      (k : ℕ) (es : List (Entry T))
      → Descending (into_sorted (offer_all (new_top k) es).heap)
        × IsBest k es (into_sorted (offer_all (new_top k) es).heap)
  unfolding new_top
  offer_all-IsBest k es = (
    into_sorted-Descending (offer_all (new_top k) es).heap,
    into_sorted-IsBest k es (offer_all (new_top k) es).heap
        (offers-IsBest k es [] (record { k = k; heap = [] }) refl nothing),
  )
    where
      nothing : IsBest k [] []
      nothing = record { size = ground arith; offered = tt; best = λ x i. elim i [ ] }
