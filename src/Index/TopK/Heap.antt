-- ===== src/Index/TopK/Heap.antt =====
-- What a peek and a pop do to the heap of crates/aicortex-index/src/topk.rs.
use mathlib.Core.Path.{subst}
use aicortex.Prelude.{
  ◌≡◌, refl, sym, true, false, ◌⊎◌, inl, inr, List, [], ◌∷◌, arith, length, All, In, Bool-cases,
}
use aicortex.Index.TopK.{Entry, beats, worst_of, pop_from}
use aicortex.Index.TopK.Order.{beats_asym, beats_cotrans}

module _ {T : Type 0} where
  -- The entry beats none of these.
  abbrev pub BeatsNone : Entry T → List (Entry T) → Type 0
  BeatsNone e = All (λ d. beats e d ≡ false)

  pub not_beaten_back : (a b : Entry T) → beats a b ≡ true → beats b a ≡ false
  not_beaten_back a b h = ground (arith, beats_asym a b)

  pub beats_none_through :
      (a b c : Entry T) → beats a b ≡ false → beats b c ≡ false → beats a c ≡ false
  beats_none_through a b c h k = ground (arith, beats_cotrans a b c)

  -- What does not beat the worst entry beats none.
  pub BeatsNone-beats :
      (e d : Entry T) (ds : List (Entry T)) → beats e d ≡ false → BeatsNone d ds → BeatsNone e ds
  BeatsNone-beats e d [] h a = tt
  BeatsNone-beats e d (c ∷ cs) h a = (beats_none_through e d c h a.0, BeatsNone-beats e d cs h a.1)

  pub beats_irrefl : (a : Entry T) → beats a a ≡ false
  beats_irrefl a = ground (arith, beats_asym a a)

  -- No entry is worse than the worst.
  pub worst_of-BeatsNone : (d : Entry T) (ds : List (Entry T)) → BeatsNone (worst_of d ds) (d ∷ ds)
  unfolding worst_of
  worst_of-BeatsNone d [] = (beats_irrefl d, tt)
  worst_of-BeatsNone d (e ∷ es) =
      let least = worst_of-BeatsNone e es in
      elim (Bool-cases (beats d (worst_of e es))) [
        | inl b ↦
            let is : worst_of d (e ∷ es) ≡ worst_of e es = rw b refl in
            subst (λ w. BeatsNone w (d ∷ e ∷ es)) (sym is)
              (not_beaten_back d (worst_of e es) b, least)
        | inr b ↦
            let is : worst_of d (e ∷ es) ≡ d = rw b refl in
            subst (λ w. BeatsNone w (d ∷ e ∷ es)) (sym is)
              (beats_irrefl d, BeatsNone-beats d (worst_of e es) (e ∷ es) b least)
      ]

  pub length-pop_from : (d : Entry T) (ds : List (Entry T)) → length (pop_from d ds) ≡ length ds
  unfolding pop_from
  length-pop_from d [] = refl
  length-pop_from d (e ∷ es) = ground (arith, length-pop_from e es)

  pub pop_from-All :
      (P : Entry T → Type 0) (d : Entry T) (ds : List (Entry T))
      → All P (d ∷ ds)
      → All P (pop_from d ds)
  unfolding pop_from
  pop_from-All P d [] a = tt
  pop_from-All P d (e ∷ es) a = elim (Bool-cases (beats d (worst_of e es))) [
    | inl b ↦ rw b (a.0, pop_from-All P e es a.1)
    | inr b ↦ rw b a.1
  ]

  -- What a pop does not leave is the worst.
  pub In-pop_from :
      (x d : Entry T) (ds : List (Entry T))
      → In x (d ∷ ds)
      → In x (pop_from d ds) ⊎ (x ≡ worst_of d ds)
  unfolding pop_from worst_of
  In-pop_from x d [] (inl p) = inr p
  In-pop_from x d [] (inr i) = absurd (elim i [ ])
  In-pop_from x d (e ∷ es) i = elim (Bool-cases (beats d (worst_of e es))) [
    | inr b ↦ rw b (elim i [ inl p ↦ inr p | inr j ↦ inl j ])
    | inl b ↦ rw b (elim i [
      | inl p ↦ inl (inl p)
      | inr j ↦ elim (In-pop_from x e es j) [ inl k ↦ inl (inr k) | inr p ↦ inr p ]
    ])
  ]

  pub worst_of-In : (d : Entry T) (ds : List (Entry T)) → In (worst_of d ds) (d ∷ ds)
  unfolding worst_of
  worst_of-In d [] = inl refl
  worst_of-In d (e ∷ es) = elim (Bool-cases (beats d (worst_of e es))) [
    | inl b ↦
        let is : worst_of d (e ∷ es) ≡ worst_of e es = rw b refl in
        subst (λ w. In w (d ∷ e ∷ es)) (sym is) (inr (worst_of-In e es))
    | inr b ↦
        let is : worst_of d (e ∷ es) ≡ d = rw b refl in
        subst (λ w. In w (d ∷ e ∷ es)) (sym is) (inl refl)
  ]
