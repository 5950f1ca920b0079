-- ===== src/Embed/WordPiece/Greedy.antt =====
-- The pieces of a word (crates/aicortex-embed/src/wordpiece.rs) are the longest matches, one after another.
use aicortex.Prelude.{
  ℕ, zero, suc, ◌≤◌, ◌<◌, ◌≡◌, refl, sym, ap, ◌∙◌, ◌↔◌, Bool, true, false, Option, none, some, List,
  [], ◌∷◌, length, ◌==◌, some-injective, arith, Bool-cases, Option-cases, inl, inr,
}
use mathlib.Core.Path.{subst}
use aicortex.Text.{Text}
use aicortex.Embed.WordPiece.{
  WordPiece, vocab_get, first_chars, marked, find_piece, with_id, pieces,
}

abbrev drop_chars : ℕ → Text → Text
drop_chars zero t = t
drop_chars (suc n) [] = []
drop_chars (suc n) (c ∷ cs) = drop_chars n cs

module _ (w : WordPiece) where
  -- The id of the first `n` characters, with the prefix of what stands within a word.
  abbrev pub id_of : Bool → Text → ℕ → Option ℕ
  id_of at_start t n = vocab_get w.vocab (marked w at_start (first_chars n t))

  -- The longest piece of `t` in the vocabulary has the id `id` and `n` characters behind its first.
  pub record IsLongest (at_start : Bool) (t : Text) (id n : ℕ) : Type 0 where
    pub within : n < length t
    pub found : id_of at_start t (suc n) ≡ some id
    pub none_longer : (m : ℕ) → suc n < m → m ≤ length t → id_of at_start t m ≡ none

  -- The ids of a text: that of its longest piece, then those of what is left.
  pub data IsGreedy : Bool → Text → List ℕ → Type 0 where
    done : {at_start : Bool} → IsGreedy at_start [] []
    piece :
        {at_start : Bool} {c : ℕ} {cs : Text} {id n : ℕ} {ids : List ℕ}
        → IsLongest at_start (c ∷ cs) id n
        → IsGreedy false (drop_chars n cs) ids
        → IsGreedy at_start (c ∷ cs) (id ∷ ids)

  -- What the search up to a length gives.
  find_piece_found :
      (at_start : Bool) (t : Text) (most id n : ℕ)
      → find_piece w at_start t most ≡ some (id, n)
      → (n < most)
        × (id_of at_start t (suc n) ≡ some id)
        × ((m : ℕ) → suc n < m → m ≤ most → id_of at_start t m ≡ none)
  unfolding find_piece
  find_piece_found at_start t zero id n e = cc
  find_piece_found at_start t (suc most) id n e =
      elim (Option-cases (id_of at_start t (suc most))) [
        | inr (i, h) ↦
            let p : some (i, most) ≡ some (id, n) = rw (h, find_piece) at e in
            let q : i ≡ id = ap (λ (x : ℕ × ℕ). x.0) (some-injective p) in
            let r : most ≡ n = ap (λ (x : ℕ × ℕ). x.1) (some-injective p) in
            (
              omega arith,
              subst (λ k. id_of at_start t (suc k) ≡ some id) r (h ∙ ap some q),
              (λ m low high. absurd (omega arith)),
            )
        | inl h ↦
            let (l, f, longer) = find_piece_found at_start t most id n (rw (h, find_piece) at e) in
            (
              omega arith,
              f,
              (λ m low high. elim (Bool-cases (m == suc most)) [
                | inl q ↦ let k : m ≡ suc most = ground arith in ap (id_of at_start t) k ∙ h
                | inr q ↦ longer m low (ground arith)
              ]),
            )
      ]

  found_find_piece :
      (at_start : Bool) (t : Text) (most id n : ℕ)
      → n < most
      → id_of at_start t (suc n) ≡ some id
      → ((m : ℕ) → suc n < m → m ≤ most → id_of at_start t m ≡ none)
      → find_piece w at_start t most ≡ some (id, n)
  unfolding find_piece
  found_find_piece at_start t zero id n l f longer = absurd (omega arith)
  found_find_piece at_start t (suc most) id n l f longer = elim (Bool-cases (n == most)) [
    | inl q ↦
        let k : most ≡ n = ground arith in
        let here : id_of at_start t (suc most) ≡ some id =
          ap (λ x. id_of at_start t (suc x)) k ∙ f in
        rw here (ap (λ x. some (id, x)) k)
    | inr q ↦
        let below : n < most = ground arith in
        let missing : id_of at_start t (suc most) ≡ none =
          longer (suc most) (omega arith) (omega arith) in
        rw missing
          (found_find_piece at_start t most id n below f (λ m low high. longer m low (omega arith)))
  ]

  find_piece-IsLongest :
      (at_start : Bool) (t : Text) (id n : ℕ)
      → (find_piece w at_start t (length t) ≡ some (id, n)) ↔ IsLongest at_start t id n
  find_piece-IsLongest at_start t id n = (
    (λ e.
        let (l, f, k) = find_piece_found at_start t (length t) id n e in
        record { within = l; found = f; none_longer = k }),
    (λ v. found_find_piece at_start t (length t) id n v.within v.found v.none_longer),
  )

  with_id-some :
      (id : ℕ) (o : Option (List ℕ)) (ids : List ℕ)
      → with_id id o ≡ some ids
      → (later : List ℕ) × (o ≡ some later) × (ids ≡ id ∷ later)
  with_id-some id none ids e = cc
  with_id-some id (some later) ids e = (later, refl, sym (some-injective e))

  pieces-IsGreedy :
      (at_start : Bool) (skip : ℕ) (t : Text) (ids : List ℕ)
      → pieces w at_start skip t ≡ some ids
      → IsGreedy at_start (drop_chars skip t) ids
  unfolding pieces
  pieces-IsGreedy at_start zero [] ids e =
      subst (IsGreedy at_start []) (some-injective e) IsGreedy.done
  pieces-IsGreedy at_start (suc skip) [] ids e =
      subst (IsGreedy at_start []) (some-injective e) IsGreedy.done
  pieces-IsGreedy at_start (suc skip) (c ∷ cs) ids e = pieces-IsGreedy at_start skip cs ids e
  pieces-IsGreedy at_start zero (c ∷ cs) ids e =
      elim (Option-cases (find_piece w at_start (c ∷ cs) (length (c ∷ cs)))) [
        | inl h ↦ let k : none ≡ some ids = rw (h, pieces) at e in cc
        | inr ((id, n), h) ↦
            let (later, r, p) = with_id-some id (pieces w false n cs) ids (rw (h, pieces) at e) in
            let longest = (find_piece-IsLongest at_start (c ∷ cs) id n).0 h in
            subst (IsGreedy at_start (c ∷ cs)) (sym p)
              (IsGreedy.piece longest (pieces-IsGreedy false n cs later r))
      ]

  IsGreedy-nil : (at_start : Bool) (ids : List ℕ) → IsGreedy at_start [] ids → ids ≡ []
  IsGreedy-nil at_start [] g = refl
  IsGreedy-nil at_start (id ∷ ids) g = elim g [ ]

  IsGreedy-cons :
      (at_start : Bool) (c : ℕ) (cs : Text) (ids : List ℕ)
      → IsGreedy at_start (c ∷ cs) ids
      → (id : ℕ) × (n : ℕ) × (later : List ℕ) × IsLongest at_start (c ∷ cs) id n
        × IsGreedy false (drop_chars n cs) later
        × (ids ≡ id ∷ later)
  IsGreedy-cons at_start c cs ids (IsGreedy.piece {id = id} {n = n} {ids = later} longest rest) =
      (id, n, later, longest, rest, refl)

  -- The other way, with the text that is left as `u`.
  IsGreedy-pieces :
      (at_start : Bool) (skip : ℕ) (t : Text) (ids : List ℕ)
      → IsGreedy at_start (drop_chars skip t) ids
      → pieces w at_start skip t ≡ some ids
  unfolding pieces
  IsGreedy-pieces at_start zero [] ids g = ap some (sym (IsGreedy-nil at_start ids g))
  IsGreedy-pieces at_start (suc skip) [] ids g = ap some (sym (IsGreedy-nil at_start ids g))
  IsGreedy-pieces at_start (suc skip) (c ∷ cs) ids g = IsGreedy-pieces at_start skip cs ids g
  IsGreedy-pieces at_start zero (c ∷ cs) ids g =
      let (id, n, later, longest, rest, p) = IsGreedy-cons at_start c cs ids g in
      let h = (find_piece-IsLongest at_start (c ∷ cs) id n).1 longest in
      let r = IsGreedy-pieces false n cs later rest in
      rw (h, pieces) (ap (with_id id) r ∙ ap some (sym p))

-- A word has the pieces `ids` exactly when these are the ids of the longest match from its start,
-- then of the longest match with the prefix from behind it, and so on to its end; so a word with no
-- such division has no pieces.
pub pieces-IsLongest :
    (w : WordPiece) (word : Text) (ids : List ℕ)
    → (pieces w true 0 word ≡ some ids) ↔ IsGreedy w true word ids
pieces-IsLongest w word ids = (pieces-IsGreedy w true 0 word ids, IsGreedy-pieces w true 0 word ids)
