-- ===== src/Embed/WordPiece/Ids.antt =====
-- The ids of crates/aicortex-embed/src/wordpiece.rs: how many, and of what size.
use aicortex.Prelude.{
  ℕ, zero, suc, ◌+◌, ◌≤◌, ◌<◌, ◌≡◌, refl, ap, ◌∙◌, Bool, true, false, Option, none, some, List, [],
  ◌∷◌, ◌++◌, All, length, ltb, leb, ok, err, >>=-eq-ok, ok-injective, some-injective, arith,
  Bool-cases, Option-cases, inl, inr,
}
use mathlib.Core.Path.{subst}
use package.text.Mathlib.Text.{◌==◌ as str_eq}
use aicortex.Text.{Text, text_eq}
use aicortex.Embed.WordPiece.{
  Vocab, Document, WordPiece, vocab_get, known, switches, splits, unsupported_model, unk_token,
  from_document, id_bound, max, first_chars, marked, or_default, find_piece, with_id, pieces,
  push_word, push_words, truncate, Unicode, words, encode,
}

abbrev pub Bounded : Vocab → ℕ → Type 0
Bounded vocab id = id < id_bound vocab

vocab_get-Bounded :
    (vocab : Vocab) (t : Text) (id : ℕ) → vocab_get vocab t ≡ some id → Bounded vocab id
unfolding vocab_get id_bound
vocab_get-Bounded [] t id e = cc
vocab_get-Bounded (entry ∷ rest) t id e = elim (Bool-cases (text_eq entry.0 t)) [
  | inl h ↦
      let p : entry.1 ≡ id = some-injective (rw (h, vocab_get) at e) in
      let m : entry.1 + 1 ≤ max (entry.1 + 1) (id_bound rest) = ground arith in omega arith
  | inr h ↦
      let later = vocab_get-Bounded rest t id (rw (h, vocab_get) at e) in
      let m : id_bound rest ≤ max (entry.1 + 1) (id_bound rest) = ground arith in omega arith
]

known-id : (t : Text) (o : Option ℕ) (id : ℕ) → known t o ≡ ok id → o ≡ some id
known-id t none id e = cc
known-id t (some i) id e = ap some (ok-injective e)

-- The unknown token of a tokenizer that was accepted has its id in the vocabulary.
from_document-unk_id :
    (d : Document) (w : WordPiece)
    → from_document d ≡ ok w
    → (t : Text) × (vocab_get w.vocab t ≡ some w.unk_id)
unfolding from_document
from_document-unk_id d w e = elim (Bool-cases (str_eq d.model.kind "WordPiece")) [
  | inr k ↦ let h : err (unsupported_model d.model.kind) ≡ ok w = rw (k, from_document) at e in cc
  | inl k ↦
      let (s, _, e1) = >>=-eq-ok (switches d.normalizer) _ (rw (k, from_document) at e) in
      let (p, _, e2) = >>=-eq-ok (splits d.pre_tokenizer) _ e1 in
      let (id, found, e3) =
        >>=-eq-ok (known (unk_token d.model) (vocab_get d.model.vocab (unk_token d.model))) _ e2 in
      let same = ok-injective e3 in
      let there = known-id (unk_token d.model) _ id found in
      (
        unk_token d.model,
        subst (λ (x : WordPiece). vocab_get x.vocab (unk_token d.model) ≡ some x.unk_id) same there,
      )
]

All-append-All : (P : ℕ → Type 0) (xs ys : List ℕ) → All P xs → All P ys → All P (xs ++ ys)
All-append-All P [] ys a b = b
All-append-All P (x ∷ xs) ys (p, a) b = (p, All-append-All P xs ys a b)

module _ (w : WordPiece) where
  find_piece-Bounded :
      (at_start : Bool) (rest : Text) (n id m : ℕ)
      → find_piece w at_start rest n ≡ some (id, m)
      → Bounded w.vocab id
  unfolding find_piece
  find_piece-Bounded at_start rest zero id m e = cc
  find_piece-Bounded at_start rest (suc n) id m e =
      elim (Option-cases (vocab_get w.vocab (marked w at_start (first_chars (suc n) rest)))) [
        | inl h ↦ find_piece-Bounded at_start rest n id m (rw (h, find_piece) at e)
        | inr (i, h) ↦
            let p : i ≡ id = ap (λ (x : ℕ × ℕ). x.0) (some-injective (rw (h, find_piece) at e)) in
            vocab_get-Bounded w.vocab _ id (h ∙ ap some p)
      ]

  with_id-Bounded :
      (id : ℕ) (o : Option (List ℕ)) (ids : List ℕ)
      → Bounded w.vocab id
      → ((later : List ℕ) → o ≡ some later → All (Bounded w.vocab) later)
      → with_id id o ≡ some ids
      → All (Bounded w.vocab) ids
  with_id-Bounded id none ids b k e = cc
  with_id-Bounded id (some later) ids b k e =
      subst (All (Bounded w.vocab)) (some-injective e) (b, k later refl)

  pieces-Bounded :
      (at_start : Bool) (skip : ℕ) (t : Text) (ids : List ℕ)
      → pieces w at_start skip t ≡ some ids
      → All (Bounded w.vocab) ids
  unfolding pieces
  pieces-Bounded at_start skip [] ids e = subst (All (Bounded w.vocab)) (some-injective e) tt
  pieces-Bounded at_start (suc skip) (c ∷ cs) ids e = pieces-Bounded at_start skip cs ids e
  pieces-Bounded at_start zero (c ∷ cs) ids e =
      elim (Option-cases (find_piece w at_start (c ∷ cs) (length (c ∷ cs)))) [
        | inl h ↦ let k : none ≡ some ids = rw (h, pieces) at e in cc
        | inr ((id, n), h) ↦
            with_id-Bounded id (pieces w false n cs) ids
              (find_piece-Bounded at_start (c ∷ cs) (length (c ∷ cs)) id n h)
              (λ later p. pieces-Bounded false n cs later p) (rw (h, pieces) at e)
      ]

  or_default-Bounded :
      (o : Option (List ℕ)) (default : List ℕ)
      → All (Bounded w.vocab) default
      → ((ids : List ℕ) → o ≡ some ids → All (Bounded w.vocab) ids)
      → All (Bounded w.vocab) (or_default default o)
  or_default-Bounded none default d k = d
  or_default-Bounded (some ids) default d k = k ids refl

  push_word-Bounded :
      (word : Text) (ids : List ℕ)
      → Bounded w.vocab w.unk_id
      → All (Bounded w.vocab) ids
      → All (Bounded w.vocab) (push_word w word ids)
  unfolding push_word
  push_word-Bounded word ids u a = elim (Bool-cases (ltb w.max_word_chars (length word))) [
    | inl h ↦ rw h (All-append-All (Bounded w.vocab) ids (w.unk_id ∷ []) a (u, tt))
    | inr h ↦ rw h (
        All-append-All (Bounded w.vocab) ids _ a (
          or_default-Bounded (pieces w true 0 word) (w.unk_id ∷ []) (u, tt)
            (pieces-Bounded true 0 word)))
  ]

  push_words-Bounded :
      (limit : ℕ) (ws : List Text) (ids : List ℕ)
      → Bounded w.vocab w.unk_id
      → All (Bounded w.vocab) ids
      → All (Bounded w.vocab) (push_words w limit ws ids)
  unfolding push_words
  push_words-Bounded limit [] ids u a = a
  push_words-Bounded limit (word ∷ ws) ids u a = elim (Bool-cases (leb limit (length ids))) [
    | inl h ↦ rw h a
    | inr h ↦
        rw h (push_words-Bounded limit ws (push_word w word ids) u (push_word-Bounded word ids u a))
  ]

truncate-All : (P : ℕ → Type 0) (n : ℕ) (ids : List ℕ) → All P ids → All P (truncate n ids)
unfolding truncate
truncate-All P zero ids a = tt
truncate-All P (suc n) [] a = tt
truncate-All P (suc n) (id ∷ ids) (p, a) = (p, truncate-All P n ids a)

length-truncate : (n : ℕ) (ids : List ℕ) → length (truncate n ids) ≤ n
unfolding truncate
length-truncate zero ids = omega arith
length-truncate (suc n) [] = omega arith
length-truncate (suc n) (id ∷ ids) = omega (arith, length-truncate n ids)

-- For a tokenizer that was accepted from its document, whatever the text and whatever Unicode's
-- tables say, the encoding has no more ids than the limit, and each of them is below the bound of
-- the vocabulary.
pub encode-Bounded :
    (d : Document) (w : WordPiece) (u : Unicode) (t : Text) (limit : ℕ)
    → from_document d ≡ ok w
    → (length (encode u w t limit) ≤ limit) × All (Bounded w.vocab) (encode u w t limit)
unfolding encode
encode-Bounded d w u t limit e =
    let (unk, known_unk) = from_document-unk_id d w e in
    let below = vocab_get-Bounded w.vocab unk w.unk_id known_unk in
    (
      length-truncate limit (push_words w limit (words u w t) []),
      truncate-All (Bounded w.vocab) limit _ (push_words-Bounded w limit (words u w t) [] below tt),
    )
