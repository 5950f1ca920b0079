-- ===== src/Tests/WordPiece.antt =====
-- The tokenizer's theorems at a concrete document.
use aicortex.Prelude.{◌≡◌, ◌≤◌, refl, ◌↔◌, true, false, none, some, [], ◌∷◌, All, length, ok}
use aicortex.Text.{Text, is_whitespace, text_eq}
use aicortex.Text.Chars.{chars}
use aicortex.Embed.WordPiece.{
  Document, WordPiece, Unicode, from_document, vocab_get, pieces, encode,
}
use aicortex.Embed.WordPiece.Ids.{Bounded, encode-Bounded}
use aicortex.Embed.WordPiece.Greedy.{IsGreedy, pieces-IsLongest}

-- "un"
abbrev un : Text
un = b'u' ∷ b'n' ∷ []

-- "do"
abbrev verb : Text
verb = b'd' ∷ b'o' ∷ []

-- "undo"
abbrev undo : Text
undo = b'u' ∷ b'n' ∷ b'd' ∷ b'o' ∷ []

abbrev document : Document
document = record {
  normalizer = none;
  pre_tokenizer = none;
  model = record {
    kind = "WordPiece";
    unk_token = none;
    continuing_subword_prefix = none;
    max_input_chars_per_word = some 9;
    vocab =
        (b'[' ∷ b'U' ∷ b'N' ∷ b'K' ∷ b']' ∷ [], 5)
        ∷ (un, 1)
        ∷ (b'u' ∷ [], 2)
        ∷ (b'#' ∷ b'#' ∷ verb, 3)
        ∷ [];
  };
}

abbrev tokenizer : WordPiece
tokenizer = record {
  vocab = document.model.vocab;
  unk_id = 5;
  prefix = b'#' ∷ b'#' ∷ [];
  max_word_chars = 9;
  lowercase = false;
  strip_accents = false;
  clean_text = false;
  split_cjk = false;
  split_punctuation = false;
}

abbrev ascii : Unicode
ascii = record {
  nfd = λ t. t;
  is_nonspacing_mark = λ c. false;
  is_category_p = λ c. false;
  is_control_or_format = λ c. false;
  lower_case = λ c. c ∷ [];
}

accepted : from_document document ≡ ok tokenizer
unfolding from_document chars text_eq
accepted = refl

undo_ids : encode ascii tokenizer undo 4 ≡ 1 ∷ 3 ∷ []
unfolding encode is_whitespace text_eq vocab_get
undo_ids = refl

unknown_ids : encode ascii tokenizer verb 4 ≡ 5 ∷ []
unfolding encode is_whitespace text_eq vocab_get
unknown_ids = refl

encode-Bounded_example :
    (length (encode ascii tokenizer undo 4) ≤ 4)
    × All (Bounded tokenizer.vocab) (encode ascii tokenizer undo 4)
encode-Bounded_example = encode-Bounded document tokenizer ascii undo 4 accepted

pieces-IsLongest_example :
    (pieces tokenizer true 0 undo ≡ some (1 ∷ 3 ∷ [])) ↔ IsGreedy tokenizer true undo (1 ∷ 3 ∷ [])
pieces-IsLongest_example = pieces-IsLongest tokenizer undo (1 ∷ 3 ∷ [])
