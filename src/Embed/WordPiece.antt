-- ===== src/Embed/WordPiece.antt =====
-- crates/aicortex-embed/src/wordpiece.rs: the tokenizer of the local sentence models. The JSON of a document is
-- read by another crate, so a `Document` is what was read. The categories and the decomposition of
-- Unicode belong to other crates and are the parameter `Unicode`, with the table of lower case.
-- A vocabulary is an association list, of which the first entry counts. A position in a word is the
-- text that is left from it on.
use aicortex.Prelude.{
  ℕ, zero, suc, ◌+◌, Bool, true, false, not, ◌&&◌, ◌||◌, Option, none, some, List, [], ◌∷◌, ◌++◌,
  retain, length, ltb, leb, ◌==◌, if◌then◌else◌, Result, ok, err, ◌>>=◌,
}
use Prim.Native.String.{String}
use package.text.Mathlib.Text.{◌==◌ as str_eq}
use aicortex.Text.{Text, is_whitespace, text_eq}
use aicortex.Text.Chars.{chars}
pub mod Ids
pub mod Greedy

pub record Component : Type 0 where
  pub kind : String
  pub lowercase : Option Bool
  pub strip_accents : Option Bool
  pub clean_text : Option Bool
  pub handle_chinese_chars : Option Bool

abbrev pub Vocab : Type 0
Vocab = List (Text × ℕ)

pub record ModelSection : Type 0 where
  pub kind : String
  pub unk_token : Option Text
  pub continuing_subword_prefix : Option Text
  pub max_input_chars_per_word : Option ℕ
  pub vocab : Vocab

pub record Document : Type 0 where
  pub normalizer : Option Component
  pub pre_tokenizer : Option Component
  pub model : ModelSection

pub record WordPiece : Type 0 where
  pub vocab : Vocab
  pub unk_id : ℕ
  pub prefix : Text
  pub max_word_chars : ℕ
  pub lowercase : Bool
  pub strip_accents : Bool
  pub clean_text : Bool
  pub split_cjk : Bool
  pub split_punctuation : Bool

pub data TokenizerError : Type 0 where
  unsupported_model unsupported_normalizer unsupported_pre_tokenizer : String → TokenizerError
  no_unknown_token : Text → TokenizerError

abbrev pub or_default : {A : Type 0} → A → Option A → A
or_default default none = default
or_default default (some a) = a

unfoldable pub vocab_get : Vocab → Text → Option ℕ
unfolding text_eq
vocab_get [] t = none
vocab_get (entry ∷ rest) t =
    let later = vocab_get rest t in if text_eq entry.0 t then some entry.1 else later

-- The four switches of the normalizer: lower case, accents, cleaning, ideographs.
abbrev pub switches : Option Component → Result TokenizerError (Bool × Bool × Bool × Bool)
switches none = ok (false, false, false, false)
switches (some c) =
    if str_eq c.kind "BertNormalizer"
    then ok (
      or_default true c.lowercase,
      or_default (or_default true c.lowercase) c.strip_accents,
      or_default true c.clean_text,
      or_default true c.handle_chinese_chars,
    )
    else err (unsupported_normalizer c.kind)

abbrev pub splits : Option Component → Result TokenizerError Bool
splits none = ok false
splits (some c) =
    if str_eq c.kind "BertPreTokenizer" then ok true else err (unsupported_pre_tokenizer c.kind)

abbrev pub known : Text → Option ℕ → Result TokenizerError ℕ
known unk none = err (no_unknown_token unk)
known unk (some id) = ok id

abbrev pub unk_token : ModelSection → Text
unk_token model = or_default (chars "[UNK]") model.unk_token

-- `WordPiece::from_json`, from the document on.
unfoldable pub from_document : Document → Result TokenizerError WordPiece
unfolding vocab_get
from_document d =
    if not (str_eq d.model.kind "WordPiece")
    then err (unsupported_model d.model.kind)
    else (switches d.normalizer >>= λ s. splits d.pre_tokenizer >>= λ p.
        known (unk_token d.model) (vocab_get d.model.vocab (unk_token d.model)) >>= λ id.
        ok (record {
          vocab = d.model.vocab;
          unk_id = id;
          prefix = or_default (chars "##") d.model.continuing_subword_prefix;
          max_word_chars = or_default 100 d.model.max_input_chars_per_word;
          lowercase = s.0;
          strip_accents = s.1;
          clean_text = s.2;
          split_cjk = s.3;
          split_punctuation = p;
        }))

abbrev pub max : ℕ → ℕ → ℕ
max a b = if leb a b then b else a

-- The ids are of 32 bits, so that one more than the largest fits.
unfoldable pub id_bound : Vocab → ℕ
id_bound [] = 0
id_bound (entry ∷ rest) = max (entry.1 + 1) (id_bound rest)

pub record Unicode : Type 0 where
  pub nfd : Text → Text
  pub is_nonspacing_mark : ℕ → Bool
  pub is_category_p : ℕ → Bool
  pub is_control_or_format : ℕ → Bool
  pub lower_case : ℕ → Text

unfoldable pub is_ascii_punctuation : ℕ → Bool
is_ascii_punctuation c =
    (leb 0x21 c && leb c 0x2f)
    || (leb 0x3a c && leb c 0x40)
    || (leb 0x5b c && leb c 0x60)
    || (leb 0x7b c && leb c 0x7e)

unfoldable pub is_cjk : ℕ → Bool
is_cjk c =
    (leb 0x4e00 c && leb c 0x9fff)
    || (leb 0x3400 c && leb c 0x4dbf)
    || (leb 0x20000 c && leb c 0x2a6df)
    || (leb 0x2a700 c && leb c 0x2b73f)
    || (leb 0x2b740 c && leb c 0x2b81f)
    || (leb 0x2b820 c && leb c 0x2ceaf)
    || (leb 0xf900 c && leb c 0xfaff)
    || (leb 0x2f800 c && leb c 0x2fa1f)

module _ (u : Unicode) where
  unfoldable pub is_punctuation : ℕ → Bool
  unfolding is_ascii_punctuation
  is_punctuation c = is_ascii_punctuation c || u.is_category_p c

  unfoldable pub is_removable_control : ℕ → Bool
  is_removable_control c =
      c == 0 || c == 0xfffd || (not (is_whitespace c) && u.is_control_or_format c)

  -- What one character becomes.
  abbrev pub normal_char : WordPiece → ℕ → Text
  normal_char w c =
      if w.clean_text && is_removable_control c
      then []
      else if w.split_cjk && is_cjk c
      then b' ' ∷ c ∷ b' ' ∷ []
      else if w.lowercase
      then u.lower_case c
      else c ∷ []

  unfoldable pub normalize_chars : WordPiece → Text → Text
  unfolding is_removable_control is_cjk
  normalize_chars w [] = []
  normalize_chars w (c ∷ cs) = normal_char w c ++ normalize_chars w cs

  unfoldable pub normalize : WordPiece → Text → Text
  unfolding normalize_chars
  normalize w t =
      normalize_chars w
        (if w.strip_accents then retain (λ c. not (u.is_nonspacing_mark c)) (u.nfd t) else t)

  abbrev pub flush : Text → List Text → List Text
  flush [] words = words
  flush (c ∷ cs) words = (c ∷ cs) ∷ words

  unfoldable pub separates : WordPiece → ℕ → Bool
  unfolding is_punctuation
  separates w c = is_whitespace c || (w.split_punctuation && is_punctuation c)

  -- The words from here on, after the characters of the current one.
  unfoldable pub words_from : WordPiece → Text → Text → List Text
  unfolding is_punctuation separates
  words_from w current [] = flush current []
  words_from w current (c ∷ cs) =
      let rest = words_from w (if separates w c then [] else current ++ c ∷ []) cs in
      if is_whitespace c
      then flush current rest
      else if w.split_punctuation && is_punctuation c
      then flush current ((c ∷ []) ∷ rest)
      else rest

  unfoldable pub words : WordPiece → Text → List Text
  unfolding normalize words_from
  words w t = words_from w [] (normalize w t)

abbrev pub first_chars : ℕ → Text → Text
first_chars zero t = []
first_chars (suc n) [] = []
first_chars (suc n) (c ∷ cs) = c ∷ first_chars n cs

abbrev pub marked : WordPiece → Bool → Text → Text
marked w at_start t = if at_start then t else w.prefix ++ t

abbrev pub or_shorter : ℕ → Option ℕ → Option (ℕ × ℕ) → Option (ℕ × ℕ)
or_shorter n none shorter = shorter
or_shorter n (some id) shorter = some (id, n)

-- The longest piece of at most `n` characters that the vocabulary has: its id, and how many of its
-- characters stand behind the first.
unfoldable pub find_piece : WordPiece → Bool → Text → ℕ → Option (ℕ × ℕ)
find_piece w at_start rest zero = none
find_piece w at_start rest (suc n) =
    or_shorter n (vocab_get w.vocab (marked w at_start (first_chars (suc n) rest)))
      (find_piece w at_start rest n)

abbrev pub with_id : ℕ → Option (List ℕ) → Option (List ℕ)
with_id id none = none
with_id id (some ids) = some (id ∷ ids)

-- The pieces of a word, from behind `skip` characters of the last one on.
unfoldable pub pieces : WordPiece → Bool → ℕ → Text → Option (List ℕ)
unfolding find_piece
pieces w at_start skip [] = some []
pieces w at_start (suc skip) (c ∷ cs) = pieces w at_start skip cs
pieces w at_start zero (c ∷ cs) = elim (find_piece w at_start (c ∷ cs) (length (c ∷ cs))) [
  | none ↦ none
  | some (id, n) ↦ with_id id (pieces w false n cs)
]

unfoldable pub push_word : WordPiece → Text → List ℕ → List ℕ
unfolding pieces
push_word w word ids =
    if ltb w.max_word_chars (length word)
    then ids ++ w.unk_id ∷ []
    else ids ++ or_default (w.unk_id ∷ []) (pieces w true 0 word)

unfoldable pub push_words : WordPiece → ℕ → List Text → List ℕ → List ℕ
unfolding push_word
push_words w limit [] ids = ids
push_words w limit (word ∷ rest) ids =
    if leb limit (length ids) then ids else push_words w limit rest (push_word w word ids)

-- `Vec::truncate`.
unfoldable pub truncate : ℕ → List ℕ → List ℕ
truncate zero ids = []
truncate (suc n) [] = []
truncate (suc n) (id ∷ ids) = id ∷ truncate n ids

unfoldable pub encode : Unicode → WordPiece → Text → ℕ → List ℕ
unfolding words push_words truncate
encode u w t limit = truncate limit (push_words w limit (words u w t) [])
