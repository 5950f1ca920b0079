-- ===== src/Store/Cursor/Binding.antt =====
-- What the MAC of a cursor (crates/aicortex-store/src/cursor.rs) binds it to.
use aicortex.Prelude.{
  ℕ, suc, ◌*◌, ◌/◌, ◌%◌, ◌<◌, All, ◌≡◌, refl, sym, ap, ◌∙◌, Option, none, some, List, [], ◌∷◌, ◌++◌,
  length, length-append, ◌==◌, if◌then◌else◌, some-injective, arith,
}
use mathlib.Core.Path.{ap₂}
use aicortex.Text.{text_eq}
use aicortex.Text.Chars.{chars}
use aicortex.Types.Memory.{
  MemoryKind, observation, fact, preference, decision, task, reference, person_note, correction,
}
use aicortex.Store.Cursor.{
  Bytes, StatusFilter, active, quarantined, superseded, expired, erased, status_label, kind_label,
  MemoryFilter, label_or, filter_text, Crypto, position_bytes, take, drop, domain, hex_char, hex,
  hex_digest, digest, material,
}
use aicortex.Store.Cursor.Wire.{take-append, drop-append}

-- A digest is 32 bytes, and no two filters' texts share one.
pub record IsDigest (crypto : Crypto) : Type 0 where
  pub digest_length : (bs : Bytes) → length (crypto.sha256 bs) ≡ 32
  pub digest_bytes : (bs : Bytes) → All (λ b. b < 256) (crypto.sha256 bs)
  pub no_collision :
      (f g : MemoryFilter)
      → crypto.sha256 (filter_text f) ≡ crypto.sha256 (filter_text g)
      → filter_text f ≡ filter_text g

length-hex : (bs : Bytes) → length (hex bs) ≡ 2 * length bs
unfolding hex
length-hex [] = omega arith
length-hex (b ∷ bs) = omega (arith, length-hex bs)

abbrev first_of : Bytes → ℕ
first_of [] = 0
first_of (b ∷ bs) = b

hex_char-injective : (a b : ℕ) → a < 16 → b < 16 → hex_char a ≡ hex_char b → a ≡ b
hex_char-injective a b h k e = ground arith

-- A digest in hexadecimal names its bytes.
hex-injective :
    (xs ys : Bytes) → All (λ b. b < 256) xs → All (λ b. b < 256) ys → hex xs ≡ hex ys → xs ≡ ys
unfolding hex drop
hex-injective [] [] a b e = refl
hex-injective [] (y ∷ ys) a b e =
    let l : 0 ≡ suc (suc (length (hex ys))) = ap length e in absurd (omega arith)
hex-injective (x ∷ xs) [] a b e =
    let l : suc (suc (length (hex xs))) ≡ 0 = ap length e in absurd (omega arith)
hex-injective (x ∷ xs) (y ∷ ys) (p, a) (q, b) e =
    let high = hex_char-injective (x / 16) (y / 16) (omega arith) (omega arith) (ap first_of e) in
    let low =
      hex_char-injective (x % 16) (y % 16) (omega arith) (omega arith)
        (ap (λ bs. first_of (drop 1 bs)) e) in
    let same : x ≡ y = omega arith in
    ap₂ (λ h t. h ∷ t) same (hex-injective xs ys a b (ap (drop 2) e))

-- Up to the separator, and behind it.
abbrev until : Bytes → Bytes
until [] = []
until (b ∷ bs) = let rest = until bs in if b == 0x1f then [] else b ∷ rest

abbrev behind : Bytes → Bytes
behind [] = []
behind (b ∷ bs) = let rest = behind bs in if b == 0x1f then bs else rest

abbrev shown : {A : Type 0} → (A → Bytes) → List (Option A) → Bytes → Option (Option A)
shown label [] bs = none
shown label (o ∷ os) bs =
    let rest = shown label os bs in if text_eq (label_or label o) bs then some o else rest

abbrev statuses : List (Option StatusFilter)
statuses = none ∷ some active ∷ some quarantined ∷ some superseded ∷ some expired ∷ some erased ∷ []

abbrev kinds : List (Option MemoryKind)
kinds =
    none
    ∷ some observation
    ∷ some fact
    ∷ some preference
    ∷ some decision
    ∷ some task
    ∷ some reference
    ∷ some person_note
    ∷ some correction
    ∷ []

unfoldable pub status_of : Bytes → Option (Option StatusFilter)
status_of bs = shown status_label statuses (drop 7 (until bs))

unfoldable pub kind_of : Bytes → Option (Option MemoryKind)
kind_of bs = shown kind_label kinds (drop 5 (behind bs))

pub status_of-filter_text :
    (s : Option StatusFilter) (k : Option MemoryKind)
    → status_of (filter_text (record { status = s; kind = k })) ≡ some s
unfolding status_of filter_text status_label chars text_eq drop
status_of-filter_text none k = refl
status_of-filter_text (some active) k = refl
status_of-filter_text (some quarantined) k = refl
status_of-filter_text (some superseded) k = refl
status_of-filter_text (some expired) k = refl
status_of-filter_text (some erased) k = refl

behind-filter_text :
    (s : Option StatusFilter) (k : Option MemoryKind)
    → behind (filter_text (record { status = s; kind = k }))
      ≡ chars "kind=" ++ label_or kind_label k
unfolding filter_text status_label chars
behind-filter_text none k = refl
behind-filter_text (some active) k = refl
behind-filter_text (some quarantined) k = refl
behind-filter_text (some superseded) k = refl
behind-filter_text (some expired) k = refl
behind-filter_text (some erased) k = refl

shown-kind :
    (k : Option MemoryKind)
    → shown kind_label kinds (drop 5 (chars "kind=" ++ label_or kind_label k)) ≡ some k
unfolding kind_label chars text_eq drop
shown-kind none = refl
shown-kind (some observation) = refl
shown-kind (some fact) = refl
shown-kind (some preference) = refl
shown-kind (some decision) = refl
shown-kind (some task) = refl
shown-kind (some reference) = refl
shown-kind (some person_note) = refl
shown-kind (some correction) = refl

pub kind_of-filter_text :
    (s : Option StatusFilter) (k : Option MemoryKind)
    → kind_of (filter_text (record { status = s; kind = k })) ≡ some k
unfolding kind_of
kind_of-filter_text s k =
    ap (λ bs. shown kind_label kinds (drop 5 bs)) (behind-filter_text s k) ∙ shown-kind k

-- Two filters with one text are the same.
filter_text-injective : (f g : MemoryFilter) → filter_text f ≡ filter_text g → f ≡ g
unfolding kind_of
filter_text-injective f g e =
    let s : f.status ≡ g.status = some-injective (
      sym (status_of-filter_text f.status f.kind)
      ∙ ap status_of e
      ∙ status_of-filter_text g.status g.kind) in
    let k : f.kind ≡ g.kind = some-injective (
      sym (kind_of-filter_text f.status f.kind)
      ∙ ap kind_of e
      ∙ kind_of-filter_text g.status g.kind) in
    λ i. record { status = s i; kind = k i }

-- Equal texts whose ends are of one length are equal in both parts.
append-cancel :
    (xs ys us vs : Bytes) → length xs ≡ length ys → xs ++ us ≡ ys ++ vs → (xs ≡ ys) × (us ≡ vs)
append-cancel xs ys us vs l e = (
  sym (take-append (length xs) xs us refl)
      ∙ ap (take (length xs)) e
      ∙ take-append (length xs) ys vs (sym l),
  sym (drop-append (length xs) xs us refl)
      ∙ ap (drop (length xs)) e
      ∙ drop-append (length xs) ys vs (sym l),
)

append-cancel_end :
    (xs ys us vs : Bytes) → length us ≡ length vs → xs ++ us ≡ ys ++ vs → (xs ≡ ys) × (us ≡ vs)
append-cancel_end xs ys us vs l e =
    let a = length-append xs us in
    let b = length-append ys vs in let c = ap length e in append-cancel xs ys us vs (omega arith) e

-- Where digests are 32 bytes and those of two filters differ, the bytes that the MAC covers
-- name one position, one scope and one filter: no other combination of a position of 25 bytes, a
-- scope and a filter has the same bytes, though the scope is of any length.
pub material-injective :
    (crypto : Crypto) (at other : Bytes) (scope elsewhere : Bytes) (f g : MemoryFilter)
    → IsDigest crypto
    → length at ≡ position_bytes
    → length other ≡ position_bytes
    → material crypto at scope f ≡ material crypto other elsewhere g
    → (at ≡ other) × (scope ≡ elsewhere) × (f ≡ g)
unfolding material digest hex_digest
material-injective crypto at other scope elsewhere f g law l m e =
    let lf = length-hex (crypto.sha256 (filter_text f)) in
    let lg = length-hex (crypto.sha256 (filter_text g)) in
    let df = law.digest_length (filter_text f) in
    let dg = law.digest_length (filter_text g) in
    let same_length : length (hex (crypto.sha256 (filter_text f)))
        ≡ length (hex (crypto.sha256 (filter_text g))) =
      omega arith in
    let a = length-append domain at in
    let b = length-append domain other in
    let fronts : length (domain ++ at) ≡ length (domain ++ other) = omega arith in
    let (front, ends) = append-cancel_end _ _ _ _ same_length e in
    let (middle, scopes) =
      append-cancel (domain ++ at) (domain ++ other) scope elsewhere fronts front in
    let (_, positions) = append-cancel_end domain domain at other (l ∙ sym m) middle in
    let digests =
      hex-injective (crypto.sha256 (filter_text f)) (crypto.sha256 (filter_text g))
        (law.digest_bytes (filter_text f)) (law.digest_bytes (filter_text g)) ends in
    (positions, scopes, filter_text-injective f g (law.no_collision f g digests))
