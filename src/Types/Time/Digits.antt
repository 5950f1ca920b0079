-- ===== src/Types/Time/Digits.antt =====
-- `digits` of crates/aicortex-types/src/claim_time.rs, which reads a field of fixed width, and the
-- zero-padded formats `{:02}` and `{:04}` that write one.
use aicortex.Prelude.{
  ℕ, ◌+◌, ◌-◌, ◌*◌, ◌/◌, ◌%◌, ◌≤◌, ◌<◌, ◌≡◌, refl, sym, ◌∙◌, length, true, not, ◌||◌, [], ◌∷◌,
  arith, ltb, leb, ◌==◌, if◌then◌else◌, all, Result, ok, err,
}
use mathlib.Core.Path.{subst}
use Prim.Native.String.{String}
use aicortex.Text.{Text, byte_len, is_digit, len_utf8}
use aicortex.Types.Error.{TypeError, invalid}

-- The decimal value of a text of digits, after `acc`.
unfoldable pub value_from : ℕ → Text → ℕ
value_from acc [] = acc
value_from acc (c ∷ cs) = value_from (acc * 10 + (c - b'0')) cs

-- `text.parse::<u16>()`, on a text of ascii digits.
unfoldable pub parse_u16 : String → Text → Result TypeError ℕ
parse_u16 field t = if leb (value_from 0 t) 0xffff then ok (value_from 0 t) else err (invalid field)

unfoldable pub digits : String → Text → ℕ → Result TypeError ℕ
digits field t width =
    if not (byte_len t == width) || not (all is_digit t)
    then err (invalid field)
    else parse_u16 field t

abbrev pub digit : ℕ → ℕ
digit n = b'0' + n % 10

-- `{:02}` of a `u8`, and `{:04}` of a `u16`.
abbrev pub pad2 : ℕ → Text
pad2 n =
    if ltb n 100
    then digit (n / 10) ∷ digit n ∷ []
    else digit (n / 100) ∷ digit (n / 10) ∷ digit n ∷ []

abbrev pub pad4 : ℕ → Text
pad4 n =
    if ltb n 10000
    then digit (n / 1000) ∷ digit (n / 100) ∷ digit (n / 10) ∷ digit n ∷ []
    else digit (n / 10000) ∷ digit (n / 1000) ∷ digit (n / 100) ∷ digit (n / 10) ∷ digit n ∷ []

pub digits-pad2 : (field : String) (n : ℕ) → n < 100 → digits field (pad2 n) 2 ≡ ok n
unfolding digits parse_u16 value_from is_digit byte_len len_utf8
digits-pad2 field n h = ground arith

pub digits-pad4 : (field : String) (n : ℕ) → n < 10000 → digits field (pad4 n) 4 ≡ ok n
unfolding digits parse_u16 value_from is_digit byte_len len_utf8
digits-pad4 field n h = ground arith

-- The digits of a text stand between `0` and `9`, each in one byte.
abbrev AllDigits : Text → Type 0
AllDigits [] = Unit
AllDigits (c ∷ cs) = (b'0' ≤ c) × (c ≤ b'9') × AllDigits cs

all-AllDigits : (t : Text) → all is_digit t ≡ true → AllDigits t
unfolding is_digit
all-AllDigits [] h = tt
all-AllDigits (c ∷ cs) h = (ground arith, ground arith, all-AllDigits cs (ground arith))

byte_len-digits : (t : Text) → AllDigits t → byte_len t ≡ length t
unfolding byte_len len_utf8
byte_len-digits [] h = refl
byte_len-digits (c ∷ cs) h = ground (arith, byte_len-digits cs h.2)

digits_inverts :
    (field : String) (t : Text) (width n : ℕ)
    → digits field t width ≡ ok n
    → (byte_len t ≡ width) × (all is_digit t ≡ true) × (value_from 0 t ≡ n)
unfolding digits parse_u16
digits_inverts field t width n h = ground arith

-- What a successful reading says of the text.
digits_reads :
    (field : String) (t : Text) (width n : ℕ)
    → digits field t width ≡ ok n
    → (length t ≡ width) × AllDigits t × (value_from 0 t ≡ n)
digits_reads field t width n h =
    (sym (byte_len-digits t (all-AllDigits t parts.1)) ∙ parts.0, all-AllDigits t parts.1, parts.2)
  where
    parts : (byte_len t ≡ width) × (all is_digit t ≡ true) × (value_from 0 t ≡ n)
    parts = digits_inverts field t width n (h)

two_digits :
    (a b : ℕ)
    → b'0' ≤ a
    → a ≤ b'9'
    → b'0' ≤ b
    → b ≤ b'9'
    → ((a ∷ b ∷ []) ≡ pad2 (value_from 0 (a ∷ b ∷ []))) × (value_from 0 (a ∷ b ∷ []) < 100)
unfolding value_from
two_digits a b ha ha' hb hb' = ground arith

four_digits :
    (a b c d : ℕ)
    → AllDigits (a ∷ b ∷ c ∷ d ∷ [])
    → ((a ∷ b ∷ c ∷ d ∷ []) ≡ pad4 (value_from 0 (a ∷ b ∷ c ∷ d ∷ [])))
      × (value_from 0 (a ∷ b ∷ c ∷ d ∷ []) < 10000)
unfolding value_from
four_digits a b c d h = ground arith

-- Only the padded text reads as a number: the reading loses nothing.
pub pad2-digits :
    (field : String) (t : Text) (n : ℕ) → digits field t 2 ≡ ok n → (t ≡ pad2 n) × (n < 100)
pad2-digits field t n h = let (len, ds, v) = digits_reads field t 2 n h in two t len ds v
  where
    two : (t : Text) → length t ≡ 2 → AllDigits t → value_from 0 t ≡ n → (t ≡ pad2 n) × (n < 100)
    two (a ∷ b ∷ []) len ds v =
        subst (λ k. ((a ∷ b ∷ []) ≡ pad2 k) × (k < 100)) v (two_digits a b ds.0 ds.1 ds.2.0 ds.2.1)
    two [] len ds v = absurd (omega arith)
    two (a ∷ []) len ds v = absurd (omega arith)
    two (a ∷ b ∷ c ∷ t) len ds v = absurd (omega arith)

pub pad4-digits :
    (field : String) (t : Text) (n : ℕ) → digits field t 4 ≡ ok n → (t ≡ pad4 n) × (n < 10000)
pad4-digits field t n h = let (len, ds, v) = digits_reads field t 4 n h in four t len ds v
  where
    four : (t : Text) → length t ≡ 4 → AllDigits t → value_from 0 t ≡ n → (t ≡ pad4 n) × (n < 10000)
    four (a ∷ b ∷ c ∷ d ∷ []) len ds v =
        subst (λ k. ((a ∷ b ∷ c ∷ d ∷ []) ≡ pad4 k) × (k < 10000)) v (four_digits a b c d ds)
    four [] len ds v = absurd (omega arith)
    four (a ∷ []) len ds v = absurd (omega arith)
    four (a ∷ b ∷ []) len ds v = absurd (omega arith)
    four (a ∷ b ∷ c ∷ []) len ds v = absurd (omega arith)
    four (a ∷ b ∷ c ∷ d ∷ e ∷ t) len ds v = absurd (omega arith)
