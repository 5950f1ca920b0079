-- ===== src/Tests/Cursor.antt =====
-- The cursor's theorems with a MAC and a digest that are easy to compute.
use aicortex.Prelude.{
  ℕ, zero, suc, ◌%◌, All, ◌≡◌, ◌<◌, refl, sym, ap, ◌∙◌, Option, some, none, [], ◌∷◌, ok, ◌==◌,
  if◌then◌else◌, arith,
}
use aicortex.Text.{text_eq, text_eq_refl}
use aicortex.Types.Memory.{
  MemoryKind, observation, fact, preference, decision, task, reference, person_note, correction,
}
use aicortex.Store.Cursor.{
  Bytes, StatusFilter, active, quarantined, superseded, expired, erased, MemoryFilter, Crypto,
  Cursor, encode, decode, filter_text,
}
use aicortex.Store.Cursor.Wire.{IsCrypto, decode-encode}
use aicortex.Store.Cursor.Binding.{
  IsDigest, status_of, kind_of, status_of-filter_text, kind_of-filter_text, material-injective,
}

abbrev repeat : ℕ → Bytes
repeat zero = []
repeat (suc n) = 7 ∷ repeat n

abbrev status_code : Option StatusFilter → ℕ
status_code none = 0
status_code (some active) = 1
status_code (some quarantined) = 2
status_code (some superseded) = 3
status_code (some expired) = 4
status_code (some erased) = 5

abbrev coded_status : ℕ → Option StatusFilter
coded_status n =
    if n == 1
    then some active
    else if n == 2
    then some quarantined
    else if n == 3
    then some superseded
    else if n == 4
    then some expired
    else if n == 5
    then some erased
    else none

coded_status-status_code : (s : Option StatusFilter) → coded_status (status_code s % 256) ≡ s
coded_status-status_code none = refl
coded_status-status_code (some active) = refl
coded_status-status_code (some quarantined) = refl
coded_status-status_code (some superseded) = refl
coded_status-status_code (some expired) = refl
coded_status-status_code (some erased) = refl

abbrev kind_code : Option MemoryKind → ℕ
kind_code none = 0
kind_code (some observation) = 1
kind_code (some fact) = 2
kind_code (some preference) = 3
kind_code (some decision) = 4
kind_code (some task) = 5
kind_code (some reference) = 6
kind_code (some person_note) = 7
kind_code (some correction) = 8

abbrev coded_kind : ℕ → Option MemoryKind
coded_kind n =
    if n == 1
    then some observation
    else if n == 2
    then some fact
    else if n == 3
    then some preference
    else if n == 4
    then some decision
    else if n == 5
    then some task
    else if n == 6
    then some reference
    else if n == 7
    then some person_note
    else if n == 8
    then some correction
    else none

coded_kind-kind_code : (k : Option MemoryKind) → coded_kind (kind_code k % 256) ≡ k
coded_kind-kind_code none = refl
coded_kind-kind_code (some observation) = refl
coded_kind-kind_code (some fact) = refl
coded_kind-kind_code (some preference) = refl
coded_kind-kind_code (some decision) = refl
coded_kind-kind_code (some task) = refl
coded_kind-kind_code (some reference) = refl
coded_kind-kind_code (some person_note) = refl
coded_kind-kind_code (some correction) = refl

abbrev code_or : {A : Type 0} → (A → ℕ) → Option A → ℕ
code_or code none = 9
code_or code (some a) = code a

-- Numbers the filters, and fills up to 32.
abbrev numbered : Bytes → Bytes
numbered bs =
    code_or status_code (status_of bs) % 256 ∷ code_or kind_code (kind_of bs) % 256 ∷ repeat 30

abbrev plain : Crypto
plain = record {
  Key = ℕ;
  sign = λ key m. repeat 32;
  verify = λ key m mac. text_eq mac (repeat 32);
  base64 = λ bs. bs;
  from_base64 = λ bs. some bs;
  sha256 = numbered;
}

plain-IsCrypto : IsCrypto plain
plain-IsCrypto = record {
  verifies = λ key m. text_eq_refl (repeat 32);
  mac_length = λ key m. refl;
  reads = λ bs. refl;
}

abbrev first_byte : Bytes → ℕ
first_byte [] = 0
first_byte (b ∷ bs) = b

abbrev second_byte : Bytes → ℕ
second_byte [] = 0
second_byte (b ∷ bs) = first_byte bs

repeat-bytes : (n : ℕ) → All (λ b. b < 256) (repeat n)
repeat-bytes zero = tt
repeat-bytes (suc n) = (omega arith, repeat-bytes n)

plain-IsDigest : IsDigest plain
plain-IsDigest = record {
  digest_length = λ bs. refl;
  digest_bytes = λ bs. (omega arith, (omega arith, repeat-bytes 30));
  no_collision = λ f g e. ap filter_text (same f g e);
}
  where
    status_read :
        (f : MemoryFilter)
        → coded_status (code_or status_code (status_of (filter_text f)) % 256) ≡ f.status
    status_read f =
        ap (λ o. coded_status (code_or status_code o % 256)) (status_of-filter_text f.status f.kind)
        ∙ coded_status-status_code f.status

    kind_read :
        (f : MemoryFilter) → coded_kind (code_or kind_code (kind_of (filter_text f)) % 256) ≡ f.kind
    kind_read f =
        ap (λ o. coded_kind (code_or kind_code o % 256)) (kind_of-filter_text f.status f.kind)
        ∙ coded_kind-kind_code f.kind

    same : (f g : MemoryFilter) → numbered (filter_text f) ≡ numbered (filter_text g) → f ≡ g
    same f g e =
        let s : f.status ≡ g.status =
          sym (status_read f) ∙ ap (λ bs. coded_status (first_byte bs)) e ∙ status_read g in
        let k : f.kind ≡ g.kind =
          sym (kind_read f) ∙ ap (λ bs. coded_kind (second_byte bs)) e ∙ kind_read g in
        λ i. record { status = s i; kind = k i }

abbrev last_row : Cursor
last_row = record { created = 1700000000; id = repeat 16 }

abbrev facts : MemoryFilter
facts = record { status = some active; kind = some fact }

abbrev scope : Bytes
scope = b'o' ∷ b'/' ∷ b'p' ∷ []

decode-encode_example :
    decode plain (encode plain last_row 1 scope facts) 1 scope facts ≡ ok last_row
decode-encode_example = decode-encode plain last_row 1 scope facts plain-IsCrypto (omega arith) refl

material-injective_example : (repeat 25 ≡ repeat 25) × (scope ≡ scope) × (facts ≡ facts)
material-injective_example =
    material-injective plain (repeat 25) (repeat 25) scope scope facts facts plain-IsDigest refl
      refl refl
