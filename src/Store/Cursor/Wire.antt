-- ===== src/Store/Cursor/Wire.antt =====
-- A cursor of crates/aicortex-store/src/cursor.rs is read back as it was written.
use aicortex.Prelude.{
  ℕ, zero, suc, ◌+◌, ◌*◌, ◌/◌, ◌%◌, ◌<◌, ◌≡◌, refl, ap, ◌∙◌, true, some, [], ◌∷◌, ◌++◌, length,
  length-append, ◌==◌, ok, arith,
}
use aicortex.Store.Cursor.{
  Bytes, MemoryFilter, Crypto, Cursor, position_bytes, mac_bytes, to_be_bytes, from_be_bytes, take,
  drop, position, material, sign_position, encode, read_position, read_wire, decode,
}

-- What is relied on of the MAC and of base64url.
pub record IsCrypto (crypto : Crypto) : Type 0 where
  pub verifies : (key : crypto.Key) (m : Bytes) → crypto.verify key m (crypto.sign key m) ≡ true
  pub mac_length : (key : crypto.Key) (m : Bytes) → length (crypto.sign key m) ≡ mac_bytes
  pub reads : (bs : Bytes) → crypto.from_base64 (crypto.base64 bs) ≡ some bs

-- The numbers of a width.
abbrev pub space : ℕ → ℕ
space zero = 1
space (suc width) = 256 * space width

pub length-to_be_bytes : (width n : ℕ) → length (to_be_bytes width n) ≡ width
unfolding to_be_bytes
length-to_be_bytes zero n = refl
length-to_be_bytes (suc width) n =
    let l = length-append (to_be_bytes width (n / 256)) ((n % 256) ∷ []) in
    let k = length-to_be_bytes width (n / 256) in omega arith

from_be_bytes-append :
    (high b : ℕ) (bs : Bytes) → from_be_bytes high (bs ++ b ∷ []) ≡ from_be_bytes high bs * 256 + b
unfolding from_be_bytes
from_be_bytes-append high b [] = refl
from_be_bytes-append high b (x ∷ bs) = from_be_bytes-append (high * 256 + x) b bs

from_be_bytes-to_be_bytes :
    (width n : ℕ) → n < space width → from_be_bytes 0 (to_be_bytes width n) ≡ n
unfolding to_be_bytes from_be_bytes
from_be_bytes-to_be_bytes zero n h = omega arith
from_be_bytes-to_be_bytes (suc width) n h =
    let a = from_be_bytes-append 0 (n % 256) (to_be_bytes width (n / 256)) in
    let k = from_be_bytes-to_be_bytes width (n / 256) (omega arith) in omega arith

pub take-append : (n : ℕ) (xs ys : Bytes) → length xs ≡ n → take n (xs ++ ys) ≡ xs
unfolding take
take-append zero [] ys h = refl
take-append zero (x ∷ xs) ys h = absurd (omega arith)
take-append (suc n) [] ys h = absurd (omega arith)
take-append (suc n) (x ∷ xs) ys h = ap (λ t. x ∷ t) (take-append n xs ys (omega arith))

pub drop-append : (n : ℕ) (xs ys : Bytes) → length xs ≡ n → drop n (xs ++ ys) ≡ ys
unfolding drop
drop-append zero [] ys h = refl
drop-append zero (x ∷ xs) ys h = absurd (omega arith)
drop-append (suc n) [] ys h = absurd (omega arith)
drop-append (suc n) (x ∷ xs) ys h = drop-append n xs ys (omega arith)

length-position : (c : Cursor) → length c.id ≡ 16 → length (position c) ≡ position_bytes
unfolding position
length-position c h =
    let l = length-append (to_be_bytes 8 c.created) c.id in
    let k = length-to_be_bytes 8 c.created in omega arith

read_position-position :
    (crypto : Crypto) (c : Cursor)
    → c.created < space 8
    → length c.id ≡ 16
    → read_position crypto (position c) ≡ ok c
unfolding position
read_position-position crypto c h l =
    let k = length-to_be_bytes 8 c.created in
    let t = take-append 8 (to_be_bytes 8 c.created) c.id k in
    let d = drop-append 8 (to_be_bytes 8 c.created) c.id k in
    let n = ap (from_be_bytes 0) t ∙ from_be_bytes-to_be_bytes 8 c.created h in
    λ i. ok (record { created = n i; id = d i })

read_wire-signed :
    (crypto : Crypto) (key : crypto.Key) (scope : Bytes) (filter : MemoryFilter)
    (wire at mac : Bytes)
    → (length wire == position_bytes + mac_bytes) ≡ true
    → take position_bytes wire ≡ at
    → drop position_bytes wire ≡ mac
    → crypto.verify key (material crypto at scope filter) mac ≡ true
    → read_wire crypto key scope filter (some wire) ≡ read_position crypto at
read_wire-signed crypto key scope filter wire at mac l t d v = rw (l, t, d, v) refl

-- Under the documented behaviour of the MAC and of base64url, a cursor with a time of 64 bits and an
-- id of 16 bytes that is written under a key, a scope and a filter is read back under the same three
-- as the same cursor.
pub decode-encode :
    (crypto : Crypto) (c : Cursor) (key : crypto.Key) (scope : Bytes) (filter : MemoryFilter)
    → IsCrypto crypto
    → c.created < 18446744073709551616
    → length c.id ≡ 16
    → decode crypto (encode crypto c key scope filter) key scope filter ≡ ok c
unfolding decode encode sign_position
decode-encode crypto c key scope filter law h l =
    let mac = crypto.sign key (material crypto (position c) scope filter) in
    let len = length-position c l in
    let maclen = law.mac_length key (material crypto (position c) scope filter) in
    let whole = length-append (position c) mac in
    let wire_length : (length (position c ++ mac) == position_bytes + mac_bytes) ≡ true =
      ground arith in
    let t = take-append position_bytes (position c) mac len in
    let d = drop-append position_bytes (position c) mac len in
    ap (read_wire crypto key scope filter) (law.reads (position c ++ mac))
    ∙ read_wire-signed crypto key scope filter (position c ++ mac) (position c) mac wire_length t d
        (law.verifies key (material crypto (position c) scope filter))
    ∙ read_position-position crypto c h l
