-- ===== src/Types/Error.antt =====
-- crates/aicortex-types/src/error.rs: a refused value names its field. The sentences of the
-- refusals are left out: they are text for a reader, and no code branches on them.
use aicortex.Prelude.{
  ℕ, ◌≤◌, ◌≡◌, Bool, false, not, ◌&&◌, ◌||◌, arith, ltb, leb, any, if◌then◌else◌, Result, ok, err,
}
use Prim.Native.String.{String}
use aicortex.Text.{Text, byte_len, text_eq, text_eq_sound}
use aicortex.Text.Trim.{is_empty, trim}

pub data TypeError : Type 0 where
  unknown_variant : String → TypeError
  missing_field : String → TypeError
  invalid : String → TypeError

abbrev pub max_key_len : ℕ
max_key_len = 128

-- `char::is_control`: the Unicode category Cc.
unfoldable pub is_control : ℕ → Bool
is_control c = ltb c 0x20 || (leb 0x7f c && leb c 0x9f)

unfoldable pub validate_key : String → Text → Result TypeError (Unit {0})
validate_key field value =
    if is_empty value
    then err (invalid field)
    else if ltb max_key_len (byte_len value)
    then err (invalid field)
    else if not (text_eq (trim value) value)
    then err (invalid field)
    else if any is_control value
    then err (invalid field)
    else ok tt

-- A key that passes is not empty, fits the ceiling, is its own trimming, and holds no control
-- character.
pub record IsKey (value : Text) : Type 0 where
  pub not_empty : is_empty value ≡ false
  pub fits : byte_len value ≤ max_key_len
  pub unpadded : trim value ≡ value
  pub printable : any is_control value ≡ false

pub validate_key-IsKey :
    (field : String) (value : Text) → validate_key field value ≡ ok tt → IsKey value
unfolding validate_key
validate_key-IsKey field value h = record {
  not_empty = ground arith;
  fits = ground arith;
  unpadded = text_eq_sound (trim value) value (ground arith);
  printable = ground arith;
}
