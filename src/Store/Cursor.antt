-- ===== src/Store/Cursor.antt =====
-- crates/aicortex-store/src/cursor.rs, the filter of .../memory_repo.rs and `hex_digest` of .../lib.rs: the signed cursor of a listing. The
-- MAC, base64url and SHA-256 belong to other crates and are the parameter
-- `Crypto`. A byte is a number below 256, a string is its bytes, and an id is its 16 bytes.
use aicortex.Prelude.{
  ℕ, zero, suc, ◌+◌, ◌*◌, ◌/◌, ◌%◌, ◌-◌, ltb, Bool, true, false, not, Option, none, some, List, [],
  ◌∷◌, ◌++◌, length, ◌==◌, if◌then◌else◌, Result, ok, err,
}
use aicortex.Types.Memory.{
  MemoryKind, observation, fact, preference, decision, task, reference, person_note, correction,
  Status,
}
use aicortex.Text.Chars.{chars}
pub mod Wire
pub mod Binding

abbrev pub Bytes : Type 0
Bytes = List ℕ

pub data StatusFilter : Type 0 where
  active quarantined superseded expired erased : StatusFilter

unfoldable pub status_label : StatusFilter → Bytes
unfolding chars
status_label active = chars "active"
status_label quarantined = chars "quarantined"
status_label superseded = chars "superseded"
status_label expired = chars "expired"
status_label erased = chars "erased"

unfoldable pub filter_of : Status → StatusFilter
filter_of Status.active = active
filter_of Status.quarantined = quarantined
filter_of (Status.superseded by) = superseded
filter_of Status.expired = expired
filter_of Status.erased = erased

unfoldable pub kind_label : MemoryKind → Bytes
unfolding chars
kind_label observation = chars "observation"
kind_label fact = chars "fact"
kind_label preference = chars "preference"
kind_label decision = chars "decision"
kind_label task = chars "task"
kind_label reference = chars "reference"
kind_label person_note = chars "person_note"
kind_label correction = chars "correction"

pub record MemoryFilter : Type 0 where
  pub status : Option StatusFilter
  pub kind : Option MemoryKind

unfoldable pub all_memories : MemoryFilter
all_memories = record { status = none; kind = none }

unfoldable pub active_memories : MemoryFilter
active_memories = record { status = some active; kind = none }

unfoldable pub of_kind : MemoryFilter → MemoryKind → MemoryFilter
of_kind f kind = record f { kind = some kind }

abbrev pub label_or : {A : Type 0} → (A → Bytes) → Option A → Bytes
label_or label none = b'*' ∷ []
label_or label (some a) = label a

-- The text that a filter's digest is taken of, with the separator 0x1f.
unfoldable pub filter_text : MemoryFilter → Bytes
unfolding chars status_label kind_label
filter_text f =
    chars "status="
    ++ label_or status_label f.status
    ++ 0x1f ∷ chars "kind="
    ++ label_or kind_label f.kind

pub record Crypto : Type 1 where
  pub Key : Type 0
  pub sign : Key → Bytes → Bytes
  pub verify : Key → Bytes → Bytes → Bool
  pub base64 : Bytes → Bytes
  pub from_base64 : Bytes → Option Bytes
  pub sha256 : Bytes → Bytes

pub record Cursor : Type 0 where
  pub created : ℕ
  pub id : Bytes

pub data CursorError : Type 0 where
  not_base64url wrong_length not_signed unknown_version : CursorError

abbrev pub cursor_version : ℕ
cursor_version = 1

abbrev pub position_bytes : ℕ
position_bytes = 25

abbrev pub mac_bytes : ℕ
mac_bytes = 32

-- `to_be_bytes`, of a given width, and `from_be_bytes`.
unfoldable pub to_be_bytes : ℕ → ℕ → Bytes
to_be_bytes zero n = []
to_be_bytes (suc width) n = to_be_bytes width (n / 256) ++ (n % 256) ∷ []

unfoldable pub from_be_bytes : ℕ → Bytes → ℕ
from_be_bytes high [] = high
from_be_bytes high (b ∷ bs) = from_be_bytes (high * 256 + b) bs

-- `{:02x}` of a byte, over a digest.
abbrev pub hex_char : ℕ → ℕ
hex_char n = if ltb n 10 then b'0' + n else b'a' + (n - 10)

unfoldable pub hex : Bytes → Bytes
hex [] = []
hex (b ∷ bs) = hex_char (b / 16) ∷ hex_char (b % 16) ∷ hex bs

-- `split_at`.
unfoldable pub take : ℕ → Bytes → Bytes
take zero bs = []
take (suc n) [] = []
take (suc n) (b ∷ bs) = b ∷ take n bs

unfoldable pub drop : ℕ → Bytes → Bytes
drop zero bs = bs
drop (suc n) [] = []
drop (suc n) (b ∷ bs) = drop n bs

unfoldable pub position : Cursor → Bytes
unfolding to_be_bytes
position c = cursor_version ∷ to_be_bytes 8 c.created ++ c.id

unfoldable pub domain : Bytes
unfolding chars
domain = chars "aicortex:012:keyset-cursor:v1"

module _ (crypto : Crypto) where
  unfoldable pub hex_digest : Bytes → Bytes
  unfolding hex
  hex_digest material = hex (crypto.sha256 material)

  unfoldable pub digest : MemoryFilter → Bytes
  unfolding filter_text hex_digest
  digest f = hex_digest (filter_text f)

  -- Everything that the MAC covers.
  unfoldable pub material : Bytes → Bytes → MemoryFilter → Bytes
  unfolding digest domain
  material at scope filter = domain ++ at ++ scope ++ digest filter

  unfoldable pub sign_position : crypto.Key → Bytes → Bytes → MemoryFilter → Bytes
  unfolding material
  sign_position key at scope filter = crypto.sign key (material at scope filter)

  unfoldable pub encode : Cursor → crypto.Key → Bytes → MemoryFilter → Bytes
  unfolding position sign_position
  encode c key scope filter =
      crypto.base64 (position c ++ sign_position key (position c) scope filter)

  abbrev pub read_position : Bytes → Result CursorError Cursor
  read_position [] = err wrong_length
  read_position (version ∷ rest) =
      if not (version == cursor_version)
      then err unknown_version
      else ok (record { created = from_be_bytes 0 (take 8 rest); id = drop 8 rest })

  abbrev pub read_wire :
      crypto.Key → Bytes → MemoryFilter → Option Bytes → Result CursorError Cursor
  read_wire key scope filter none = err not_base64url
  read_wire key scope filter (some wire) =
      if not (length wire == position_bytes + mac_bytes)
      then err wrong_length
      else if not (
          crypto.verify key (material (take position_bytes wire) scope filter)
            (drop position_bytes wire))
      then err not_signed
      else read_position (take position_bytes wire)

  unfoldable pub decode : Bytes → crypto.Key → Bytes → MemoryFilter → Result CursorError Cursor
  unfolding material take drop from_be_bytes
  decode text key scope filter = read_wire key scope filter (crypto.from_base64 text)
