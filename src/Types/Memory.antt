-- ===== src/Types/Memory.antt =====
-- crates/aicortex-types/src/{memory,trust,actor,scope,provenance,span}.rs: the memory record.
-- An identifier (a UUID) is a number; a key or a label that is only compared is a `String`; the
-- body's text and the media types, which the gate reads, are lists of code points.
use aicortex.Prelude.{
  ℕ, ◌+◌, Bool, true, false, not, ◌||◌, Option, none, some, List, [], ltb, leb, ◌==◌, if◌then◌else◌,
  Result, ok, err,
}
use Prim.Native.String.{String}
use aicortex.Text.{Text}
use aicortex.Types.Error.{TypeError, invalid}

pub data MemoryKind : Type 0 where
  observation fact preference decision task reference person_note correction : MemoryKind

pub data Status : Type 0 where
  active quarantined : Status
  superseded : ℕ → Status
  expired erased : Status

unfoldable pub is_retrievable : Status → Bool
is_retrievable active = true
is_retrievable _ = false

unfoldable pub superseded_by : Status → Option ℕ
superseded_by (superseded id) = some id
superseded_by _ = none

pub record MediaRef : Type 0 where
  pub digest : String
  pub media_type : Text
  pub bytes : Option ℕ

pub record MemoryBody : Type 0 where
  pub text : Text
  pub title : Option Text
  pub media : List MediaRef

-- `base` is the `f32` by its 32 bits, which keep the order of the non-negative floats.
pub record Importance : Type 0 where
  pub base : ℕ
  pub last_used : ℕ
  pub uses : ℕ

-- 0.0 to 1.0, both ends included: the bit patterns up to that of 1.0, and that of -0.0.
unfoldable pub in_unit_range : ℕ → Bool
in_unit_range base = leb base 0x3f800000 || base == 0x80000000

unfoldable pub new_importance : ℕ → ℕ → ℕ → Result TypeError Importance
unfolding in_unit_range
new_importance base last_used uses =
    if not (in_unit_range base)
    then err (invalid "importance.base")
    else ok (record { base = base; last_used = last_used; uses = uses })

abbrev pub u32_max : ℕ
u32_max = 0xffffffff

-- `u32::saturating_add(1)`.
unfoldable pub used_at : Importance → ℕ → Importance
used_at i now = record i {
  last_used = now;
  uses = if ltb i.uses u32_max then i.uses + 1 else u32_max;
}

pub record AgentOrigin : Type 0 where
  pub client : Option String
  pub model : Option String

pub data ActorKind : Type 0 where
  human : ActorKind
  agent : AgentOrigin → ActorKind
  system import : ActorKind

pub record Actor : Type 0 where
  pub kind : ActorKind
  pub id : String
  pub label : Option String

unfoldable pub is_human : ActorKind → Bool
is_human human = true
is_human _ = false

pub data ScopeKind : Type 0 where
  personal : ScopeKind
  project : String → ScopeKind
  shared : String → ScopeKind

pub record Scope : Type 0 where
  pub owner : String
  pub kind : ScopeKind

pub data PartLocator : Type 0 where
  body : PartLocator
  mime : String → PartLocator
  attachment : String → PartLocator

pub data SpanUnit : Type 0 where
  bytes chars : SpanUnit

pub record SpanRange : Type 0 where
  pub unit : SpanUnit
  pub start : ℕ
  pub end : ℕ

-- A range is never empty.
unfoldable pub new_range : SpanUnit → ℕ → ℕ → Result TypeError SpanRange
new_range unit start end =
    if leb end start
    then err (invalid "range")
    else ok (record { unit = unit; start = start; end = end })

pub record ContentDigest : Type 0 where
  pub algorithm : String
  pub key_id : String
  pub digest : String

pub record SourceSpan : Type 0 where
  pub source : ℕ
  pub part : PartLocator
  pub range : SpanRange
  pub digest : ContentDigest

pub record SourceRef : Type 0 where
  pub system : String
  pub external_id : Option String
  pub locator : Option String

pub record ExtractorVersion : Type 0 where
  pub name : String
  pub version : String

pub record AdmissionOverride : Type 0 where
  pub reason_code : String
  pub by : String
  pub decision : String

pub record Provenance : Type 0 where
  pub source : SourceRef
  pub captured_at : ℕ
  pub ingested_at : ℕ
  pub derived_from : List ℕ
  pub extractor : Option ExtractorVersion
  pub admission : Option AdmissionOverride
  pub spans : List SourceSpan

unfoldable pub captured : SourceRef → ℕ → ℕ → Provenance
captured source captured_at ingested_at = record {
  source = source;
  captured_at = captured_at;
  ingested_at = ingested_at;
  derived_from = [];
  extractor = none;
  admission = none;
  spans = [];
}

unfoldable pub overridden : Provenance → AdmissionOverride → Provenance
overridden p admission = record p { admission = some admission }

pub record Promotion : Type 0 where
  pub by : String
  pub decision : String

pub data TrustClass : Type 0 where
  evidence assertion : TrustClass
  instruction : Promotion → TrustClass

unfoldable pub is_actionable : TrustClass → Bool
is_actionable (instruction p) = true
is_actionable _ = false

pub record MemoryParts : Type 0 where
  pub id : ℕ
  pub scope : Scope
  pub kind : MemoryKind
  pub body : MemoryBody
  pub actor : Actor
  pub provenance : Provenance
  pub trust : TrustClass
  pub importance : Importance
  pub created : ℕ

pub record Memory : Type 0 where
  pub id : ℕ
  pub scope : Scope
  pub kind : MemoryKind
  pub body : MemoryBody
  pub actor : Actor
  pub provenance : Provenance
  pub trust : TrustClass
  pub status : Status
  pub importance : Importance
  pub schema_version : ℕ
  pub created : ℕ
  pub updated : ℕ

abbrev pub memory_schema_version : ℕ
memory_schema_version = 1

unfoldable pub new_memory : MemoryParts → Memory
new_memory parts = record {
  id = parts.id;
  scope = parts.scope;
  kind = parts.kind;
  body = parts.body;
  actor = parts.actor;
  provenance = parts.provenance;
  trust = parts.trust;
  status = active;
  importance = parts.importance;
  schema_version = memory_schema_version;
  created = parts.created;
  updated = parts.created;
}
