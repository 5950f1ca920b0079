-- ===== src/Claims/Registry.antt =====
-- crates/aicortex-claims/src/registry.rs: the registered vocabularies. The map from a namespace and a
-- version is the list of its documents, each under the namespace and version that it carries.
use aicortex.Prelude.{
  ℕ, ◌≡◌, Bool, true, false, not, ◌&&◌, ◌||◌, Option, none, some, List, [], ◌∷◌, any, all, ltb,
  ◌==◌, if◌then◌else◌, Result, ok, err, ◌>>=◌, ◌>>◌,
}
use aicortex.Prelude.Equal.{same, has, keeps}
use aicortex.Prelude.Strings.{string_discrete, compare_string}
use aicortex.Prelude.Order.{then_with, is_gt}
use Prim.Native.Nat.{Ordering, compare}
use native.Mathlib.Decide.{ℕ_discrete}
use Prim.Native.String.{String}
use package.text.Mathlib.Text.{◌==◌ as str_eq}
use aicortex.Types.Claim.{PredicateRef}
use aicortex.Types.Predicate.{
  ValueType, ValueKind-discrete, Measure-discrete, Cardinality-discrete, PredicateDef, PredicateSet,
  find_predicate, predicate,
}
pub mod Keeps
pub mod Latest
pub mod Invariant
pub mod Immutable

pub data Admission : Type 0 where
  new unchanged : Admission

pub data Change : Type 0 where
  value_type cardinality predicate_removed subject_kind_removed : Change

pub data RegistryError : Type 0 where
  reserved_namespace : RegistryError
  conflicting_version : ℕ → RegistryError
  not_after_latest : ℕ → ℕ → RegistryError
  incompatible : String → Change → RegistryError

abbrev pub reserved : String
reserved = "aicortex"

unfoldable pub PredicateSet-discrete : Discrete PredicateSet
PredicateSet-discrete = hlevel (ℕ_discrete, string_discrete)

abbrev pub Snapshot : Type 0
Snapshot = List PredicateSet

-- `sets.get(&(namespace, version))`.
unfoldable pub set_at : Snapshot → String → ℕ → Option PredicateSet
set_at [] namespace version = none
set_at (s ∷ sets) namespace version =
    if str_eq s.namespace namespace && s.version == version
    then some s
    else set_at sets namespace version

-- Of two documents the one of the higher version, as `range(…).next_back()` finds it.
abbrev pub higher : PredicateSet → Option PredicateSet → PredicateSet
higher s none = s
higher s (some t) = if ltb s.version t.version then t else s

unfoldable pub latest : Snapshot → String → Option PredicateSet
latest [] namespace = none
latest (s ∷ sets) namespace =
    let rest = latest sets namespace in
    if str_eq s.namespace namespace then some (higher s rest) else rest

-- `earlier.subject_kinds()` that `later` does not have: the first.
unfoldable pub removed_kind : List String → List String → Option String
removed_kind [] later = none
removed_kind (kind ∷ kinds) later =
    if has string_discrete later kind then removed_kind kinds later else some kind

unfoldable pub same_type : ValueType → ValueType → Bool
same_type was is =
    same ValueKind-discrete was.kind is.kind
    && keeps Measure-discrete was.units is.units
    && keeps string_discrete was.variants is.variants

-- What `later` changes of one predicate.
unfoldable pub changed : PredicateDef → Option PredicateDef → Option Change
unfolding same_type
changed old none = some Change.predicate_removed
changed old (some is) =
    if not (same Cardinality-discrete is.cardinality old.cardinality)
    then some Change.cardinality
    else if not (same_type old.value is.value)
    then some Change.value_type
    else none

unfoldable pub changed_predicate :
    List PredicateDef → PredicateSet → Result RegistryError (Unit {0})
unfolding changed
changed_predicate [] later = ok tt
changed_predicate (old ∷ olds) later =
    let rest = changed_predicate olds later in
    elim (changed old (predicate later old.name)) [
      | some change ↦ err (incompatible old.name change)
      | none ↦ rest
    ]

unfoldable pub successor : PredicateSet → PredicateSet → Result RegistryError (Unit {0})
unfolding removed_kind changed_predicate
successor earlier later = elim (removed_kind earlier.subject_kinds later.subject_kinds) [
  | some kind ↦ err (incompatible kind Change.subject_kind_removed)
  | none ↦ changed_predicate earlier.predicates later
]

abbrev pub follows : Option PredicateSet → PredicateSet → Result RegistryError Admission
follows none set = ok new
follows (some l) set =
    if ltb set.version l.version
    then err (not_after_latest set.version l.version)
    else (successor l set >> ok new)

unfoldable pub check : Snapshot → PredicateSet → Result RegistryError Admission
unfolding set_at latest PredicateSet-discrete
check sets set =
    if str_eq set.namespace reserved
    then err reserved_namespace
    else elim (set_at sets set.namespace set.version) [
      | some existing ↦
          if same PredicateSet-discrete existing set
          then ok unchanged
          else err (conflicting_version set.version)
      | none ↦ follows (latest sets set.namespace) set
    ]

abbrev pub insert_if_new : Snapshot → PredicateSet → Admission → Snapshot
insert_if_new sets set new = set ∷ sets
insert_if_new sets set unchanged = sets

-- The snapshot after, and what was done.
unfoldable pub admit : Snapshot → PredicateSet → Result RegistryError (Snapshot × Admission)
unfolding check
admit sets set = do admission ← check sets set; ok (insert_if_new sets set admission, admission)

abbrev pub predicate_in : Option PredicateSet → String → Option PredicateDef
predicate_in none name = none
predicate_in (some set) name = predicate set name

-- `RegistrySnapshot::predicate`.
unfoldable pub find : Snapshot → PredicateRef → Option PredicateDef
unfolding set_at predicate
find sets ref = predicate_in (set_at sets ref.namespace ref.version) ref.name

-- The order in which `from_sets` admits: by namespace, then by version, which is a stable sort.
abbrev pub compare_sets : PredicateSet → PredicateSet → Ordering
compare_sets a b = then_with (compare_string a.namespace b.namespace) (compare a.version b.version)

unfoldable pub insert_ordered : PredicateSet → List PredicateSet → List PredicateSet
insert_ordered s [] = s ∷ []
insert_ordered s (t ∷ ts) =
    let rest = insert_ordered s ts in if is_gt (compare_sets s t) then t ∷ rest else s ∷ t ∷ ts

unfoldable pub order_sets : List PredicateSet → List PredicateSet
unfolding insert_ordered
order_sets [] = []
order_sets (s ∷ sets) = insert_ordered s (order_sets sets)

unfoldable pub admit_all : Snapshot → List PredicateSet → Result RegistryError Snapshot
unfolding admit
admit_all sets [] = ok sets
admit_all sets (d ∷ documents) = admit sets d >>= λ admitted. admit_all admitted.0 documents

unfoldable pub from_sets : List PredicateSet → Result RegistryError Snapshot
unfolding admit_all order_sets
from_sets documents = admit_all [] (order_sets documents)
