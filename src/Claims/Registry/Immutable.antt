-- ===== src/Claims/Registry/Immutable.antt =====
-- What registering does to the documents of crates/aicortex-claims/src/registry.rs that are there.
use mathlib.Core.Path.{subst}
use aicortex.Prelude.{
  ℕ, ◌≡◌, refl, sym, ap, ◌∙◌, Bool, true, false, ◌&&◌, inl, inr, Option, none, some, arith, ltb,
  ◌==◌, if◌then◌else◌, Bool-cases, Option-cases, Result, ok, err, ◌>>◌, >>=-eq-ok, ok-injective,
}
use aicortex.Prelude.Equal.{same, same-eq}
use Prim.Native.String.{String}
use package.text.Mathlib.Text.{◌==◌ as str_eq}
use text.Mathlib.TextEquality.{eq_iff}
use aicortex.Types.Predicate.{PredicateSet}
use aicortex.Claims.Registry.Invariant.{check-Fresh}
use aicortex.Claims.Registry.{
  Admission, RegistryError, Snapshot, PredicateSet-discrete, reserved, set_at, check, insert_if_new,
  admit, follows, latest, successor,
}

-- The key of the document is this namespace and version.
abbrev pub is_keyed : PredicateSet → String → ℕ → Bool
is_keyed s namespace version = str_eq s.namespace namespace && s.version == version

check-unchanged :
    (sets : Snapshot) (set : PredicateSet)
    → check sets set ≡ ok Admission.unchanged
    → set_at sets set.namespace set.version ≡ some set
unfolding check
check-unchanged sets set h = elim (Bool-cases (str_eq set.namespace reserved)) [
  | inl b ↦ let h' = rw (b, check) at h in cc
  | inr b ↦ elim (Option-cases (set_at sets set.namespace set.version)) [
    | inl e ↦ absurd (not_unchanged (latest sets set.namespace) (rw (b, check, e) at h))
    | inr (t, e) ↦ elim (Bool-cases (same PredicateSet-discrete t set)) [
      | inl u ↦ e ∙ ap some (same-eq PredicateSet-discrete t set u)
      | inr u ↦ let h' = rw (b, check, e, u) at h in cc
    ]
  ]
]
  where
    is_new :
        (r : Result RegistryError (Unit {0})) → (r >> ok Admission.new) ≡ ok Admission.unchanged → ⊥
    is_new (ok u) g = cc
    is_new (err x) g = cc

    not_unchanged : (o : Option PredicateSet) → follows o set ≡ ok Admission.unchanged → ⊥
    not_unchanged none g = cc
    not_unchanged (some l) g = elim (Bool-cases (ltb set.version l.version)) [
      | inl b ↦ let g' = rw b at g in cc
      | inr b ↦ is_new (successor l set) (rw b at g)
    ]

-- Registering sets the document's own namespace and version, and nothing else.
set_at-admit :
    (sets : Snapshot) (set : PredicateSet) (out : Snapshot × Admission) (namespace : String)
    (version : ℕ)
    → admit sets set ≡ ok out
    → set_at out.0 namespace version
      ≡ (if is_keyed set namespace version then some set else set_at sets namespace version)
unfolding admit
set_at-admit sets set out ns v h =
    let (a, e, f) = >>=-eq-ok (check sets set) _ h in
    subst
      (λ (o : Snapshot × Admission).
        set_at o.0 ns v ≡ (if is_keyed set ns v then some set else set_at sets ns v))
      (ok-injective f) (after a e)
  where
    after :
        (a : Admission)
        → check sets set ≡ ok a
        → set_at (insert_if_new sets set a) ns v
          ≡ (if is_keyed set ns v then some set else set_at sets ns v)
    after Admission.new e = unfold set_at in refl
    after Admission.unchanged e = elim (Bool-cases (is_keyed set ns v)) [
      | inr b ↦ rw b refl
      | inl b ↦
          let p : set.namespace ≡ ns = (eq_iff set.namespace ns).0 (ground arith) in
          let q : set.version ≡ v = ground arith in
          rw b (
            subst (λ n. set_at sets n v ≡ some set) p
              (subst (λ n. set_at sets set.namespace n ≡ some set) q (check-unchanged sets set e)))
    ]

-- What a key names after a document is registered: what it named before, else the document if the
-- key is its own.
abbrev pub named_after : Option PredicateSet → Bool → PredicateSet → Option PredicateSet
named_after (some old) own set = some old
named_after none true set = some set
named_after none false set = none

-- Where registering a document is accepted, every namespace and version that named a document
-- before still names that same one, so that nothing registered is ever overwritten; of the others
-- the document's own then names it, and the rest name none.
pub admit-set_at :
    (sets : Snapshot) (set : PredicateSet) (out : Snapshot × Admission) (namespace : String)
    (version : ℕ)
    → admit sets set ≡ ok out
    → set_at out.0 namespace version
      ≡ named_after (set_at sets namespace version) (is_keyed set namespace version) set
unfolding admit
admit-set_at sets set out ns v h =
    let (a, e, f) = >>=-eq-ok (check sets set) _ h in
    set_at-admit sets set out ns v h ∙ after a e (set_at sets ns v) refl
  where
    -- The document that is registered under its key is the one that was there.
    same_one :
        (a : Admission)
        → check sets set ≡ ok a
        → (old : PredicateSet) → set_at sets set.namespace set.version ≡ some old
        → some set ≡ some old
    same_one Admission.new e old i = let n = (check-Fresh sets set e).not_there in cc
    same_one Admission.unchanged e old i = sym (check-unchanged sets set e) ∙ i

    after :
        (a : Admission)
        → check sets set ≡ ok a
        → (o : Option PredicateSet) → set_at sets ns v ≡ o
        → (if is_keyed set ns v then some set else set_at sets ns v)
          ≡ named_after o (is_keyed set ns v) set
    after a e o i = elim (Bool-cases (is_keyed set ns v)) [
      | inr b ↦ rw b (unkeyed o i)
      | inl b ↦
          let p : set.namespace ≡ ns = (eq_iff set.namespace ns).0 (ground arith) in
          let q : set.version ≡ v = ground arith in rw b (keyed o (rw (p, q) i))
    ]
      where
        unkeyed :
            (o : Option PredicateSet)
            → set_at sets ns v ≡ o
            → set_at sets ns v ≡ named_after o false set
        unkeyed none i = i
        unkeyed (some old) i = i

        keyed :
            (o : Option PredicateSet)
            → set_at sets set.namespace set.version ≡ o
            → some set ≡ named_after o true set
        keyed none i = refl
        keyed (some old) i = same_one a e old i
