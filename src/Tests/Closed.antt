-- ===== src/Tests/Closed.antt =====
-- One closed gate that behaves as documented, for the examples of crates/aicortex-gate.
use aicortex.Prelude.{
  ◌≡◌, refl, ap, ◌∙◌, true, false, List, [], ◌∷◌, ◌++◌, inl, inr, all, any, In, if◌then◌else◌,
  Bool-cases, arith,
}
use Prim.Native.String.{String}
use aicortex.Gate.Walk.{Outcome, allow, degrade, deny, Decision, ClosedGate}
use aicortex.Gate.Walk.Run.{first_id}
use aicortex.Gate.Walk.Laws.{all_registered, is_denial, is_degrade, is_allow, IsClosed}

abbrev Checks : Type 0
Checks = List (String × Decision)

abbrev plain : Outcome → String → List String → Decision
plain o reason ids = record { outcome = o; reason = reason; check_ids = ids; blocking = false }

abbrev allow_or_degrade : Checks → Decision
allow_or_degrade [] = plain allow "allowed" []
allow_or_degrade (c ∷ cs) =
    if is_degrade c.1 then plain degrade "degraded" (c.0 ∷ []) else allow_or_degrade cs

abbrev first_denial : Checks → Decision → Decision
first_denial [] otherwise = otherwise
first_denial (c ∷ cs) otherwise = if is_denial c.1 then c.1 else first_denial cs otherwise

abbrev pub closed_gate : ClosedGate
closed_gate = record {
  run = λ required checks.
      if all_registered required checks
      then first_denial checks (allow_or_degrade checks)
      else plain deny "unregistered" [];
  required_unregistered = "unregistered";
  required_undecided = "undecided";
  no_check_decided = "no check";
}

denial_at :
    (before after : Checks) (id : String) (d o : Decision)
    → any (λ c. is_denial c.1) before ≡ false
    → d.outcome ≡ deny
    → first_denial (before ++ (id, d) ∷ after) o ≡ d
denial_at [] after id d o h e = rw e refl
denial_at (c ∷ before) after id d o h e = ground (arith, denial_at before after id d o)

no_denial :
    (cs : Checks) (o : Decision) → any (λ c. is_denial c.1) cs ≡ false → first_denial cs o ≡ o
no_denial [] o h = refl
no_denial (c ∷ cs) o h = ground (arith, no_denial cs o)

degrades :
    (cs : Checks)
    → any (λ c. is_degrade c.1) cs ≡ true
    → (c : String × Decision) × In c cs
      × (is_degrade c.1 ≡ true)
      × (allow_or_degrade cs ≡ plain degrade "degraded" (c.0 ∷ []))
degrades [] h = cc
degrades (c ∷ cs) h = elim (Bool-cases (is_degrade c.1)) [
  | inl e ↦ (c, inl refl, e, rw (e, allow_or_degrade) refl)
  | inr e ↦ let (d, i, k, q) = degrades cs (rw e at h) in (d, inr i, k, rw (e, allow_or_degrade) q)
]

allows :
    (cs : Checks)
    → all (λ c. is_allow c.1) cs ≡ true
    → (any (λ c. is_denial c.1) cs ≡ false) × (allow_or_degrade cs ≡ plain allow "allowed" [])
allows [] h = (refl, refl)
allows (c ∷ cs) h = ground (arith, allows cs)

pub closed_gate-IsClosed : IsClosed closed_gate
closed_gate-IsClosed = record {
  ends = λ required before after id d reg none_before out blocks.
      rw reg (denial_at before after id d _ none_before out);
  outranks = λ required checks reg none_denies some_degrades.
      let (c, i, k, q) = degrades checks some_degrades in
      let run : closed_gate.run required checks ≡ plain degrade "degraded" (c.0 ∷ []) =
        rw reg (no_denial checks (allow_or_degrade checks) none_denies ∙ q) in
      (
        c,
        i,
        k,
        ap (λ (d : Decision). d.outcome) run,
        ap (λ (d : Decision). first_id d.check_ids) run,
      );
  affirms = λ required checks reg fine ne.
      let (n, q) = allows checks fine in
      let run : closed_gate.run required checks ≡ plain allow "allowed" [] =
        rw reg (no_denial checks (allow_or_degrade checks) n ∙ q) in
      ap (λ (d : Decision). d.outcome) run;
}
