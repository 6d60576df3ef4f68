-- ===== src/Evidence/Validator/Exact.antt =====
-- validateEvidence of evidence/validator.ts: what it asks for.
use evolve_loop.Base.{
  some_injective, ℕ, ◌≤◌, ◌≡◌, refl, ◌↔◌, ◌≢◌, inl, inr, Bool, true, false, not, Option, none, some,
  get_or, List, [], ◌==◌, any-false, find-none, string_cases, arith, Memᴰ, string_eq,
}
use evolve_loop.Types.{
  DoDCheck, Evidence, EvidenceCheck, GraphNode, Verdict, complete, rejected, critical,
  evidence_status_eq, EvidenceFinding, check_result_eq, severity_eq, verdict_eq,
}
use evolve_loop.Evidence.Validator.{
  dod_passes, first_failed, has_critical_gaps, judge_verdict, validate_present, validate_evidence,
}

-- The evidence that a node needs to be satisfied.
pub record Suffices (e : Evidence) (dods : List DoDCheck) (node : GraphNode) (min_confidence : ℕ)
    : Type 0 where
  pub complete_status : e.spec.status ≡ complete
  pub confident : min_confidence ≤ get_or e.spec.confidence 0
  pub no_critical_gap :
      (g : EvidenceFinding) → Memᴰ g (get_or e.spec.known_gaps []) → g.severity ≢ critical
  pub done : (dod : DoDCheck) → Memᴰ dod dods → dod_passes e.spec.checks dod ≡ true
  pub verdict : node.type ≡ "gate" → (v : Verdict) × (e.spec.verdict ≡ some v) × (v ≢ rejected)

critical_gaps :
    (e : Evidence)
    → (has_critical_gaps e ≡ false)
      ↔ ((g : EvidenceFinding) → Memᴰ g (get_or e.spec.known_gaps []) → g.severity ≢ critical)
critical_gaps e =
    let gaps = get_or e.spec.known_gaps [] in
    let (forth, back) = any-false (λ (g : EvidenceFinding). g.severity == critical) gaps in
    (
      λ h g m. let no_hit = forth h g m in λ same. ground arith,
      λ h. back (λ g m. let differs = h g m in ground arith),
    )

not-true : (b : Bool) → (not b ≡ false) ↔ (b ≡ true)
not-true b = ground arith

all_done :
    (checks : List EvidenceCheck) (dods : List DoDCheck)
    → (first_failed checks dods ≡ none)
      ↔ ((dod : DoDCheck) → Memᴰ dod dods → dod_passes checks dod ≡ true)
all_done checks dods =
    let (forth, back) = find-none (λ dod. not (dod_passes checks dod)) dods in
    (
      λ h dod m. (not-true (dod_passes checks dod)).0 (forth h dod m),
      λ h. back (λ dod m. (not-true (dod_passes checks dod)).1 (h dod m)),
    )

judge_verdict-valid :
    (o : Option Verdict)
    → ((judge_verdict o).valid ≡ true) ↔ ((v : Verdict) × (o ≡ some v) × (v ≢ rejected))
judge_verdict-valid none = (λ h. cc, λ (v, e, n). cc)
judge_verdict-valid (some v) = (λ h. (v, refl, λ e. ground arith), λ (w, e, n). ground arith)

module _ (e : Evidence) (dods : List DoDCheck) (node : GraphNode) (min_confidence : ℕ) where
  Suffices-of_valid :
      (validate_present e dods node min_confidence).valid ≡ true
      → Suffices e dods node min_confidence
  unfolding validate_present
  Suffices-of_valid h = record {
    complete_status = ground arith;
    confident = ground arith;
    no_critical_gap = (critical_gaps e).0 (ground arith);
    done = (all_done e.spec.checks dods).0 (ground arith);
    verdict = λ gate. (judge_verdict-valid e.spec.verdict).0 (ground arith);
  }

  valid-of_Suffices :
      Suffices e dods node min_confidence
      → (validate_present e dods node min_confidence).valid ≡ true
  unfolding validate_present
  valid-of_Suffices s =
      let gaps = (critical_gaps e).1 s.no_critical_gap in
      let done = (all_done e.spec.checks dods).1 s.done in
      elim (string_cases node.type "gate") [
        | inl gate ↦
            let ok = (judge_verdict-valid e.spec.verdict).1 (s.verdict gate) in
            rw (gaps, done) (ground (arith, s.complete_status, s.confident))
        | inr other ↦ rw (gaps, done) (ground (arith, s.complete_status, s.confident))
      ]

-- validateEvidence accepts exactly when there is evidence, its status is complete, its confidence is
-- at least the policy's minimum, no declared gap is critical, for each item of the definition of done
-- the first check that names it passed, and, for a gate, there is a verdict other than rejected.
pub validate_evidence_exact :
    (evidence : Option Evidence) (dods : List DoDCheck) (node : GraphNode) (min_confidence : ℕ)
    → ((validate_evidence evidence dods node min_confidence).valid ≡ true)
      ↔ ((e : Evidence) × (evidence ≡ some e) × Suffices e dods node min_confidence)
unfolding validate_evidence
validate_evidence_exact none dods node m = (λ h. cc, λ (e, same, s). cc)
validate_evidence_exact (some e) dods node m = (
  λ h. (e, refl, Suffices-of_valid e dods node m h),
  λ (e', same, s). valid-of_Suffices e dods node m (rw (← (some_injective same)) at s),
)
