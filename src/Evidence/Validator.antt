-- ===== src/Evidence/Validator.antt =====
-- evidence/builders.ts, validateEvidenceV21, which validateEvidence of evidence/validator.ts calls.
pub mod Exact
pub mod Built
use evolve_loop.Base.{
  ℕ, String, ◌<>◌, Bool, true, false, not, Option, none, some, get_or, List, [], ◌∷◌, ◌==◌, ltb,
  any, find, if◌then◌else◌, string_eq,
}
use evolve_loop.Types.{
  DoDCheck, Evidence, EvidenceCheck, GraphNode, CheckResult, Verdict, complete, pass, rejected,
  critical, evidence_status_eq, check_result_eq, severity_eq, verdict_eq,
}

pub record ValidationResult : Type 0 where
  pub valid : Bool
  pub reason : Option String

abbrev pub invalid : String → ValidationResult
invalid reason = record { valid = false; reason = some reason }

abbrev pub accepted : ValidationResult
accepted = record { valid = true; reason = none }

-- The first check of the item passed.
abbrev pub dod_passes : List EvidenceCheck → DoDCheck → Bool
dod_passes checks dod = elim (find (λ (c : EvidenceCheck). c.dod_id == dod.id) checks) [
  | none ↦ false
  | some matching ↦ matching.result == pass
]

-- The first item of the definition of done that fails.
abbrev pub first_failed : List EvidenceCheck → List DoDCheck → Option DoDCheck
first_failed checks dods = find (λ dod. not (dod_passes checks dod)) dods

abbrev pub has_critical_gaps : Evidence → Bool
has_critical_gaps e = any (λ g. g.severity == critical) (get_or e.spec.known_gaps [])

abbrev pub judge_verdict : Option Verdict → ValidationResult
judge_verdict none = invalid "gate_verdict_missing"
judge_verdict (some v) = if v == rejected then invalid "gate_rejected" else accepted

unfoldable pub validate_present : Evidence → List DoDCheck → GraphNode → ℕ → ValidationResult
validate_present e dods node min_confidence =
    if not (e.spec.status == complete)
    then invalid "evidence_incomplete"
    else if ltb (get_or e.spec.confidence 0) min_confidence
    then invalid "confidence_below_threshold"
    else if has_critical_gaps e
    then invalid "critical_gaps_declared"
    else elim (first_failed e.spec.checks dods) [
      | some dod ↦ invalid ("dod_failed:" <> dod.id)
      | none ↦ if node.type == "gate" then judge_verdict e.spec.verdict else accepted
    ]

unfoldable pub validate_evidence :
    Option Evidence → List DoDCheck → GraphNode → ℕ → ValidationResult
unfolding validate_present
validate_evidence none dods node min_confidence = invalid "evidence_incomplete"
validate_evidence (some e) dods node min_confidence = validate_present e dods node min_confidence
