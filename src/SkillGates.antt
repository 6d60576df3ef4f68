-- ===== src/SkillGates.antt =====
-- policy/megabrain-skill-gates.ts: whether a gate of skills lets a transition happen.
pub mod Transitions
use evolve_loop.Base.{
  String, Bool, true, false, not, ◌&&◌, ◌||◌, Option, none, some, get_or, List, [], ◌∷◌, ◌==◌, Eq,
  if◌then◌else◌,
}

pub data RiskTier : Type 0 where
  hotfix standard sensitive audit : RiskTier

pub data GateStatus : Type 0 where
  satisfied blocked failed exempt absent not_applicable : GateStatus

pub data SkillGateId : Type 0 where
  grill_me image_to_code : SkillGateId

instance unfoldable pub risk_tier_eq : Eq RiskTier
risk_tier_eq = record { dec = hlevel }

instance unfoldable pub gate_status_eq : Eq GateStatus
gate_status_eq = record { dec = hlevel }

-- An optional flag is false where it is absent.
pub record GrillMeGateInput : Type 0 where
  pub risk_tier : RiskTier
  pub phase05_active : Bool
  pub docs_approved : Bool
  pub explicit_exempt : Bool
  pub exempt_reason : Option String
  pub fully_specified_execution : Bool
  pub trivial_non_design : Bool
  pub significant_scope_change : Bool
  pub evidence_status : Option GateStatus

pub record ImageToCodeGateInput : Type 0 where
  pub image_attachment : Bool
  pub evidence_status : Option GateStatus

pub record SkillGateDecision : Type 0 where
  pub gate : SkillGateId
  pub required : Bool
  pub allow_transition : Bool
  pub status : GateStatus
  pub reason : String
  pub fail_closed : Bool

unfoldable pub evaluate_grill_me_required : GrillMeGateInput → Bool
evaluate_grill_me_required input =
    if input.trivial_non_design
    then false
    else if input.fully_specified_execution
    then false
    else if input.explicit_exempt
    then false
    else if input.risk_tier == hotfix
        && not input.significant_scope_change
        && not input.phase05_active
    then false
    else if input.phase05_active && input.docs_approved
    then true
    else if input.significant_scope_change
    then true
    else if input.risk_tier == standard || input.risk_tier == sensitive
    then input.docs_approved || input.phase05_active
    else input.risk_tier == audit && input.phase05_active

abbrev pub decision :
    SkillGateId → (required allow_transition : Bool) → GateStatus → String → SkillGateDecision
decision gate required allow_transition status reason = record {
  gate = gate;
  required = required;
  allow_transition = allow_transition;
  status = status;
  reason = reason;
  fail_closed = true;
}

abbrev pub not_required : GrillMeGateInput → SkillGateDecision
not_required input =
    if input.explicit_exempt
    then decision grill_me false true exempt (get_or input.exempt_reason "explicit_exempt")
    else decision grill_me false true not_applicable "gate_not_required_for_scope"

abbrev pub judge_status : GrillMeGateInput → GateStatus → SkillGateDecision
judge_status input st =
    if st == satisfied || st == exempt
    then decision grill_me true true st
        (if st == exempt then get_or input.exempt_reason "exempt" else "gate_satisfied")
    else decision grill_me true false (if st == failed || st == blocked then st else blocked) (
        if st == absent
        then "grill_me_required_but_evidence_absent"
        else if st == failed
        then "grill_me_failed"
        else "grill_me_blocked")

unfoldable pub evaluate_grill_me_transition : GrillMeGateInput → SkillGateDecision
unfolding evaluate_grill_me_required
evaluate_grill_me_transition input =
    if not (evaluate_grill_me_required input)
    then not_required input
    else judge_status input (get_or input.evidence_status absent)

abbrev pub judge_image : GateStatus → SkillGateDecision
judge_image st =
    if st == satisfied
    then decision image_to_code true true satisfied "image_to_code_applied"
    else decision image_to_code true false (if st == failed then failed else blocked)
        "image_attachment_requires_image_to_code"

unfoldable pub evaluate_image_to_code_gate : ImageToCodeGateInput → SkillGateDecision
evaluate_image_to_code_gate input =
    if not input.image_attachment
    then decision image_to_code false true not_applicable "no_image_attachment"
    else judge_image (get_or input.evidence_status absent)

-- The gates that are required.
unfoldable pub skill_gates_to_require_flags : List SkillGateDecision → List SkillGateId
skill_gates_to_require_flags [] = []
skill_gates_to_require_flags (d ∷ ds) =
    let flags = skill_gates_to_require_flags ds in if d.required then d.gate ∷ flags else flags
