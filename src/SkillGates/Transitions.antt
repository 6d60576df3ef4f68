-- ===== src/SkillGates/Transitions.antt =====
-- policy/megabrain-skill-gates.ts: when the transition to the planner is allowed.
use evolve_loop.Base.{◌≡◌, refl, ◌↔◌, ◌⊎◌, inl, inr, true, false, ◌||◌, Bool-cases, get_or, arith}
use evolve_loop.SkillGates.{
  GateStatus, GrillMeGateInput, satisfied, exempt, absent, failed, blocked, not_applicable,
  gate_status_eq, evaluate_grill_me_required, evaluate_grill_me_transition, not_required,
  judge_status,
}

not_required-allow : (input : GrillMeGateInput) → (not_required input).allow_transition ≡ true
not_required-allow input = elim (Bool-cases input.explicit_exempt) [
  | inl e ↦ rw (e, not_required) refl
  | inr e ↦ rw (e, not_required) refl
]

judge_status-allow :
    (input : GrillMeGateInput) (st : GateStatus)
    → ((judge_status input st).allow_transition ≡ true) ↔ ((st ≡ satisfied) ⊎ (st ≡ exempt))
unfolding gate_status_eq
judge_status-allow input satisfied = (λ h. inl refl, λ h. refl)
judge_status-allow input exempt = (λ h. inr refl, λ h. refl)
judge_status-allow input blocked = (λ h. cc, λ h. ground arith)
judge_status-allow input failed = (λ h. cc, λ h. ground arith)
judge_status-allow input absent = (λ h. cc, λ h. ground arith)
judge_status-allow input not_applicable = (λ h. cc, λ h. ground arith)

-- The transition to the planner is allowed exactly when the grill-me gate is not required or its
-- evidence is satisfied or exempt: with a required gate, absent evidence and every other status stop
-- it. A task that is exempt, trivial or fully specified never requires the gate, whatever its tier.
pub grill_me_fails_closed :
    (input : GrillMeGateInput)
    → (((evaluate_grill_me_transition input).allow_transition ≡ true) ↔ (
        (evaluate_grill_me_required input ≡ false)
        ⊎ (get_or input.evidence_status absent ≡ satisfied)
        ⊎ (get_or input.evidence_status absent ≡ exempt)))
      × ((input.explicit_exempt || input.trivial_non_design || input.fully_specified_execution)
            ≡ true
          → evaluate_grill_me_required input ≡ false)
unfolding evaluate_grill_me_transition
grill_me_fails_closed input = (allowed, λ h. ground arith)
  where
    allowed : ((evaluate_grill_me_transition input).allow_transition ≡ true) ↔ (
        (evaluate_grill_me_required input ≡ false)
        ⊎ (get_or input.evidence_status absent ≡ satisfied)
        ⊎ (get_or input.evidence_status absent ≡ exempt))
    allowed = elim (Bool-cases (evaluate_grill_me_required input)) [
      | inr free ↦
          rw (free, evaluate_grill_me_transition) (λ h. inl refl, λ h. not_required-allow input)
      | inl must ↦
          let (forth, back) = judge_status-allow input (get_or input.evidence_status absent) in
          rw (must, evaluate_grill_me_transition)
            (λ h. inr (forth h), λ h. elim h [ inl f ↦ cc | inr g ↦ back g ])
    ]
