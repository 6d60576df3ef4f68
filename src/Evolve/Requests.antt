-- ===== src/Evolve/Requests.antt =====
-- evolveloop/candidate-validator.ts: the check of a candidate and the request for it.
use evolve_loop.Base.{
  String, ◌<>◌, false, not, ◌||◌, ◌&&◌, List, [], ◌∷◌, ◌++◌, length, ltb, contains, ◌==◌,
  if◌then◌else◌, string_eq,
}
use evolve_loop.Evolve.Signal.{ScopeClass, scope_class_eq}
use evolve_loop.Evolve.Need.{
  CandidateType, candidate_type_eq, need_status_eq, NeedCandidate, RootCauseAnalysis,
  EvolutionCandidate, RequestedAction, AutonomyLevel, EvolutionRequest,
}

-- The reasons against a candidate. A scope class is always there, so its absence is no reason.
unfoldable pub validate_candidate :
    EvolutionCandidate → NeedCandidate → RootCauseAnalysis → List String
validate_candidate c need rca =
    (if c.need_id == "" || not (c.need_id == need.id)
      then "need_link_missing_or_mismatch" ∷ []
      else [])
    ++ (if not (rca.need_id == need.id) then "root_cause_need_mismatch" ∷ [] else [])
    ++ (if ltb 0 (length c.evidence) then [] else "evidence_empty" ∷ [])
    ++ (if c.rollback == "" then "rollback_missing" ∷ [] else [])
    ++ (if c.eval_strategy == "" then "eval_strategy_missing" ∷ [] else [])
    ++ (if ltb 0 (length c.success_criteria) && ltb 0 (length c.failure_criteria)
        then []
        else "success_or_failure_criteria_missing" ∷ [])
    ++ (if c.type == CandidateType.agent && not (contains c.alternatives "SKILL")
        then "agent_candidate_must_list_skill_alternative" ∷ []
        else [])

unfoldable pub requested_action_for : NeedCandidate → EvolutionCandidate → RequestedAction
requested_action_for need c =
    if c.type == CandidateType.no_change
    then RequestedAction.no_change
    else if need.scope_class == ScopeClass.core_candidate
    then RequestedAction.hold
    else RequestedAction.submit_to_prototype_gate

unfoldable pub build_evolution_request :
    (now : String)
    → NeedCandidate
    → RootCauseAnalysis
    → EvolutionCandidate
    → List String
    → EvolutionRequest
unfolding requested_action_for
build_evolution_request now need rca c pattern_ids = record {
  id = "ereq-" <> c.fingerprint;
  source_need = need.id;
  source_patterns = pattern_ids;
  root_cause = rca;
  candidate = c;
  evidence = c.evidence;
  scope = need.scope_class;
  requested_action = requested_action_for need c;
  evaluation = record {
    strategy = c.eval_strategy;
    success_criteria = c.success_criteria;
    failure_criteria = c.failure_criteria;
  };
  autonomy_ceiling = AutonomyLevel.propose;
  created_at = now;
  mutates_core = false;
  mutates_runtime = false;
}
