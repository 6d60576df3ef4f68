-- ===== src/Evolve/Candidates.antt =====
-- evolveloop/candidate-generator.ts: the candidates for a need. `emitted` is the map of the candidates
-- so far.
use evolve_loop.Base.{
  String, ◌<>◌, Bool, not, ◌||◌, none, some, List, [], ◌∷◌, ◌++◌, Dict, lookup, insert, take, ◌==◌,
  if◌then◌else◌, string_eq,
}
use evolve_loop.Evolve.Signal.{ScopeClass, scope_class_eq}
use evolve_loop.Evolve.Need.{
  RootCauseType, root_cause_name, root_cause_lower, CandidateType, candidate_type_eq,
  candidate_type_name, Level, NeedStatus, need_status_eq, NeedCandidate, RootCauseAnalysis,
  CandidateStatus, EvolutionCandidate,
}
use evolve_loop.Evolve.Host.{Host, hash}

pub record Mapping : Type 0 where
  pub type : CandidateType
  pub alternatives : List String
  pub target : String

-- CAUSE_TO_CANDIDATE
abbrev pub mapping_of : RootCauseType → Mapping
mapping_of RootCauseType.knowledge_gap = record {
  type = CandidateType.knowledge;
  alternatives = "SKILL" ∷ "DOCUMENTATION" ∷ "NO_CHANGE" ∷ [];
  target = "knowledge_store";
}
mapping_of RootCauseType.skill_gap = record {
  type = CandidateType.skill;
  alternatives = "KNOWLEDGE" ∷ "CAPABILITY" ∷ "AGENT" ∷ "NO_CHANGE" ∷ [];
  target = "skill_authoring";
}
mapping_of RootCauseType.capability_gap = record {
  type = CandidateType.capability;
  alternatives = "PROVIDER" ∷ "SKILL" ∷ "NO_CHANGE" ∷ [];
  target = "capability_registry";
}
mapping_of RootCauseType.provider_gap = record {
  type = CandidateType.provider;
  alternatives = "CAPABILITY" ∷ "NO_CHANGE" ∷ [];
  target = "provider_manifest";
}
mapping_of RootCauseType.policy_gap = record {
  type = CandidateType.policy;
  alternatives = "DOCUMENTATION" ∷ "NO_CHANGE" ∷ [];
  target = "policy_engine";
}
mapping_of RootCauseType.routing_gap = record {
  type = CandidateType.routing;
  alternatives = "SKILL" ∷ "CAPABILITY" ∷ "NO_CHANGE" ∷ [];
  target = "scheduler_routing";
}
mapping_of RootCauseType.agent_boundary = record {
  type = CandidateType.agent;
  alternatives = "SKILL" ∷ "CAPABILITY" ∷ "NO_CHANGE" ∷ [];
  target = "agent_authoring";
}
mapping_of RootCauseType.runtime_gap = record {
  type = CandidateType.runtime;
  alternatives = "CAPABILITY" ∷ "NO_CHANGE" ∷ [];
  target = "execution_engine";
}
mapping_of RootCauseType.observability_gap = record {
  type = CandidateType.documentation;
  alternatives = "RUNTIME" ∷ "NO_CHANGE" ∷ [];
  target = "telemetry";
}
mapping_of RootCauseType.eval_gap = record {
  type = CandidateType.documentation;
  alternatives = "NO_CHANGE" ∷ [];
  target = "evals";
}
mapping_of RootCauseType.user_configuration = record {
  type = CandidateType.no_change;
  alternatives = "DOCUMENTATION" ∷ [];
  target = "user_config";
}
mapping_of RootCauseType.environment = record {
  type = CandidateType.no_change;
  alternatives = "DOCUMENTATION" ∷ [];
  target = "environment";
}
mapping_of RootCauseType.no_change = record {
  type = CandidateType.no_change;
  alternatives = [];
  target = "none";
}
mapping_of RootCauseType.unknown = record {
  type = CandidateType.no_change;
  alternatives = "KNOWLEDGE" ∷ "SKILL" ∷ "CAPABILITY" ∷ [];
  target = "investigate";
}

abbrev pub is_big : CandidateType → Bool
is_big t = t == CandidateType.agent || t == CandidateType.runtime

abbrev pub complexity_of : CandidateType → Level
complexity_of t =
    if t == CandidateType.no_change
      || t == CandidateType.documentation
      || t == CandidateType.knowledge
    then Level.low
    else if is_big t
    then Level.high
    else Level.medium

abbrev pub risks_of : CandidateType → ScopeClass → List String
risks_of t scope =
    (if is_big t then "high_architectural_impact" ∷ [] else [])
    ++ (if scope == ScopeClass.core_candidate
        then "core_contamination_if_auto_applied" ∷ []
        else [])
    ++ (if t == CandidateType.agent
        then "must_verify_existing_agents_skills_capabilities"
          ∷ "requires_distinct_responsibility_context_authority_evals" ∷ []
        else [])

module _ (h : Host) where
  -- `make`. It is called with the status DRAFT only.
  unfoldable pub make :
      NeedCandidate
      → RootCauseAnalysis
      → CandidateType
      → (target rationale : String) → (alternatives : List String) → EvolutionCandidate
  make need rca type target rationale alternatives =
      let fingerprint =
        hash h (
          need.fingerprint
          ∷ root_cause_name rca.primary
          ∷ candidate_type_name type
          ∷ target
          ∷ []) in
      record {
        id = "cand-" <> fingerprint;
        fingerprint = fingerprint;
        need_id = need.id;
        root_cause_primary = rca.primary;
        scope = need.scope;
        scope_class = need.scope_class;
        type = type;
        target = target;
        rationale = rationale;
        expected_effect =
            if type == CandidateType.no_change
            then "no_system_mutation"
            else "address_" <> root_cause_lower rca.primary;
        evidence = take 20 (need.evidence ++ rca.evidence);
        alternatives = alternatives;
        risks = risks_of type need.scope_class;
        complexity = complexity_of type;
        rollback =
            if type == CandidateType.no_change then "n/a" else "revert_via_evolution_pipeline_only";
        eval_strategy = "synthetic_eval_then_prototype_gate_if_authorized";
        success_criteria =
            "need_recurrence_reduced_under_eval" ∷ "no_unauthorized_mutation" ∷ "scope_preserved"
            ∷ [];
        failure_criteria =
            "false_positive_need" ∷ "scope_leak_to_core" ∷ "unauthorized_runtime_mutation" ∷ [];
        status = CandidateStatus.draft;
      }

  abbrev pub primary_candidate : NeedCandidate → RootCauseAnalysis → EvolutionCandidate
  primary_candidate need rca =
      let mapping = mapping_of rca.primary in
      make need rca mapping.type mapping.target
        ("Suspected "
          <> root_cause_name rca.primary
          <> "; prefer "
          <> candidate_type_name mapping.type
          <> " before larger changes")
        mapping.alternatives

  abbrev pub no_change_candidate : NeedCandidate → RootCauseAnalysis → EvolutionCandidate
  no_change_candidate need rca =
      make need (record rca { primary = RootCauseType.no_change }) CandidateType.no_change "none"
        "Explicit no-change alternative must remain available" []

  abbrev pub mapping_fingerprint : NeedCandidate → RootCauseAnalysis → String
  mapping_fingerprint need rca = hash h (
      need.fingerprint
      ∷ root_cause_name rca.primary
      ∷ candidate_type_name (mapping_of rca.primary).type
      ∷ [])

  abbrev pub generate_new :
      Dict EvolutionCandidate
      → NeedCandidate
      → RootCauseAnalysis
      → List EvolutionCandidate × Dict EvolutionCandidate
  generate_new emitted need rca =
      let primary = primary_candidate need rca in
      (
        primary
            ∷ (if (mapping_of rca.primary).type == CandidateType.no_change
                then []
                else no_change_candidate need rca ∷ []),
        insert (mapping_fingerprint need rca) primary emitted,
      )

  unfoldable pub generate :
      Dict EvolutionCandidate
      → NeedCandidate
      → RootCauseAnalysis
      → List EvolutionCandidate × Dict EvolutionCandidate
  unfolding make
  generate emitted need rca =
      if not (need.status == NeedStatus.candidate)
      then (
        make need rca CandidateType.no_change "none" "Insufficient evidence — do not evolve"
              ("insufficient_evidence" ∷ [])
            ∷ [],
        emitted,
      )
      else elim (lookup (mapping_fingerprint need rca) emitted) [
        | some old ↦ (old ∷ [], emitted)
        | none ↦ generate_new emitted need rca
      ]
