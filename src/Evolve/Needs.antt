-- ===== src/Evolve/Needs.antt =====
-- evolveloop/need-detector.ts and evolveloop/root-cause.ts: patterns with enough signals become needs,
-- and a need is given a suspected cause. `emitted` is the map of the needs so far.
use evolve_loop.Base.{
  ℕ, String, ◌<>◌, ◌||◌, ◌&&◌, List, [], ◌∷◌, Dict, lookup, insert, map, take, length, leb, get_or,
  contains, ◌==◌, if◌then◌else◌, string_eq,
}
use evolve_loop.Evolve.Signal.{PatternKind, DetectedPattern, pattern_kind_name, scope_class_name}
use evolve_loop.Evolve.Need.{
  RootCauseType, Level, level_eq, NeedStatus, need_status_eq, NeedCandidate, RootCauseAnalysis,
}
use evolve_loop.Evolve.Host.{Host, hash, set_of}

abbrev pub min_need_signals : ℕ
min_need_signals = 3

unfoldable pub confidence_for : DetectedPattern → (sources : ℕ) → Level
confidence_for p sources =
    if leb 5 p.frequency && leb 2 sources
    then Level.high
    else if leb min_need_signals p.frequency
    then Level.medium
    else Level.low

module _ (h : Host) where
  abbrev pub need_fingerprint : DetectedPattern → String
  need_fingerprint p = hash h (
      pattern_kind_name p.kind
      ∷ p.domain
      ∷ p.task_class
      ∷ scope_class_name p.scope_class
      ∷ p.scope_id
      ∷ [])

  -- `sources` maps the id of a signal to its source.
  abbrev pub source_count : Dict String → DetectedPattern → ℕ
  source_count sources p =
      length (set_of (map (λ id. get_or (lookup id sources) "unknown") p.signal_ids))

  abbrev pub need_of : Dict String → DetectedPattern → NeedCandidate
  need_of sources p =
      let confidence = confidence_for p (source_count sources p) in
      record {
        id = "need-" <> need_fingerprint p;
        fingerprint = need_fingerprint p;
        scope = p.scope;
        scope_class = p.scope_class;
        scope_id = p.scope_id;
        domain = p.domain;
        type = p.kind;
        recurrence = p.frequency;
        impact = p.impact;
        affected_tasks = p.task_class ∷ [];
        evidence = p.signal_ids;
        pattern_ids = p.id ∷ [];
        signal_ids = p.signal_ids;
        confidence = confidence;
        suspected_root_causes = [];
        first_seen = p.first_seen;
        last_seen = p.last_seen;
        status =
            if confidence == Level.low
            then NeedStatus.insufficient_evidence
            else NeedStatus.candidate;
      }

  abbrev pub known_need : Dict NeedCandidate → Dict String → DetectedPattern → NeedCandidate
  known_need emitted sources p = get_or (lookup (need_fingerprint p) emitted) (need_of sources p)

  -- A known need is handed out again as it was.
  unfoldable pub detect_needs :
      Dict String
      → Dict NeedCandidate
      → List DetectedPattern
      → List NeedCandidate × Dict NeedCandidate
  unfolding confidence_for
  detect_needs sources emitted [] = ([], emitted)
  detect_needs sources emitted (p ∷ ps) =
      let enough = leb min_need_signals (length p.signal_ids) in
      let need = known_need emitted sources p in
      let (needs, last) =
        detect_needs sources (if enough then insert (need_fingerprint p) need emitted else emitted)
          ps in
      (if enough then need ∷ needs else needs, last)

-- PATTERN_TO_CAUSE
abbrev pub suspected : PatternKind → RootCauseType × List RootCauseType
suspected PatternKind.repeated_failure = (
  RootCauseType.unknown,
  RootCauseType.skill_gap ∷ RootCauseType.capability_gap ∷ RootCauseType.provider_gap
      ∷ RootCauseType.environment ∷ [],
)
suspected PatternKind.repeated_retry =
    (RootCauseType.runtime_gap, RootCauseType.provider_gap ∷ RootCauseType.environment ∷ [])
suspected PatternKind.repeated_human_intervention = (
  RootCauseType.agent_boundary,
  RootCauseType.skill_gap ∷ RootCauseType.knowledge_gap ∷ RootCauseType.policy_gap ∷ [],
)
suspected PatternKind.repeated_user_correction =
    (RootCauseType.knowledge_gap, RootCauseType.skill_gap ∷ RootCauseType.routing_gap ∷ [])
suspected PatternKind.capability_gap =
    (RootCauseType.capability_gap, RootCauseType.provider_gap ∷ RootCauseType.routing_gap ∷ [])
suspected PatternKind.skill_gap =
    (RootCauseType.skill_gap, RootCauseType.knowledge_gap ∷ RootCauseType.agent_boundary ∷ [])
suspected PatternKind.excessive_execution_steps =
    (RootCauseType.routing_gap, RootCauseType.skill_gap ∷ RootCauseType.knowledge_gap ∷ [])
suspected PatternKind.repeated_policy_block =
    (RootCauseType.policy_gap, RootCauseType.user_configuration ∷ RootCauseType.no_change ∷ [])
suspected PatternKind.evaluation_gap =
    (RootCauseType.eval_gap, RootCauseType.observability_gap ∷ [])
suspected PatternKind.repeated_unsuccessful_recovery =
    (RootCauseType.runtime_gap, RootCauseType.capability_gap ∷ [])
suspected PatternKind.task_abandonment = (
  RootCauseType.unknown,
  RootCauseType.skill_gap ∷ RootCauseType.user_configuration ∷ RootCauseType.no_change ∷ [],
)
suspected PatternKind.latency_pattern =
    (RootCauseType.provider_gap, RootCauseType.runtime_gap ∷ RootCauseType.no_change ∷ [])

abbrev pub kind_for : NeedCandidate → List DetectedPattern → PatternKind
kind_for need [] = need.type
kind_for need (p ∷ ps) = if contains need.pattern_ids p.id then p.kind else kind_for need ps

-- Weak evidence is given no cause to change anything.
unfoldable pub analyze : NeedCandidate → List DetectedPattern → RootCauseAnalysis
analyze need patterns =
    let (primary, alternatives) = suspected (kind_for need patterns) in
    if need.status == NeedStatus.insufficient_evidence || need.confidence == Level.low
    then record {
      need_id = need.id;
      primary = RootCauseType.no_change;
      alternatives = primary ∷ alternatives;
      evidence = take 5 need.evidence;
      uncertainties = "insufficient_corroboration" ∷ "do_not_evolve_on_weak_evidence" ∷ [];
    }
    else record {
      need_id = need.id;
      primary = primary;
      alternatives = alternatives;
      evidence = take 10 need.evidence;
      uncertainties =
          "primary_is_suspected_not_proven"
          ∷ "alternatives_must_be_considered_before_agent_creation" ∷ [];
    }
