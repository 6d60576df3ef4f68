-- ===== src/Evolve/Need.antt =====
-- evolveloop/types.ts: needs, their causes, candidates and requests.
use evolve_loop.Base.{ℕ, String, Bool, List, Eq}
use evolve_loop.Evolve.Signal.{Severity, ScopeKind, ScopeClass, PatternKind}

pub data RootCauseType : Type 0 where
  knowledge_gap skill_gap capability_gap provider_gap policy_gap routing_gap agent_boundary :
      RootCauseType
  runtime_gap observability_gap eval_gap user_configuration environment : RootCauseType
  no_change unknown : RootCauseType

abbrev pub root_cause_name : RootCauseType → String
root_cause_name knowledge_gap = "KNOWLEDGE_GAP"
root_cause_name skill_gap = "SKILL_GAP"
root_cause_name capability_gap = "CAPABILITY_GAP"
root_cause_name provider_gap = "PROVIDER_GAP"
root_cause_name policy_gap = "POLICY_GAP"
root_cause_name routing_gap = "ROUTING_GAP"
root_cause_name agent_boundary = "AGENT_BOUNDARY"
root_cause_name runtime_gap = "RUNTIME_GAP"
root_cause_name observability_gap = "OBSERVABILITY_GAP"
root_cause_name eval_gap = "EVAL_GAP"
root_cause_name user_configuration = "USER_CONFIGURATION"
root_cause_name environment = "ENVIRONMENT"
root_cause_name no_change = "NO_CHANGE"
root_cause_name unknown = "UNKNOWN"

-- `toLowerCase` of the name.
abbrev pub root_cause_lower : RootCauseType → String
root_cause_lower knowledge_gap = "knowledge_gap"
root_cause_lower skill_gap = "skill_gap"
root_cause_lower capability_gap = "capability_gap"
root_cause_lower provider_gap = "provider_gap"
root_cause_lower policy_gap = "policy_gap"
root_cause_lower routing_gap = "routing_gap"
root_cause_lower agent_boundary = "agent_boundary"
root_cause_lower runtime_gap = "runtime_gap"
root_cause_lower observability_gap = "observability_gap"
root_cause_lower eval_gap = "eval_gap"
root_cause_lower user_configuration = "user_configuration"
root_cause_lower environment = "environment"
root_cause_lower no_change = "no_change"
root_cause_lower unknown = "unknown"

pub data CandidateType : Type 0 where
  no_change documentation knowledge skill capability provider policy routing agent runtime :
      CandidateType
  composite : CandidateType

instance unfoldable pub candidate_type_eq : Eq CandidateType
candidate_type_eq = record { dec = hlevel }

abbrev pub candidate_type_name : CandidateType → String
candidate_type_name no_change = "NO_CHANGE"
candidate_type_name documentation = "DOCUMENTATION"
candidate_type_name knowledge = "KNOWLEDGE"
candidate_type_name skill = "SKILL"
candidate_type_name capability = "CAPABILITY"
candidate_type_name provider = "PROVIDER"
candidate_type_name policy = "POLICY"
candidate_type_name routing = "ROUTING"
candidate_type_name agent = "AGENT"
candidate_type_name runtime = "RUNTIME"
candidate_type_name composite = "COMPOSITE"

-- `Confidence`, and the three complexities of a candidate.
pub data Level : Type 0 where
  low medium high : Level

instance unfoldable pub level_eq : Eq Level
level_eq = record { dec = hlevel }

pub data NeedStatus : Type 0 where
  candidate insufficient_evidence rejected : NeedStatus

instance unfoldable pub need_status_eq : Eq NeedStatus
need_status_eq = record { dec = hlevel }

pub record NeedCandidate : Type 0 where
  pub id : String
  pub fingerprint : String
  pub scope : ScopeKind
  pub scope_class : ScopeClass
  pub scope_id : String
  pub domain : String
  pub type : PatternKind
  pub recurrence : ℕ
  pub impact : Severity
  pub affected_tasks : List String
  pub evidence : List String
  pub pattern_ids : List String
  pub signal_ids : List String
  pub confidence : Level
  pub suspected_root_causes : List RootCauseType
  pub first_seen : String
  pub last_seen : String
  pub status : NeedStatus

pub record RootCauseAnalysis : Type 0 where
  pub need_id : String
  pub primary : RootCauseType
  pub alternatives : List RootCauseType
  pub evidence : List String
  pub uncertainties : List String

pub data CandidateStatus : Type 0 where
  draft validated incomplete rejected : CandidateStatus

-- The alternatives of a candidate are typed as candidate types, but one of them is another text
-- ("insufficient_evidence"), so they are texts.
pub record EvolutionCandidate : Type 0 where
  pub id : String
  pub fingerprint : String
  pub need_id : String
  pub root_cause_primary : RootCauseType
  pub scope : ScopeKind
  pub scope_class : ScopeClass
  pub type : CandidateType
  pub target : String
  pub rationale : String
  pub expected_effect : String
  pub evidence : List String
  pub alternatives : List String
  pub risks : List String
  pub complexity : Level
  pub rollback : String
  pub eval_strategy : String
  pub success_criteria : List String
  pub failure_criteria : List String
  pub status : CandidateStatus

pub data RequestedAction : Type 0 where
  submit_to_prototype_gate hold no_change : RequestedAction

instance unfoldable pub requested_action_eq : Eq RequestedAction
requested_action_eq = record { dec = hlevel }

pub data AutonomyLevel : Type 0 where
  observe analyze propose prototype validate implement : AutonomyLevel

pub record Evaluation : Type 0 where
  pub strategy : String
  pub success_criteria : List String
  pub failure_criteria : List String

pub record EvolutionRequest : Type 0 where
  pub id : String
  pub source_need : String
  pub source_patterns : List String
  pub root_cause : RootCauseAnalysis
  pub candidate : EvolutionCandidate
  pub evidence : List String
  pub scope : ScopeClass
  pub requested_action : RequestedAction
  pub evaluation : Evaluation
  pub autonomy_ceiling : AutonomyLevel
  pub created_at : String
  pub mutates_core : Bool
  pub mutates_runtime : Bool
