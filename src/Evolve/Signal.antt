-- ===== src/Evolve/Signal.antt =====
-- evolveloop/types.ts: observations, signals and patterns. An object of unknown fields (metadata) is a
-- dictionary of their texts.
use evolve_loop.Base.{ℕ, String, Bool, Option, List, Dict, Eq}

pub data Severity : Type 0 where
  info low medium high critical : Severity

pub data SignalType : Type 0 where
  failure retry human_intervention correction capability_unavailable skill_failure tool_misuse :
      SignalType
  excessive_steps latency eval_gap repeated_request abandonment policy_block knowledge_gap :
      SignalType
  post_evolution_improvement post_evolution_regression post_evolution_no_change : SignalType
  post_evolution_unknown : SignalType

instance unfoldable pub signal_type_eq : Eq SignalType
signal_type_eq = record { dec = hlevel }

abbrev pub signal_type_name : SignalType → String
signal_type_name failure = "failure"
signal_type_name retry = "retry"
signal_type_name human_intervention = "human_intervention"
signal_type_name correction = "correction"
signal_type_name capability_unavailable = "capability_unavailable"
signal_type_name skill_failure = "skill_failure"
signal_type_name tool_misuse = "tool_misuse"
signal_type_name excessive_steps = "excessive_steps"
signal_type_name latency = "latency"
signal_type_name eval_gap = "eval_gap"
signal_type_name repeated_request = "repeated_request"
signal_type_name abandonment = "abandonment"
signal_type_name policy_block = "policy_block"
signal_type_name knowledge_gap = "knowledge_gap"
signal_type_name post_evolution_improvement = "post_evolution_improvement"
signal_type_name post_evolution_regression = "post_evolution_regression"
signal_type_name post_evolution_no_change = "post_evolution_no_change"
signal_type_name post_evolution_unknown = "post_evolution_unknown"

pub data ScopeKind : Type 0 where
  user project workspace team system : ScopeKind

instance unfoldable pub scope_kind_eq : Eq ScopeKind
scope_kind_eq = record { dec = hlevel }

abbrev pub scope_kind_name : ScopeKind → String
scope_kind_name user = "USER"
scope_kind_name project = "PROJECT"
scope_kind_name workspace = "WORKSPACE"
scope_kind_name team = "TEAM"
scope_kind_name system = "SYSTEM"

pub record Scope : Type 0 where
  pub type : ScopeKind
  pub id : String

pub data ScopeClass : Type 0 where
  user_local core_candidate unknown_scope : ScopeClass

instance unfoldable pub scope_class_eq : Eq ScopeClass
scope_class_eq = record { dec = hlevel }

abbrev pub scope_class_name : ScopeClass → String
scope_class_name user_local = "USER_LOCAL"
scope_class_name core_candidate = "CORE_CANDIDATE"
scope_class_name unknown_scope = "UNKNOWN_SCOPE"

pub record RawObservation : Type 0 where
  pub id : String
  pub timestamp : String
  pub source : String
  pub synthetic : Option Bool
  pub execution_id : Option String
  pub feature_id : Option String
  pub user_id : Option String
  pub project_id : Option String
  pub domain : Option String
  pub task_class : Option String
  pub kind : SignalType
  pub severity : Option Severity
  pub metadata : Option (Dict String)
  pub evidence_refs : Option (List String)

pub record NeedSignal : Type 0 where
  pub id : String
  pub fingerprint : String
  pub timestamp : String
  pub scope : Scope
  pub source : String
  pub type : SignalType
  pub domain : String
  pub task_class : String
  pub severity : Severity
  pub evidence_refs : List String
  pub execution_id : Option String
  pub feature_id : Option String
  pub user_id : Option String
  pub project_id : Option String
  pub synthetic : Bool
  pub metadata : Dict String

pub data PatternKind : Type 0 where
  repeated_failure repeated_retry repeated_human_intervention repeated_user_correction : PatternKind
  capability_gap skill_gap excessive_execution_steps repeated_policy_block : PatternKind
  evaluation_gap repeated_unsuccessful_recovery task_abandonment latency_pattern : PatternKind

abbrev pub pattern_kind_name : PatternKind → String
pattern_kind_name repeated_failure = "RepeatedFailure"
pattern_kind_name repeated_retry = "RepeatedRetry"
pattern_kind_name repeated_human_intervention = "RepeatedHumanIntervention"
pattern_kind_name repeated_user_correction = "RepeatedUserCorrection"
pattern_kind_name capability_gap = "CapabilityGap"
pattern_kind_name skill_gap = "SkillGap"
pattern_kind_name excessive_execution_steps = "ExcessiveExecutionSteps"
pattern_kind_name repeated_policy_block = "RepeatedPolicyBlock"
pattern_kind_name evaluation_gap = "EvaluationGap"
pattern_kind_name repeated_unsuccessful_recovery = "RepeatedUnsuccessfulRecovery"
pattern_kind_name task_abandonment = "TaskAbandonment"
pattern_kind_name latency_pattern = "LatencyPattern"

-- The window is the rolling one of the detector.
pub record PatternWindow : Type 0 where
  pub start : String
  pub end : String
  pub hours : ℕ

pub record DetectedPattern : Type 0 where
  pub id : String
  pub fingerprint : String
  pub kind : PatternKind
  pub scope : ScopeKind
  pub scope_class : ScopeClass
  pub scope_id : String
  pub domain : String
  pub task_class : String
  pub window : PatternWindow
  pub signal_ids : List String
  pub frequency : ℕ
  pub impact : Severity
  pub first_seen : String
  pub last_seen : String
