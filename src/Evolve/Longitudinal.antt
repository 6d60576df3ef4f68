-- ===== src/Evolve/Longitudinal.antt =====
-- evolveloop/longitudinal-types.ts: needs over time, outcomes and queries.
use evolve_loop.Base.{ℕ, ◌+◌, String, Option, none, some, List, get_or, Eq, ltb, if◌then◌else◌}
use evolve_loop.Evolve.Signal.{SignalType, Severity, ScopeKind, ScopeClass, PatternKind}
use evolve_loop.Evolve.Need.{NeedCandidate}
use evolve_loop.Evolve.Host.{Host}

pub data NeedLifecycle : Type 0 where
  observed emerging established stale resolved reopened remains_active regressed : NeedLifecycle

instance unfoldable pub need_lifecycle_eq : Eq NeedLifecycle
need_lifecycle_eq = record { dec = hlevel }

pub data OutcomeKind : Type 0 where
  improved unchanged regressed inconclusive : OutcomeKind

instance unfoldable pub outcome_kind_eq : Eq OutcomeKind
outcome_kind_eq = record { dec = hlevel }

pub data WindowPreset : Type 0 where
  day week month custom : WindowPreset

pub record LifecycleHistoryEntry : Type 0 where
  pub at : String
  pub from : NeedLifecycle
  pub to : NeedLifecycle
  pub reason : String

pub record LongitudinalNeed : Type 0 where
  pub candidate : NeedCandidate
  pub open candidate use *
  pub lifecycle : NeedLifecycle
  pub affected_executions : List String
  pub affected_sessions : List String
  pub unique_executions : ℕ
  pub unique_sessions : ℕ
  pub lifecycle_history : List LifecycleHistoryEntry

pub record LongitudinalPattern : Type 0 where
  pub id : String
  pub fingerprint : String
  pub kind : PatternKind
  pub scope : ScopeKind
  pub scope_class : ScopeClass
  pub scope_id : String
  pub domain : String
  pub task_class : String
  pub frequency : ℕ
  pub unique_executions : ℕ
  pub unique_sessions : ℕ
  pub source_diversity : ℕ
  pub signal_ids : List String
  pub impact : Severity
  pub first_seen : String
  pub last_seen : String

pub data AnalysisScopeType : Type 0 where
  user project workspace system : AnalysisScopeType

abbrev pub analysis_scope_type_name : AnalysisScopeType → String
analysis_scope_type_name user = "USER"
analysis_scope_type_name project = "PROJECT"
analysis_scope_type_name workspace = "WORKSPACE"
analysis_scope_type_name system = "SYSTEM"

pub record AnalysisScope : Type 0 where
  pub type : AnalysisScopeType
  pub id : String

-- The time of a query is an argument of it.
pub record SignalQuery : Type 0 where
  pub user_id : Option String
  pub project_id : Option String
  pub feature_id : Option String
  pub domain : Option String
  pub task_class : Option String
  pub type : Option SignalType
  pub source : Option String
  pub fingerprint : Option String
  pub since : Option String
  pub until : Option String
  pub window : Option WindowPreset
  pub custom_hours : Option ℕ
  pub limit : ℕ

abbrev pub max_signals_retained : ℕ
max_signals_retained = 10000

unfoldable pub hours_for_window : WindowPreset → (custom_hours : Option ℕ) → ℕ
hours_for_window day hours = 24
hours_for_window week hours = 168
hours_for_window month hours = 720
hours_for_window custom hours = get_or hours 168

-- Five minutes ahead of the clock are allowed.
abbrev pub not_future : ℕ → ℕ → Option ℕ
not_future now ms = if ltb (now + 300000) ms then none else some ms

unfoldable pub parse_timestamp : Host → String → (now : ℕ) → Option ℕ
parse_timestamp h ts now = elim (h.parse_time ts) [ none ↦ none | some ms ↦ not_future now ms ]
