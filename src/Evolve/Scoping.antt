-- ===== src/Evolve/Scoping.antt =====
-- evolveloop/longitudinal-controller.ts: whose signals an analysis may read.
pub mod Isolated
use evolve_loop.Base.{
  ℕ, String, ◌<>◌, Bool, true, false, ◌||◌, not, Option, none, some, List, [], ◌∷◌, get_or, ◌==◌,
  if◌then◌else◌, string_eq,
}
use evolve_loop.Evidence.Builders.{truthy}
use evolve_loop.Evolve.Signal.{NeedSignal}
use evolve_loop.Evolve.Host.{Host}
use evolve_loop.Evolve.Longitudinal.{
  AnalysisScope, AnalysisScopeType, user, project, workspace, system, SignalQuery, WindowPreset,
  week,
}
use evolve_loop.Evolve.Store.{SignalStore, query}

-- The options of `analyze` that name a scope.
pub record AnalyzeOptions : Type 0 where
  pub scope : Option AnalysisScope
  pub user_id : Option String
  pub project_id : Option String
  pub authorize_system : Bool
  pub window : Option WindowPreset

-- A scope with the note for the audit, or the state in which the analysis ends.
pub data ScopeResolve : Type 0 where
  resolved : AnalysisScope → Option String → ScopeResolve
  invalid_scope requires_scope system_requires_authorization : ScopeResolve

abbrev pub resolve_given : Bool → AnalysisScope → ScopeResolve
resolve_given authorized scope = elim scope.type [
  | system ↦
      if authorized
      then resolved scope (some ("audit:system_scope_authorized:" <> scope.id))
      else system_requires_authorization
  | _ ↦ resolved scope none
]

abbrev pub resolve_legacy : AnalyzeOptions → ScopeResolve
resolve_legacy o =
    if truthy o.user_id
    then resolved (record { type = user; id = get_or o.user_id "" }) none
    else if truthy o.project_id
    then resolved (record { type = project; id = get_or o.project_id "" }) none
    else requires_scope

unfoldable pub resolve_analysis_scope : AnalyzeOptions → ScopeResolve
resolve_analysis_scope o = elim o.scope [
  | none ↦ resolve_legacy o
  | some scope ↦ if scope.id == "" then invalid_scope else resolve_given o.authorize_system scope
]

abbrev pub any_signal : WindowPreset → SignalQuery
any_signal w = record {
  user_id = none;
  project_id = none;
  feature_id = none;
  domain = none;
  task_class = none;
  type = none;
  source = none;
  fingerprint = none;
  since = none;
  until = none;
  window = some w;
  custom_hours = none;
  limit = 0;
}

unfoldable pub scope_to_query : AnalysisScope → WindowPreset → SignalQuery
scope_to_query scope w = elim scope.type [
  | user ↦ record (any_signal w) { user_id = some scope.id }
  | project ↦ record (any_signal w) { project_id = some scope.id }
  | workspace ↦ record (any_signal w) { feature_id = some scope.id }
  | system ↦ any_signal w
]

-- The signals that `analyze` reads. `preset` is the window of the controller's options.
unfoldable pub signals_to_analyze :
    Host
    → (now : ℕ) → (preset : Option WindowPreset) → AnalyzeOptions
    → SignalStore
    → List NeedSignal
unfolding resolve_analysis_scope scope_to_query query
signals_to_analyze h now preset o s = elim (resolve_analysis_scope o) [
  | resolved scope audit ↦
      query h now (scope_to_query scope (get_or o.window (get_or preset week))) s
  | _ ↦ []
]
