-- ===== src/Evolve/Windows.antt =====
-- evolveloop/live/observation-window.ts: the windows in which signals are collected after a change. What
-- `persist` appends to the file is not kept.
pub mod Sampled
use evolve_loop.Base.{
  ℕ, ◌+◌, ◌-◌, String, ◌<>◌, Bool, true, false, ◌||◌, ◌&&◌, not, Option, none, some, List, [], ◌∷◌,
  ◌++◌, lookup, length, leb, ltb, get_or, ◌==◌, if◌then◌else◌, string_eq, Eq,
}
use evolve_loop.Evidence.Builders.{truthy}
use evolve_loop.Evolve.Signal.{NeedSignal, SignalType}
use evolve_loop.Evolve.Host.{Host, join}
use evolve_loop.Evolve.Longitudinal.{
  AnalysisScope, user, project, workspace, system, LongitudinalNeed, OutcomeKind, outcome_kind_eq,
}

pub data WindowStatus : Type 0 where
  opened closed evaluated inconclusive_closed : WindowStatus

instance unfoldable pub window_status_eq : Eq WindowStatus
window_status_eq = record { dec = hlevel }

pub record ObservationWindow : Type 0 where
  pub id : String
  pub evolution_request_id : String
  pub candidate_id : String
  pub need : LongitudinalNeed
  pub scope : AnalysisScope
  pub domain : String
  pub task_class : String
  pub start : String
  pub end : Option String
  pub minimum_samples : ℕ
  pub max_duration_ms : ℕ
  pub status : WindowStatus
  pub before_signals : List NeedSignal
  pub after_signals : List NeedSignal
  pub implementation_id : Option String

pub record OpenInput : Type 0 where
  pub evolution_request_id : String
  pub candidate_id : String
  pub need : LongitudinalNeed
  pub scope : AnalysisScope
  pub before_signals : List NeedSignal
  pub implementation_id : Option String

abbrev pub first_or : String → List String → String
first_or d [] = d
first_or d (x ∷ xs) = x

-- `minimum` and `duration` are the manager's defaults; `at` is the time as a text.
unfoldable pub open_window :
    Host
    → (minimum duration : ℕ) → (at : String) → OpenInput
    → List ObservationWindow
    → ObservationWindow × List ObservationWindow
open_window h minimum duration at i ws =
    let w : ObservationWindow = record {
      id = "ow-" <> h.digest 12 (join "|" (i.evolution_request_id ∷ i.candidate_id ∷ at ∷ []));
      evolution_request_id = i.evolution_request_id;
      candidate_id = i.candidate_id;
      need = i.need;
      scope = i.scope;
      domain = i.need.domain;
      task_class = first_or "unknown" i.need.affected_tasks;
      start = at;
      end = none;
      minimum_samples = minimum;
      max_duration_ms = duration;
      status = opened;
      before_signals = i.before_signals;
      after_signals = [];
      implementation_id = i.implementation_id;
    } in
    (w, ws ++ w ∷ [])

abbrev pub is_text : Option String → String → Bool
is_text none t = false
is_text (some s) t = s == t

unfoldable pub scope_matches : AnalysisScope → NeedSignal → Bool
scope_matches scope s = elim scope.type [
  | user ↦ is_text s.user_id scope.id
  | project ↦ is_text s.project_id scope.id
  | workspace ↦ is_text s.feature_id scope.id
  | system ↦ true
]

-- `type.startsWith("post_evolution_")`
abbrev pub is_post_evolution : SignalType → Bool
is_post_evolution SignalType.post_evolution_improvement = true
is_post_evolution SignalType.post_evolution_regression = true
is_post_evolution SignalType.post_evolution_no_change = true
is_post_evolution SignalType.post_evolution_unknown = true
is_post_evolution _ = false

-- The signal counts for the window.
unfoldable pub counts_for : ObservationWindow → NeedSignal → Bool
unfolding scope_matches
counts_for w s =
    scope_matches w.scope s
    && s.domain == w.domain
    && s.task_class == w.task_class
    && not (is_post_evolution s.type)
    && not (truthy (lookup "ephemeral_feedback" s.metadata))

-- `now - start >= duration`, which does not hold where the start is no time.
abbrev pub is_over : Host → (now : ℕ) → ObservationWindow → Bool
is_over h now w = elim (h.parse_time w.start) [
  | none ↦ false
  | some t ↦ leb (t + w.max_duration_ms) now
]

abbrev pub take_sample : NeedSignal → ObservationWindow → ObservationWindow
take_sample s w = record w { after_signals = w.after_signals ++ s ∷ [] }

abbrev pub close_window : (at : String) → ObservationWindow → ObservationWindow
close_window at w = record w { status = closed; end = some at }

-- One window.
unfoldable pub observe_window :
    Host → (now : ℕ) → (at : String) → NeedSignal → ObservationWindow → ObservationWindow
unfolding counts_for
observe_window h now at s w =
    if not (w.status == opened) || not (counts_for w s)
    then w
    else if leb w.minimum_samples (length (take_sample s w).after_signals) || is_over h now w
    then close_window at (take_sample s w)
    else take_sample s w

-- All windows after the signal.
unfoldable pub observe_signal :
    Host → (now : ℕ) → (at : String) → NeedSignal → List ObservationWindow → List ObservationWindow
unfolding observe_window
observe_signal h now at s [] = []
observe_signal h now at s (w ∷ ws) = observe_window h now at s w ∷ observe_signal h now at s ws

-- `outcome` is that of recordOutcome for the window. A window that is not closed is not evaluated.
unfoldable pub evaluate_closed : OutcomeKind → ObservationWindow → Option ObservationWindow
evaluate_closed outcome w =
    if not (w.status == closed)
    then none
    else some (record w {
      status = if outcome == OutcomeKind.inconclusive then inconclusive_closed else evaluated;
    })
