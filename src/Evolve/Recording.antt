-- ===== src/Evolve/Recording.antt =====
-- evolveloop/longitudinal-controller.ts: ingest and recordOutcome. The store is its signals, its needs and
-- its outcomes.
pub mod Told
use evolve_loop.Base.{
  ℕ, String, ◌<>◌, Bool, true, Option, none, some, List, [], ◌∷◌, ◌++◌, map, get_or, ◌==◌,
  if◌then◌else◌, string_eq,
}
use evolve_loop.Evolve.Signal.{
  NeedSignal, RawObservation, SignalType, Severity, ScopeKind, scope_kind_eq,
}
use evolve_loop.Evolve.Host.{Host}
use evolve_loop.Evolve.Longitudinal.{
  OutcomeKind, NeedLifecycle, need_lifecycle_eq, LongitudinalNeed,
}
use evolve_loop.Evolve.Miner.{mine}
use evolve_loop.Evolve.Store.{SignalStore, Written, append_signals}
use evolve_loop.Evolve.Outcome.{Rates, OutcomeInput, EvolutionOutcome, evaluate}

pub record LoopStore : Type 0 where
  pub signals : SignalStore
  pub needs : List LongitudinalNeed
  pub outcomes : List EvolutionOutcome

unfoldable pub ingest : Host → (now : ℕ) → List RawObservation → SignalStore → SignalStore × Written
unfolding mine append_signals
ingest h now observations s = append_signals h now (mine h [] observations).0 s

abbrev pub outcome_to_signal : OutcomeKind → SignalType
outcome_to_signal OutcomeKind.improved = SignalType.post_evolution_improvement
outcome_to_signal OutcomeKind.unchanged = SignalType.post_evolution_no_change
outcome_to_signal OutcomeKind.regressed = SignalType.post_evolution_regression
outcome_to_signal OutcomeKind.inconclusive = SignalType.post_evolution_unknown

abbrev pub outcome_kind_name : OutcomeKind → String
outcome_kind_name OutcomeKind.improved = "IMPROVED"
outcome_kind_name OutcomeKind.unchanged = "UNCHANGED"
outcome_kind_name OutcomeKind.regressed = "REGRESSED"
outcome_kind_name OutcomeKind.inconclusive = "INCONCLUSIVE"

-- The need of the outcome has its state from it; the others stay.
unfoldable pub update_need :
    OutcomeInput → OutcomeKind → NeedLifecycle → LongitudinalNeed → LongitudinalNeed
update_need i kind to n =
    if n.id == i.need.id
    then record (record n {
      lifecycle = to;
      lifecycle_history =
          if n.lifecycle == to
          then n.lifecycle_history
          else n.lifecycle_history
            ++ record {
              at = i.window_end;
              from = n.lifecycle;
              to = to;
              reason = "outcome:" <> outcome_kind_name kind;
            }
              ∷ [];
    }) { candidate = record n.candidate { last_seen = i.window_end } }
    else n

abbrev pub of_scope : ScopeKind → LongitudinalNeed → Option String
of_scope k n = if n.scope == k then some n.scope_id else none

abbrev pub first_task : List String → String
first_task [] = "unknown"
first_task (t ∷ ts) = t

-- The observation that an outcome leaves.
abbrev pub feedback_of : OutcomeInput → EvolutionOutcome → RawObservation
feedback_of i o = record {
  id = "post-evo-" <> o.id;
  timestamp = i.window_end;
  source = "system";
  synthetic = some true;
  execution_id = some ("outcome-" <> o.id);
  feature_id = of_scope ScopeKind.workspace i.need;
  user_id = of_scope ScopeKind.user i.need;
  project_id = of_scope ScopeKind.project i.need;
  domain = some i.need.domain;
  task_class = some (first_task i.need.affected_tasks);
  kind = outcome_to_signal o.outcome;
  severity = some Severity.info;
  metadata = some (
      ("post_evolution", "true")
      ∷ ("post_evolution_outcome", outcome_kind_name o.outcome)
      ∷ ("observation_class", "SYNTHETIC")
      ∷ ("need_id", i.need.id)
      ∷ ("need_fingerprint", i.need.fingerprint)
      ∷ ("outcome_id", o.id)
      ∷ []);
  evidence_refs = none;
}

-- The end of the window is the time of the ingestion; where it is no time, the feedback is refused.
unfoldable pub record_outcome :
    Host
    → Rates
    → (now : String) → OutcomeInput
    → LoopStore
    → (EvolutionOutcome × NeedLifecycle) × LoopStore
unfolding evaluate ingest update_need
record_outcome h r now i s =
    let (o, to) = evaluate h r now i in
    (
      (o, to),
      record {
        signals =
            (ingest h (get_or (h.parse_time i.window_end) 0) (feedback_of i o ∷ []) s.signals).0;
        needs = map (update_need i o.outcome to) s.needs;
        outcomes = s.outcomes ++ o ∷ [];
      },
    )
