-- ===== src/Evolve/Miner.antt =====
-- evolveloop/signal-miner.ts: observations become signals, each logical event once. `seen` is the map of
-- the fingerprints so far.
pub mod Once
use evolve_loop.Base.{
  ℕ, String, ◌<>◌, Bool, true, false, ◌&&◌, not, Option, none, some, List, [], ◌∷◌, ◌++◌, Dict,
  lookup, insert, get_or, string_eq, if◌then◌else◌, length,
}
use evolve_loop.Evidence.Builders.{truthy}
use evolve_loop.Evolve.Signal.{
  Severity, SignalType, Scope, ScopeKind, RawObservation, NeedSignal, scope_kind_name,
  signal_type_name,
}
use evolve_loop.Evolve.Host.{Host, hash}

unfoldable pub infer_scope : RawObservation → Scope
infer_scope o =
    if truthy o.user_id && not (truthy o.project_id)
    then record { type = ScopeKind.user; id = get_or o.user_id "" }
    else if truthy o.project_id
    then record { type = ScopeKind.project; id = get_or o.project_id "" }
    else if truthy o.feature_id
    then record { type = ScopeKind.workspace; id = get_or o.feature_id "" }
    else record { type = ScopeKind.system; id = "system" }

unfoldable pub default_severity : SignalType → Severity
default_severity SignalType.failure = Severity.high
default_severity SignalType.capability_unavailable = Severity.high
default_severity SignalType.policy_block = Severity.high
default_severity SignalType.retry = Severity.medium
default_severity SignalType.human_intervention = Severity.medium
default_severity SignalType.correction = Severity.medium
default_severity SignalType.skill_failure = Severity.medium
default_severity SignalType.excessive_steps = Severity.low
default_severity SignalType.latency = Severity.low
default_severity SignalType.eval_gap = Severity.low
default_severity SignalType.knowledge_gap = Severity.low
default_severity _ = Severity.info

module _ (h : Host) where
  abbrev pub event_fingerprint : RawObservation → String
  event_fingerprint o =
      let scope = infer_scope o in
      hash h (
        signal_type_name o.kind
        ∷ get_or o.domain "unknown"
        ∷ get_or o.task_class "unknown"
        ∷ scope_kind_name scope.type
        ∷ scope.id
        ∷ get_or o.execution_id o.id
        ∷ o.source
        ∷ [])

  abbrev pub signal_of : RawObservation → NeedSignal
  signal_of o = record {
    id = "sig-" <> event_fingerprint o;
    fingerprint = event_fingerprint o;
    timestamp = o.timestamp;
    scope = infer_scope o;
    source = o.source;
    type = o.kind;
    domain = get_or o.domain "unknown";
    task_class = get_or o.task_class "unknown";
    severity = get_or o.severity (default_severity o.kind);
    evidence_refs = get_or o.evidence_refs [];
    execution_id = o.execution_id;
    feature_id = o.feature_id;
    user_id = o.user_id;
    project_id = o.project_id;
    synthetic = get_or o.synthetic false;
    metadata = get_or o.metadata [];
  }

  abbrev pub is_new_event : Dict NeedSignal → RawObservation → Bool
  is_new_event seen o = elim (lookup (event_fingerprint o) seen) [ some old ↦ false | none ↦ true ]

  -- The new signals with the map after them.
  unfoldable pub mine : Dict NeedSignal → List RawObservation → List NeedSignal × Dict NeedSignal
  unfolding infer_scope default_severity
  mine seen [] = ([], seen)
  mine seen (o ∷ os) =
      let fresh = is_new_event seen o in
      let (out, last) =
        mine (if fresh then insert (event_fingerprint o) (signal_of o) seen else seen) os in
      (if fresh then signal_of o ∷ out else out, last)
