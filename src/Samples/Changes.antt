-- ===== src/Samples/Changes.antt =====
-- A need, the window after a change for it, and a gate, and the theorems about them.
use mathlib.Core.List.Memᴰ
use evolve_loop.Base.{
  inr, ℕ, ltb, ◌*◌, arith, ◌≡◌, refl, true, false, none, some, String, List, [], ◌∷◌, ◌++◌, All,
  nat_eq, string_eq,
}
use evolve_loop.Evolve.Signal.{NeedSignal, Severity, ScopeKind, ScopeClass, PatternKind}
use evolve_loop.Evolve.Need.{Level, NeedStatus}
use evolve_loop.Evolve.Longitudinal.{NeedLifecycle, LongitudinalNeed, LongitudinalPattern}
use evolve_loop.Evolve.Miner.{signal_of}
use evolve_loop.Evolve.Pacing.{filter_seeded_requests}
use evolve_loop.Evolve.Pacing.Seeded.{filter_seeded_requests-unseeded}
use evolve_loop.Evolve.Recording.{LoopStore, feedback_of, record_outcome}
use evolve_loop.Evolve.Recording.Told.{AllTold, record_outcome-AllTold, feedback_of-uncounted}
use evolve_loop.Evolve.Outcome.{Rates, OutcomeInput, EvolutionOutcome, is_failure, evaluate}
use evolve_loop.Evolve.Outcome.Measured.{Measured, evaluate-Measured}
use evolve_loop.Evolve.Windows.{
  ObservationWindow, OpenInput, open_window, observe_window, counts_for,
}
use evolve_loop.Evolve.Windows.Sampled.{born, sees, IsSampled, WindowLife-IsSampled}
use evolve_loop.Evolve.Gates.{RawGate, IngestInput, read_gate_result, ingest_gate_result}
use evolve_loop.Evolve.Gates.Trusted.{Trusted, ingest_gate_result-Trusted}
use evolve_loop.Evolve.Lifecycle.{lifecycle_fingerprint}
use evolve_loop.Evolve.Lifecycle.Detect.{need_for, outcome_for, is_listed, detect_lifecycles}
use evolve_loop.Evolve.Lifecycle.Decided.{detect_lifecycles-keeps}
use evolve_loop.Evolve.Lifecycle.Follows.{IsLatest, Follows, need_for-Follows}
use evolve_loop.Samples.Evolution.{host, observation}
use evolve_loop.Samples.Live.{signals, ana, stored, requests, pacing, idle}

abbrev need : LongitudinalNeed
need = record {
  candidate = record {
    id = "lneed-1";
    fingerprint = "1";
    scope = ScopeKind.user;
    scope_class = ScopeClass.user_local;
    scope_id = "ana";
    domain = "frontend";
    type = PatternKind.repeated_failure;
    recurrence = 3;
    impact = Severity.medium;
    affected_tasks = "build" ∷ [];
    evidence = [];
    pattern_ids = [];
    signal_ids = [];
    confidence = Level.medium;
    suspected_root_causes = [];
    first_seen = "2026-01-01";
    last_seen = "2026-01-01";
    status = NeedStatus.candidate;
  };
  lifecycle = NeedLifecycle.established;
  affected_executions = [];
  affected_sessions = [];
  unique_executions = 3;
  unique_sessions = 1;
  lifecycle_history = [];
}

filter_seeded_requests-unseeded_example :
    (filter_seeded_requests pacing 2000 (need ∷ []) idle requests).0
    ≡ (filter_seeded_requests pacing 2000 [] idle requests).0
filter_seeded_requests-unseeded_example =
    filter_seeded_requests-unseeded pacing 2000 (need ∷ []) idle requests (omega arith)

-- Rates are compared as fractions.
abbrev exact_rates : Rates
exact_rates = record {
  fell = λ fb tb fa ta. ltb (2 * fa * tb) (fb * ta);
  rose = λ fb tb fa ta. ltb (6 * fb * ta) (5 * fa * tb);
}

abbrev input : OutcomeInput
input = record {
  evolution_request_id = "er-1";
  candidate_id = "cand-1";
  need = need;
  signals_before = signals;
  signals_after = signals;
  implementation_id = none;
  window_start = "2026-01-01";
  window_end = "2026-01-02";
}

abbrev outcome : EvolutionOutcome
outcome = (evaluate host exact_rates "2026-01-02" input).0

evaluate-Measured_example :
    Measured outcome.outcome
      (evaluate host exact_rates "2026-01-02" input).1
      outcome.sample_size_after
evaluate-Measured_example = evaluate-Measured host exact_rates "2026-01-02" input

abbrev kept_store : LoopStore
kept_store = record { signals = stored; needs = need ∷ []; outcomes = [] }

record_outcome-AllTold_example :
    AllTold input
      (record_outcome host exact_rates "2026-01-02" input kept_store).0.0.outcome
      (record_outcome host exact_rates "2026-01-02" input kept_store).0.1
      (need ∷ [])
      (record_outcome host exact_rates "2026-01-02" input kept_store).1.needs
    × ((record_outcome host exact_rates "2026-01-02" input kept_store).1.outcomes
        ≡ [] ++ (record_outcome host exact_rates "2026-01-02" input kept_store).0.0 ∷ [])
record_outcome-AllTold_example =
    record_outcome-AllTold host exact_rates "2026-01-02" input kept_store

abbrev change : OpenInput
change = record {
  evolution_request_id = "er-1";
  candidate_id = "cand-1";
  need = need;
  scope = ana;
  before_signals = signals;
  implementation_id = none;
}

abbrev opened_window : ObservationWindow
opened_window = (open_window host 2 3600000 "2026-01-01" change []).0

abbrev later_signal : NeedSignal
later_signal = signal_of host (observation "e4")

WindowLife-IsSampled_example :
    IsSampled (observe_window host 2000 "2026-01-02" later_signal opened_window)
WindowLife-IsSampled_example =
    WindowLife-IsSampled host (observe_window host 2000 "2026-01-02" later_signal opened_window)
      (sees 2000 "2026-01-02" later_signal (born 2 3600000 "2026-01-01" change []))

feedback_of-uncounted_example :
    (counts_for opened_window (signal_of host (feedback_of input outcome)) ≡ false)
    × (is_failure (signal_of host (feedback_of input outcome)) ≡ false)
feedback_of-uncounted_example = feedback_of-uncounted host input outcome opened_window

abbrev approval : RawGate
approval = record {
  decision = some "APPROVED";
  gate_source = none;
  gate_source_kind = some "external_adapter";
  note = none;
  controlled_fixture = false;
  external_adapter = false;
  timestamp = some "2026-01-01";
  at = none;
  gate_run_id = none;
  implementation_id = none;
  reason = none;
}

abbrev asked : IngestInput
asked = record {
  request_id = "er-1";
  need = some need;
  scope = some ana;
  before_signals = none;
  candidate_id = none;
  evolution_request_id = none;
}

ingest_gate_result-Trusted_example :
    Trusted asked []
      (read_gate_result "2026-01-01" "er-1" (some approval))
      (ingest_gate_result host 2 3600000 "2026-01-01" asked [] (some approval))
ingest_gate_result-Trusted_example =
    ingest_gate_result-Trusted host 2 3600000 "2026-01-01" asked [] (some approval)

abbrev seen_again : LongitudinalPattern
seen_again = record {
  id = "p-1";
  fingerprint = "f-1";
  kind = PatternKind.repeated_failure;
  scope = ScopeKind.user;
  scope_class = ScopeClass.user_local;
  scope_id = "ana";
  domain = "frontend";
  task_class = "build";
  frequency = 5;
  unique_executions = 5;
  unique_sessions = 2;
  source_diversity = 2;
  signal_ids = [];
  impact = Severity.medium;
  first_seen = "2026-01-01";
  last_seen = "2026-01-02";
}

abbrev no_ids : String → ℕ → List String
no_ids p n = []

need_for-Follows_example :
    (l : EvolutionOutcome) × IsLatest host
      (some need.id)
      (lifecycle_fingerprint host seen_again)
      (outcome ∷ [])
      l
    × Follows l.outcome
        (need_for host no_ids 2000 "2026-01-02"
          (some need)
          (outcome_for host no_ids 2000 "2026-01-02" (outcome ∷ []) (some need) seen_again)
          seen_again).lifecycle
unfolding evaluate
need_for-Follows_example =
    need_for-Follows host no_ids 2000 "2026-01-02" (some need) seen_again (outcome ∷ []) outcome
      (Memᴰ.head refl) (inr refl)

detect_lifecycles-keeps_example :
    All
      (λ n.
        is_listed host no_ids 2000 "2026-01-02"
          (detect_lifecycles host no_ids 2000 "2026-01-02"
            (seen_again ∷ [])
            (need ∷ [])
            (outcome ∷ []))
          n
        ≡ true)
      (need ∷ [])
detect_lifecycles-keeps_example =
    detect_lifecycles-keeps host no_ids 2000 "2026-01-02" (outcome ∷ []) (seen_again ∷ [])
      (need ∷ [])
