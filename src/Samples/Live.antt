-- ===== src/Samples/Live.antt =====
-- A cadence and a store of the live loop, and the theorems about them.
use evolve_loop.Base.{
  ℕ, arith, ◌≤◌, ◌+◌, ◌≡◌, ◌⊎◌, refl, Bool, true, false, none, some, List, [], ◌∷◌, All, length,
  nat_eq, string_eq,
}
use evolve_loop.Evolve.Signal.{NeedSignal}
use evolve_loop.Evolve.Need.{EvolutionRequest}
use evolve_loop.Evolve.Longitudinal.{AnalysisScope, AnalysisScopeType, max_signals_retained}
use evolve_loop.Evolve.Miner.{mine}
use evolve_loop.Evolve.Controller.{run_pass}
use evolve_loop.Evolve.Cadence.{
  Cadence, Trigger, live_cadence_defaults, new_cadence, prune_analyze_log, record_signal,
  should_analyze, record_analyze, filter_requests,
}
use evolve_loop.Evolve.Cadence.Paced.{
  Live, start, signalled, asked, analyzed, within_minute, rate_limited,
}
use evolve_loop.Evolve.Cadence.Filtered.{Passed, filter_requests-Passed}
use evolve_loop.Evolve.Store.{SignalStore, append_signals}
use evolve_loop.Evolve.Store.Indexed.{IsIndexed, append_signals-IsIndexed}
use evolve_loop.Evolve.Pacing.{
  AnalysisCadenceOptions, AnalysisCadence, should_analyze_store, record_analyze_store,
}
use evolve_loop.Evolve.Pacing.Full.{should_analyze_store-room}
use evolve_loop.Evolve.Scoping.{AnalyzeOptions, signals_to_analyze}
use evolve_loop.Evolve.Scoping.Isolated.{Granted, BelongsTo, signals_to_analyze-BelongsTo}
use evolve_loop.Samples.Evolution.{host, observations, options, empty_memory}

abbrev pub signals : List NeedSignal
signals = (mine host [] observations).0

abbrev pub ana : AnalysisScope
ana = record { type = AnalysisScopeType.user; id = "ana" }

abbrev calm : Trigger
calm = record { high_severity = false; after_outcome = false }

abbrev three_new : Cadence
three_new = record_signal ana 3 new_cadence

abbrev asked_at : ℕ → Bool × Cadence
asked_at t = should_analyze live_cadence_defaults ana calm t three_new

-- With three new signals an analysis is made at once.
first_analysis :
    Live live_cadence_defaults 100 (100 ∷ []) false (record_analyze ana none 100 (asked_at 100).1)
unfolding should_analyze record_signal string_eq
first_analysis =
    analyzed ana none 100 (omega arith) (asked ana calm 100 (omega arith) (signalled ana 3 start))

rate_limited_example : within_minute 100 (100 ∷ []) ≤ live_cadence_defaults.max_analyses_per_minute
rate_limited_example =
    rate_limited live_cadence_defaults 100 (100 ∷ []) false
      (record_analyze ana none 100 (asked_at 100).1) first_analysis

-- An old time behind a recent one stays.
prune_stops : prune_analyze_log 100000 (0 ∷ 90000 ∷ 0 ∷ []) ≡ 90000 ∷ 0 ∷ []
unfolding prune_analyze_log
prune_stops = refl

abbrev pub requests : List EvolutionRequest
requests = (run_pass host options empty_memory observations).0.tally.requests

filter_requests-Passed_example :
    Passed live_cadence_defaults 2000 []
      (filter_requests live_cadence_defaults 2000 new_cadence requests).0
      (filter_requests live_cadence_defaults 2000 new_cadence requests).1.request_history
filter_requests-Passed_example =
    filter_requests-Passed live_cadence_defaults 2000 new_cadence requests

abbrev empty_store : SignalStore
empty_store = record { signals = []; fingerprints = [] }

abbrev pub stored : SignalStore
stored = (append_signals host 2000 signals empty_store).0

empty_store-IsIndexed : IsIndexed empty_store
empty_store-IsIndexed = record { index = refl; distinct = tt }

append_signals-IsIndexed_example :
    IsIndexed stored
    × (length stored.signals ≤ max_signals_retained)
    × ((append_signals host 2000 signals empty_store).1.written
          + (append_signals host 2000 signals empty_store).1.skipped
          + (append_signals host 2000 signals empty_store).1.rejected
        ≡ length signals)
append_signals-IsIndexed_example =
    append_signals-IsIndexed host 2000 signals empty_store empty_store-IsIndexed

abbrev pub pacing : AnalysisCadenceOptions
pacing = record { min_new_signals = 3; cooldown_ms = 60000; max_requests_per_need = 1 }

abbrev pub idle : AnalysisCadence
idle = record { last_analyze_at = none; signal_count_at_last_analyze = 0; request_history = [] }

-- Three signals came since the analysis of the empty store.
enough_new :
    should_analyze_store pacing
      (append_signals host 2000 signals empty_store).0
      none
      70000
      (record_analyze_store (some empty_store) 100 idle)
    ≡ true
unfolding should_analyze_store record_analyze_store append_signals mine string_eq
enough_new = refl

should_analyze_store-room_example :
    length empty_store.fingerprints + pacing.min_new_signals ≤ max_signals_retained
should_analyze_store-room_example =
    should_analyze_store-room host pacing empty_store signals none 2000 100 70000 idle
      empty_store-IsIndexed enough_new

abbrev of_ana : AnalyzeOptions
of_ana = record {
  scope = some ana;
  user_id = none;
  project_id = none;
  authorize_system = false;
  window = none;
}

signals_to_analyze-BelongsTo_example :
    (signals_to_analyze host 2000 none of_ana stored ≡ [])
    ⊎ ((scope : AnalysisScope) × Granted false scope
        × All (BelongsTo scope) (signals_to_analyze host 2000 none of_ana stored))
signals_to_analyze-BelongsTo_example = signals_to_analyze-BelongsTo host 2000 none of_ana stored
