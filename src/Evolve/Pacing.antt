-- ===== src/Evolve/Pacing.antt =====
-- evolveloop/cadence.ts: when the signals of a store are analyzed, and which requests pass then. Times are
-- in milliseconds.
pub mod Seeded
pub mod Full
use evolve_loop.Base.{
  ℕ, ◌+◌, String, Bool, false, Option, none, some, List, [], ◌∷◌, Dict, lookup, insert, length, leb,
  ltb, if◌then◌else◌, string_eq,
}
use evolve_loop.Evolve.Need.{EvolutionRequest}
use evolve_loop.Evolve.Longitudinal.{LongitudinalNeed}
use evolve_loop.Evolve.Store.{SignalStore}
use evolve_loop.Evolve.Cadence.{CadenceConfig, live_cadence_defaults, RequestHistory, filter_each}

pub record AnalysisCadenceOptions : Type 0 where
  pub min_new_signals : ℕ
  pub cooldown_ms : ℕ
  pub max_requests_per_need : ℕ

pub record AnalysisCadence : Type 0 where
  pub last_analyze_at : Option ℕ
  pub signal_count_at_last_analyze : ℕ
  pub request_history : Dict RequestHistory

-- A time that is given goes before the one that was noted.
abbrev pub last_analysis : Option ℕ → AnalysisCadence → Option ℕ
last_analysis none s = s.last_analyze_at
last_analysis (some t) s = some t

abbrev pub cools_down : AnalysisCadenceOptions → (now : ℕ) → Option ℕ → Bool
cools_down c now none = false
cools_down c now (some last) = ltb now (last + c.cooldown_ms)

unfoldable pub should_analyze_store :
    AnalysisCadenceOptions → SignalStore → (given : Option ℕ) → (now : ℕ) → AnalysisCadence → Bool
should_analyze_store c store given now s =
    if cools_down c now (last_analysis given s)
    then false
    else leb (s.signal_count_at_last_analyze + c.min_new_signals) (length store.fingerprints)

abbrev pub count_of : Option SignalStore → (old : ℕ) → ℕ
count_of none old = old
count_of (some store) old = length store.fingerprints

unfoldable pub record_analyze_store :
    Option SignalStore → (at : ℕ) → AnalysisCadence → AnalysisCadence
record_analyze_store store at s = record s {
  last_analyze_at = some at;
  signal_count_at_last_analyze = count_of store s.signal_count_at_last_analyze;
}

abbrev pub no_requests : RequestHistory
no_requests = record { last_at = 0; count = 0 }

-- The history knows each need of the store.
unfoldable pub seed_history : List LongitudinalNeed → Dict RequestHistory → Dict RequestHistory
seed_history [] m = m
seed_history (n ∷ ns) m =
    seed_history ns
      (elim (lookup n.fingerprint m) [ some h ↦ m | none ↦ insert n.fingerprint no_requests m ])

-- The loop over the requests is that of scoped-cadence.ts, with these two settings.
abbrev pub request_limits : AnalysisCadenceOptions → CadenceConfig
request_limits c = record live_cadence_defaults {
  cooldown_ms = c.cooldown_ms;
  max_requests_per_need = c.max_requests_per_need;
}

-- `needs` are those of the store that is given, if any.
unfoldable pub filter_seeded_requests :
    AnalysisCadenceOptions
    → (now : ℕ) → (needs : List LongitudinalNeed) → AnalysisCadence
    → List EvolutionRequest
    → List EvolutionRequest × AnalysisCadence
unfolding filter_each seed_history
filter_seeded_requests c now needs s rs =
    let (out, last) =
      filter_each (request_limits c) now [] (seed_history needs s.request_history) rs in
    (out, record s { request_history = last })
