-- ===== src/Evolve/Cadence.antt =====
-- evolveloop/live/scoped-cadence.ts with evolveloop/live/live-config.ts: when a scope may be analyzed, and
-- which requests pass. Times are in milliseconds.
pub mod Paced
pub mod Filtered
use evolve_loop.Base.{
  ℕ, ◌+◌, String, ◌<>◌, Bool, true, false, ◌||◌, ◌&&◌, not, Option, none, some, List, [], ◌∷◌, ◌++◌,
  Dict, lookup, insert, length, leb, ltb, get_or, contains, if◌then◌else◌, string_eq, ◌==◌,
}
use evolve_loop.Evolve.Need.{EvolutionRequest}
use evolve_loop.Evolve.Longitudinal.{AnalysisScope, analysis_scope_type_name}

pub record CadenceConfig : Type 0 where
  pub min_new_signals : ℕ
  pub min_new_signals_high_severity : ℕ
  pub cooldown_ms : ℕ
  pub max_requests_per_need : ℕ
  pub max_analyses_per_minute : ℕ
  pub max_loop_depth : ℕ
  pub window_minimum_samples : ℕ
  pub window_max_duration_ms : ℕ

abbrev pub live_cadence_defaults : CadenceConfig
live_cadence_defaults = record {
  min_new_signals = 3;
  min_new_signals_high_severity = 1;
  cooldown_ms = 60000;
  max_requests_per_need = 1;
  max_analyses_per_minute = 30;
  max_loop_depth = 2;
  window_minimum_samples = 2;
  window_max_duration_ms = 3600000;
}

abbrev pub analysis_key : AnalysisScope → String
analysis_key s = analysis_scope_type_name s.type <> ":" <> s.id

pub record ScopeState : Type 0 where
  pub last_analyze_at : Option ℕ
  pub signal_count_at_last_analyze : ℕ
  pub pending_new : ℕ

pub record RequestHistory : Type 0 where
  pub last_at : ℕ
  pub count : ℕ

pub record Cadence : Type 0 where
  pub scopes : Dict ScopeState
  pub request_history : Dict RequestHistory
  pub recent_analyze_at : List ℕ

abbrev pub new_cadence : Cadence
new_cadence = record { scopes = []; request_history = []; recent_analyze_at = [] }

abbrev pub new_scope_state : ScopeState
new_scope_state = record {
  last_analyze_at = none;
  signal_count_at_last_analyze = 0;
  pending_new = 0;
}

abbrev pub state_of : AnalysisScope → Cadence → ScopeState
state_of scope s = get_or (lookup (analysis_key scope) s.scopes) new_scope_state

unfoldable pub record_signal : AnalysisScope → (count : ℕ) → Cadence → Cadence
record_signal scope count s =
    let st = state_of scope s in
    record s {
      scopes =
          insert (analysis_key scope) (record st { pending_new = st.pending_new + count }) s.scopes;
    }

-- Drops times that are more than a minute ago from the front, up to the first that is not: that one and
-- all after it stay, old ones too.
unfoldable pub prune_analyze_log : (now : ℕ) → List ℕ → List ℕ
prune_analyze_log now [] = []
prune_analyze_log now (t ∷ ts) = if ltb (t + 60000) now then prune_analyze_log now ts else t ∷ ts

-- The options of shouldAnalyze but the time.
pub record Trigger : Type 0 where
  pub high_severity : Bool
  pub after_outcome : Bool

abbrev pub is_cooling : CadenceConfig → (now : ℕ) → ScopeState → Bool
is_cooling c now st = elim st.last_analyze_at [
  | none ↦ false
  | some last ↦ ltb now (last + c.cooldown_ms)
]

abbrev pub threshold : CadenceConfig → Trigger → ℕ
threshold c how = if how.high_severity then c.min_new_signals_high_severity else c.min_new_signals

abbrev pub pruned : (now : ℕ) → Cadence → Cadence
pruned now s = record s { recent_analyze_at = prune_analyze_log now s.recent_analyze_at }

-- The answer, with the log after it.
unfoldable pub should_analyze :
    CadenceConfig → AnalysisScope → Trigger → (now : ℕ) → Cadence → Bool × Cadence
unfolding prune_analyze_log
should_analyze c scope how now s = elim (lookup (analysis_key scope) s.scopes) [
  | none ↦ (false, s)
  | some st ↦
      if is_cooling c now st
      then (false, s)
      else if leb c.max_analyses_per_minute (length (pruned now s).recent_analyze_at)
      then (false, pruned now s)
      else if how.after_outcome
      then (true, pruned now s)
      else (leb (threshold c how) st.pending_new, pruned now s)
]

-- `fingerprints` is the number that the store has, where there is a store.
unfoldable pub record_analyze :
    AnalysisScope → (fingerprints : Option ℕ) → (at : ℕ) → Cadence → Cadence
record_analyze scope fingerprints at s =
    let st = state_of scope s in
    record s {
      scopes =
          insert (analysis_key scope)
            (record st {
              last_analyze_at = some at;
              pending_new = 0;
              signal_count_at_last_analyze = get_or fingerprints st.signal_count_at_last_analyze;
            })
            s.scopes;
      recent_analyze_at = s.recent_analyze_at ++ at ∷ [];
    }

-- A time of 0 is taken for no time.
unfoldable pub next_allowed_at : CadenceConfig → AnalysisScope → Cadence → Option ℕ
next_allowed_at c scope s = elim (state_of scope s).last_analyze_at [
  | none ↦ none
  | some last ↦ if ltb 0 last then some (last + c.cooldown_ms) else none
]

-- A request is held back where one for the need passed within the cooldown.
abbrev pub is_held : CadenceConfig → (now : ℕ) → Option RequestHistory → Bool
is_held c now none = false
is_held c now (some h) =
    (ltb now (h.last_at + c.cooldown_ms) && ltb 0 h.last_at)
    || (leb c.max_requests_per_need h.count && ltb now (h.last_at + c.cooldown_ms))

abbrev pub count_request : (now : ℕ) → String → Dict RequestHistory → Dict RequestHistory
count_request now need m =
    let prev = get_or (lookup need m) (record { last_at = 0; count = 0 }) in
    insert need (record { last_at = now; count = prev.count + 1 }) m

-- The loop of filterRequests: `seen` are the needs of the requests before.
unfoldable pub filter_each :
    CadenceConfig
    → (now : ℕ) → (seen : List String) → Dict RequestHistory
    → List EvolutionRequest
    → List EvolutionRequest × Dict RequestHistory
filter_each c now seen m [] = ([], m)
filter_each c now seen m (r ∷ rs) =
    let need = r.source_need in
    let skipped = contains seen need || is_held c now (lookup need m) in
    let (out, last) =
      filter_each c now (if contains seen need then seen else need ∷ seen)
        (if skipped then m else count_request now need m) rs in
    (if skipped then out else r ∷ out, last)

unfoldable pub filter_requests :
    CadenceConfig → (now : ℕ) → Cadence → List EvolutionRequest → List EvolutionRequest × Cadence
unfolding filter_each
filter_requests c now s rs =
    let (out, last) = filter_each c now [] s.request_history rs in
    (out, record s { request_history = last })
