-- ===== src/Learning.antt =====
-- learning/pattern-aggregator.ts: how often each failure was seen. `at` is the timestamp of the event.
-- providerPenalty, which computes with fractions, is not modelled.
pub mod Counts
use evolve_loop.Base.{
  ℕ, ◌+◌, String, ◌<>◌, Option, none, some, get_or, List, [], ◌∷◌, Dict, lookup, insert, values,
  sort, take, ltb, if◌then◌else◌, string_eq, ◌==◌,
}
use evolve_loop.Types.{RunError}
use evolve_loop.Events.{Event, EventBody, node_failed, feature_blocked}

pub record FailurePattern : Type 0 where
  pub capability : String
  pub provider_id : String
  pub blocked_reason : String
  pub count : ℕ
  pub last_seen : String

-- The three values that `record` reads from a payload.
pub record Failure : Type 0 where
  pub capability : String
  pub provider_id : String
  pub reason : String

abbrev pub error_message : Option RunError → String
error_message none = "unknown"
error_message (some e) = e.message

-- The type guard, and the defaults of the payload.
unfoldable pub failure_of : EventBody → Option Failure
failure_of (node_failed run_id node_id provider_id capability error attempt) =
    some
      (record { capability = capability; provider_id = provider_id; reason = error_message error })
failure_of (feature_blocked reason) =
    some (record { capability = "unknown"; provider_id = "unknown"; reason = reason })
failure_of _ = none

abbrev pub pattern_key : Failure → String
pattern_key f = f.capability <> ":" <> f.provider_id <> ":" <> f.reason

-- The pattern after one more failure at `at`: a known one counts it, a new one starts with it.
abbrev pub next_pattern : String → Failure → Option FailurePattern → FailurePattern
next_pattern at f (some existing) = record existing { count = existing.count + 1; last_seen = at }
next_pattern at f none = record {
  capability = f.capability;
  provider_id = f.provider_id;
  blocked_reason = f.reason;
  count = 1;
  last_seen = at;
}

abbrev pub count_failure : String → Failure → Dict FailurePattern → Dict FailurePattern
count_failure at f m = insert (pattern_key f) (next_pattern at f (lookup (pattern_key f) m)) m

unfoldable pub record_failure : String → EventBody → Dict FailurePattern → Dict FailurePattern
unfolding failure_of
record_failure at body m = elim (failure_of body) [ none ↦ m | some f ↦ count_failure at f m ]

-- The events with their timestamps.
unfoldable pub ingest : List (String × Event) → Dict FailurePattern → Dict FailurePattern
unfolding record_failure
ingest [] m = m
ingest ((at, e) ∷ es) m = ingest es (record_failure at e.body m)

unfoldable pub top_patterns : ℕ → Dict FailurePattern → List FailurePattern
top_patterns limit m = take limit (sort (λ (a b : FailurePattern). ltb a.count b.count) (values m))

unfoldable pub patterns_snapshot : Dict FailurePattern → List FailurePattern
patterns_snapshot = values
