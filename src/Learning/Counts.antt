-- ===== src/Learning/Counts.antt =====
-- learning/pattern-aggregator.ts: the counts of the patterns and the events.
use evolve_loop.Base.{
  ℕ, ◌+◌, String, ◌≡◌, refl, Option-cases, inl, inr, Option, none, some, List, [], ◌∷◌, Dict,
  lookup, lookup-insert, arith, ◌==◌, string_eq, string_cases, if◌then◌else◌,
}
use evolve_loop.Events.{Event, EventBody}
use evolve_loop.Learning.{
  FailurePattern, Failure, failure_of, pattern_key, next_pattern, count_failure, record_failure,
  ingest,
}

abbrev pub count_of : Option FailurePattern → ℕ
count_of none = 0
count_of (some p) = p.count

-- How often the key was seen.
abbrev pub count_at : String → Dict FailurePattern → ℕ
count_at key m = count_of (lookup key m)

abbrev is_failure_at : String → Option Failure → ℕ
is_failure_at key none = 0
is_failure_at key (some f) = if pattern_key f == key then 1 else 0

-- The number of events that are failures of the key.
abbrev pub failures_at : String → List (String × Event) → ℕ
failures_at key [] = 0
failures_at key ((at, e) ∷ es) = is_failure_at key (failure_of e.body) + failures_at key es

next_pattern-count :
    (at : String) (f : Failure) (o : Option FailurePattern)
    → (next_pattern at f o).count ≡ count_of o + 1
next_pattern-count at f none = refl
next_pattern-count at f (some p) = refl

count_failure-at :
    (at key : String) (f : Failure) (m : Dict FailurePattern)
    → count_at key (count_failure at f m) ≡ count_at key m + is_failure_at key (some f)
count_failure-at at key f m =
    let here = next_pattern-count at f (lookup (pattern_key f) m) in
    let there =
      lookup-insert (pattern_key f) key (next_pattern at f (lookup (pattern_key f) m)) m in
    rw there (ground (arith, here, string_cases (pattern_key f) key))

record_failure-at :
    (at key : String) (b : EventBody) (m : Dict FailurePattern)
    → count_at key (record_failure at b m) ≡ count_at key m + is_failure_at key (failure_of b)
unfolding record_failure
record_failure-at at key b m = elim (Option-cases (failure_of b)) [
  | inl other ↦ rw (other, record_failure) (ground arith)
  | inr (f, e) ↦ rw (e, record_failure) (count_failure-at at key f m)
]

-- Taking in events adds to the count of each capability, provider and reason the number of the events
-- that are failures of them; an event that was recorded before is counted again.
pub ingest-counts :
    (key : String) (es : List (String × Event)) (m : Dict FailurePattern)
    → count_at key (ingest es m) ≡ count_at key m + failures_at key es
unfolding ingest
ingest-counts key [] m = omega arith
ingest-counts key ((at, e) ∷ es) m =
    let rest = ingest-counts key es (record_failure at e.body m) in
    let first = record_failure-at at key e.body m in omega arith
