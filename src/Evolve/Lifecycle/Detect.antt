-- ===== src/Evolve/Lifecycle/Detect.antt =====
-- evolveloop/lifecycle/need-lifecycle.ts: the loops of detect, over the patterns and over the needs that
-- no pattern shows any more. Identifiers that count up to a number are kept as that number.
use evolve_loop.Base.{
  ℕ, ◌+◌, ◌*◌, String, ◌<>◌, Bool, false, ◌&&◌, Option, none, some, List, [], ◌∷◌, ◌++◌, Dict,
  lookup, insert, any, leb, get_or, ◌==◌, if◌then◌else◌, string_eq,
}
use evolve_loop.Evolve.Need.{Level, level_eq, NeedStatus}
use evolve_loop.Evolve.Host.{Host}
use evolve_loop.Evolve.Longitudinal.{
  NeedLifecycle, need_lifecycle_eq, LongitudinalNeed, LongitudinalPattern,
}
use evolve_loop.Evolve.Outcome.{EvolutionOutcome}
use evolve_loop.Evolve.Lifecycle.{
  append_history, find_outcome_for_need, lifecycle_of, id_of, lifecycle_fingerprint, is_anchored,
  is_fresh, confidence_of, final_lifecycle,
}

-- `aggregate prefix n`: the texts prefix-0 to prefix-(n-1).
module _ (h : Host) (aggregate : String → ℕ → List String) (now : ℕ) (at : String) where
  -- A need of which nothing was known, in the cooldown after a resolution.
  abbrev pub new_resolved : LongitudinalPattern → LongitudinalNeed
  new_resolved p = record {
    candidate = record {
      id = "lneed-" <> lifecycle_fingerprint h p;
      fingerprint = lifecycle_fingerprint h p;
      scope = p.scope;
      scope_class = p.scope_class;
      scope_id = p.scope_id;
      domain = p.domain;
      type = p.kind;
      recurrence = p.frequency;
      impact = p.impact;
      affected_tasks = p.task_class ∷ [];
      evidence = p.signal_ids;
      pattern_ids = p.id ∷ [];
      signal_ids = p.signal_ids;
      confidence = Level.medium;
      suspected_root_causes = [];
      first_seen = p.first_seen;
      last_seen = p.last_seen;
      status = NeedStatus.candidate;
    };
    lifecycle = NeedLifecycle.resolved;
    affected_executions = [];
    affected_sessions = [];
    unique_executions = p.unique_executions;
    unique_sessions = p.unique_sessions;
    lifecycle_history = [];
  }

  abbrev pub keep_resolved : Option LongitudinalNeed → LongitudinalPattern → LongitudinalNeed
  keep_resolved prev p = record (get_or prev (new_resolved p)) {
    lifecycle = NeedLifecycle.resolved;
    lifecycle_history = append_history prev NeedLifecycle.resolved "outcome_resolved" at;
  }

  abbrev pub first_seen_of : Option LongitudinalNeed → LongitudinalPattern → String
  first_seen_of none p = p.first_seen
  first_seen_of (some n) p = n.first_seen

  abbrev pub seen_need :
      Option LongitudinalNeed → Option NeedLifecycle → LongitudinalPattern → LongitudinalNeed
  seen_need prev from p = record {
    candidate = record {
      id = get_or (id_of h prev) ("lneed-" <> lifecycle_fingerprint h p);
      fingerprint = lifecycle_fingerprint h p;
      scope = p.scope;
      scope_class = p.scope_class;
      scope_id = p.scope_id;
      domain = p.domain;
      type = p.kind;
      recurrence = p.frequency;
      impact = p.impact;
      affected_tasks = p.task_class ∷ [];
      evidence = p.signal_ids;
      pattern_ids = p.id ∷ [];
      signal_ids = p.signal_ids;
      confidence = confidence_of h p;
      suspected_root_causes = [];
      first_seen = first_seen_of prev p;
      last_seen = p.last_seen;
      status =
          if confidence_of h p == Level.low
          then NeedStatus.insufficient_evidence
          else NeedStatus.candidate;
    };
    lifecycle = final_lifecycle h prev from p;
    affected_executions = aggregate "exec-agg-" p.unique_executions;
    affected_sessions = aggregate "sess-agg-" p.unique_sessions;
    unique_executions = p.unique_executions;
    unique_sessions = p.unique_sessions;
    lifecycle_history = append_history prev (final_lifecycle h prev from p) "detect" at;
  }

  -- The need of a pattern: `prev` is the one known before, `from` what its latest outcome says.
  unfoldable pub need_for :
      Option LongitudinalNeed → Option NeedLifecycle → LongitudinalPattern → LongitudinalNeed
  unfolding append_history final_lifecycle
  need_for prev from p =
      if is_anchored h prev from && is_fresh h prev p
      then keep_resolved prev p
      else seen_need prev from p

  abbrev pub outcome_for :
      List EvolutionOutcome → Option LongitudinalNeed → LongitudinalPattern → Option NeedLifecycle
  outcome_for os prev p =
      lifecycle_of h (find_outcome_for_need h (id_of h prev) (lifecycle_fingerprint h p) os)

  unfoldable pub detect_each :
      List EvolutionOutcome
      → Dict LongitudinalNeed
      → List LongitudinalPattern
      → List LongitudinalNeed
  unfolding need_for find_outcome_for_need
  detect_each os by_fp [] = []
  detect_each os by_fp (p ∷ ps) =
      let prev = lookup (lifecycle_fingerprint h p) by_fp in
      let need = need_for prev (outcome_for os prev p) p in
      need ∷ detect_each os (insert (lifecycle_fingerprint h p) need by_fp) ps

  abbrev pub marked : LongitudinalNeed → NeedLifecycle → (reason : String) → LongitudinalNeed
  marked prev to reason = record prev {
    lifecycle = to;
    lifecycle_history = append_history (some prev) to reason at;
  }

  -- Thirty days without a sighting.
  abbrev pub is_old : LongitudinalNeed → Bool
  is_old n = elim (h.parse_time n.last_seen) [ none ↦ false | some t ↦ leb (t + 30 * 86400000) now ]

  abbrev pub age : LongitudinalNeed → LongitudinalNeed
  age prev = if is_old prev then marked prev NeedLifecycle.stale "stale_age" else prev

  abbrev pub preserve : LongitudinalNeed → Option NeedLifecycle → LongitudinalNeed
  preserve prev none = age prev
  preserve prev (some l) = marked prev l "outcome_preserve"

  -- A need that no pattern shows.
  unfoldable pub unseen_need : List EvolutionOutcome → LongitudinalNeed → LongitudinalNeed
  unfolding append_history find_outcome_for_need
  unseen_need os prev =
      if prev.lifecycle == NeedLifecycle.resolved
      then prev
      else preserve prev
          (lifecycle_of h (find_outcome_for_need h (some prev.id) prev.fingerprint os))

  abbrev pub is_listed : List LongitudinalNeed → LongitudinalNeed → Bool
  is_listed out prev = any (λ (n : LongitudinalNeed). n.fingerprint == prev.fingerprint) out

  -- The list grows while it is walked, so a need that stands twice is added once.
  unfoldable pub add_unseen :
      List EvolutionOutcome → List LongitudinalNeed → List LongitudinalNeed → List LongitudinalNeed
  unfolding unseen_need
  add_unseen os out [] = out
  add_unseen os out (prev ∷ ns) =
      add_unseen os (if is_listed out prev then out else out ++ unseen_need os prev ∷ []) ns

  abbrev pub by_fingerprint : Dict LongitudinalNeed → List LongitudinalNeed → Dict LongitudinalNeed
  by_fingerprint m [] = m
  by_fingerprint m (n ∷ ns) = by_fingerprint (insert n.fingerprint n m) ns

  unfoldable pub detect_lifecycles :
      List LongitudinalPattern
      → (existing : List LongitudinalNeed) → List EvolutionOutcome
      → List LongitudinalNeed
  unfolding detect_each add_unseen
  detect_lifecycles ps existing os =
      add_unseen os (detect_each os (by_fingerprint [] existing) ps) existing
