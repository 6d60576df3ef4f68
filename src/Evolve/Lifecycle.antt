-- ===== src/Evolve/Lifecycle.antt =====
-- evolveloop/lifecycle/need-lifecycle.ts: needs over the runs, with the outcomes of changes. The times of
-- outcomes are all readable, as their writer makes them.
pub mod Detect
pub mod Decided
pub mod Latest
pub mod Follows
use evolve_loop.Base.{
  ℕ, ◌+◌, ◌*◌, String, ◌<>◌, Bool, true, false, ◌||◌, ◌&&◌, not, Option, none, some, List, [], ◌∷◌,
  ◌++◌, Dict, lookup, insert, keep, any, sort, leb, ltb, get_or, ◌==◌, if◌then◌else◌, string_eq,
}
use evolve_loop.Evidence.Builders.{truthy}
use evolve_loop.Evolve.Signal.{pattern_kind_name, scope_class_name}
use evolve_loop.Evolve.Need.{Level, level_eq, NeedStatus, NeedCandidate}
use evolve_loop.Evolve.Host.{Host, hash}
use evolve_loop.Evolve.Longitudinal.{
  NeedLifecycle, need_lifecycle_eq, OutcomeKind, LifecycleHistoryEntry, LongitudinalNeed,
  LongitudinalPattern,
}
use evolve_loop.Evolve.Outcome.{EvolutionOutcome}

unfoldable pub lifecycle_from_outcome : OutcomeKind → NeedLifecycle
lifecycle_from_outcome OutcomeKind.improved = NeedLifecycle.resolved
lifecycle_from_outcome OutcomeKind.regressed = NeedLifecycle.regressed
lifecycle_from_outcome OutcomeKind.unchanged = NeedLifecycle.remains_active
lifecycle_from_outcome OutcomeKind.inconclusive = NeedLifecycle.remains_active

-- The history that is kept, with an entry where the state changes.
unfoldable pub append_history :
    Option LongitudinalNeed
    → (to : NeedLifecycle) → (reason at : String) → List LifecycleHistoryEntry
append_history none to reason at = []
append_history (some prev) to reason at =
    if prev.lifecycle == to
    then prev.lifecycle_history
    else prev.lifecycle_history
      ++ record { at = at; from = prev.lifecycle; to = to; reason = reason } ∷ []

abbrev pub at_or_zero : Option ℕ → ℕ
at_or_zero o = get_or o 0

module _ (h : Host) where
  abbrev pub created_after : EvolutionOutcome → EvolutionOutcome → Bool
  created_after a b =
      ltb (at_or_zero (h.parse_time b.created_at)) (at_or_zero (h.parse_time a.created_at))

  abbrev pub by_need : Dict EvolutionOutcome → List EvolutionOutcome → Dict EvolutionOutcome
  by_need m [] = m
  by_need m (o ∷ os) = by_need (insert o.need_id o m) os

  abbrev pub last_outcome : List EvolutionOutcome → Option EvolutionOutcome
  last_outcome [] = none
  last_outcome (o ∷ []) = some o
  last_outcome (o ∷ p ∷ os) = last_outcome (p ∷ os)

  abbrev pub is_for : Option String → String → EvolutionOutcome → Bool
  is_for none fingerprint o = o.need_fingerprint == fingerprint
  is_for (some id) fingerprint o = o.need_fingerprint == fingerprint || o.need_id == id

  abbrev pub outcome_by_id : Option String → List EvolutionOutcome → Option EvolutionOutcome
  outcome_by_id none os = none
  outcome_by_id (some id) os =
      if id == "" then none else lookup id (by_need [] (sort created_after os))

  -- findOutcomeForNeed over latestOutcomesByNeed
  unfoldable pub find_outcome_for_need :
      Option String → (fingerprint : String) → List EvolutionOutcome → Option EvolutionOutcome
  find_outcome_for_need id fingerprint os = elim (outcome_by_id id os) [
    | some o ↦ some o
    | none ↦ last_outcome (sort created_after (keep (is_for id fingerprint) os))
  ]

  abbrev pub lifecycle_of : Option EvolutionOutcome → Option NeedLifecycle
  lifecycle_of none = none
  lifecycle_of (some o) = some (lifecycle_from_outcome o.outcome)

  abbrev pub id_of : Option LongitudinalNeed → Option String
  id_of none = none
  id_of (some n) = some n.id

  abbrev pub lifecycle_fingerprint : LongitudinalPattern → String
  lifecycle_fingerprint p = hash h (
      pattern_kind_name p.kind
      ∷ p.domain
      ∷ p.task_class
      ∷ scope_class_name p.scope_class
      ∷ p.scope_id
      ∷ "ln"
      ∷ [])

  abbrev pub growing : LongitudinalPattern → NeedLifecycle
  growing p =
      if leb 3 p.unique_executions && leb 5 p.unique_executions
      then NeedLifecycle.established
      else NeedLifecycle.emerging

  abbrev pub was : Option LongitudinalNeed → NeedLifecycle → Bool
  was none l = false
  was (some n) l = n.lifecycle == l

  abbrev pub says : Option NeedLifecycle → NeedLifecycle → Bool
  says none l = false
  says (some k) l = k == l

  abbrev pub is_anchored : Option LongitudinalNeed → Option NeedLifecycle → Bool
  is_anchored prev from =
      (says from NeedLifecycle.resolved || was prev NeedLifecycle.resolved)
      && not (says from NeedLifecycle.regressed)
      && not (says from NeedLifecycle.remains_active)

  abbrev pub last_seen_of : Option LongitudinalNeed → LongitudinalPattern → String
  last_seen_of none p = p.last_seen
  last_seen_of (some n) p = n.last_seen

  -- Less than an hour lies between the sightings; a time that cannot be read is no reason.
  abbrev pub is_fresh : Option LongitudinalNeed → LongitudinalPattern → Bool
  is_fresh prev p = elim (h.parse_time p.last_seen) [
    | none ↦ false
    | some now ↦ elim (h.parse_time (last_seen_of prev p)) [
      | none ↦ false
      | some before ↦ ltb now (before + 1 * 3600000)
    ]
  ]

  abbrev pub confidence_of : LongitudinalPattern → Level
  confidence_of p =
      if leb 5 p.unique_executions && leb 2 p.source_diversity
      then Level.high
      else if leb 3 p.unique_executions
      then Level.medium
      else Level.low

  -- The state of a need that is seen again, outside of the cooldown.
  unfoldable pub final_lifecycle :
      Option LongitudinalNeed → Option NeedLifecycle → LongitudinalPattern → NeedLifecycle
  final_lifecycle prev from p =
      let lifecycle = if is_anchored prev from then NeedLifecycle.reopened else growing p in
      let seen = if confidence_of p == Level.low then NeedLifecycle.observed else lifecycle in
      let held =
        if was prev NeedLifecycle.regressed
        then NeedLifecycle.regressed
        else if was prev NeedLifecycle.remains_active
        then NeedLifecycle.remains_active
        else seen in
      get_or from held
