-- ===== src/Evolve/Patterns.antt =====
-- evolveloop/pattern-detector.ts: signals that recur in a window of time become patterns.
pub mod Recurrent
use evolve_loop.Base.{
  ℕ, ◌+◌, ◌*◌, ◌-◌, String, ◌<>◌, Bool, true, false, ◌||◌, ◌&&◌, Option, none, some, List, [], ◌∷◌,
  ◌++◌, Dict, insert, values, map, keep, sort, length, leb, ltb, get_or, ◌==◌, if◌then◌else◌,
}
use evolve_loop.Evolve.Signal.{
  Severity, SignalType, ScopeKind, ScopeClass, scope_kind_eq, PatternKind, NeedSignal,
  DetectedPattern, signal_type_name, scope_kind_name, pattern_kind_name,
}
use evolve_loop.Evolve.Host.{Host, hash, join, set_of, present, group_by}

unfoldable pub kind_of : SignalType → Option PatternKind
kind_of SignalType.failure = some PatternKind.repeated_failure
kind_of SignalType.retry = some PatternKind.repeated_retry
kind_of SignalType.human_intervention = some PatternKind.repeated_human_intervention
kind_of SignalType.correction = some PatternKind.repeated_user_correction
kind_of SignalType.capability_unavailable = some PatternKind.capability_gap
kind_of SignalType.skill_failure = some PatternKind.skill_gap
kind_of SignalType.excessive_steps = some PatternKind.excessive_execution_steps
kind_of SignalType.policy_block = some PatternKind.repeated_policy_block
kind_of SignalType.eval_gap = some PatternKind.evaluation_gap
kind_of SignalType.abandonment = some PatternKind.task_abandonment
kind_of SignalType.latency = some PatternKind.latency_pattern
kind_of _ = none

abbrev pub severity_rank : Severity → ℕ
severity_rank Severity.info = 0
severity_rank Severity.low = 1
severity_rank Severity.medium = 2
severity_rank Severity.high = 3
severity_rank Severity.critical = 4

-- The most severe, the first of those that are.
abbrev pub worst : Severity → List NeedSignal → Severity
worst max [] = max
worst max (s ∷ ss) =
    worst (if ltb (severity_rank max) (severity_rank s.severity) then s.severity else max) ss

abbrev pub user_count : List NeedSignal → ℕ
user_count group = length (set_of (present (map (λ (s : NeedSignal). s.user_id) group)))

abbrev pub project_count : List NeedSignal → ℕ
project_count group = length (set_of (present (map (λ (s : NeedSignal). s.project_id) group)))

unfoldable pub scope_class_of : ScopeKind → (users projects : ℕ) → ScopeClass
scope_class_of scope users projects =
    if scope == ScopeKind.system || leb 2 projects || leb 3 users
    then ScopeClass.core_candidate
    else if scope == ScopeKind.user || (leb users 1 && leb projects 1)
    then ScopeClass.user_local
    else ScopeClass.unknown_scope

-- `sorted[0]` and `sorted[sorted.length - 1]` of a list that is not empty.
abbrev pub first_of : List String → String
first_of [] = ""
first_of (t ∷ ts) = t

abbrev pub last_of : List String → String
last_of [] = ""
last_of (t ∷ []) = t
last_of (t ∷ u ∷ ts) = last_of (u ∷ ts)

-- The number and the hours that the constructor is given; the time in milliseconds.
module _ (h : Host) (min_frequency window_hours now : ℕ) where
  abbrev pub within_window : NeedSignal → Bool
  within_window s = elim (h.parse_time s.timestamp) [
    | none ↦ false
    | some t ↦ leb now (t + window_hours * 3600000)
  ]

  abbrev pub scope_key : NeedSignal → String
  scope_key s = join "|" (
      signal_type_name s.type
      ∷ s.domain
      ∷ s.task_class
      ∷ scope_kind_name s.scope.type
      ∷ s.scope.id
      ∷ [])

  abbrev pub task_key : NeedSignal → String
  task_key s = join "|" (signal_type_name s.type ∷ s.domain ∷ s.task_class ∷ [])

  abbrev pub pattern_of : Bool → PatternKind → NeedSignal → List NeedSignal → DetectedPattern
  pattern_of force_system kind sample group =
      let scope = if force_system then ScopeKind.system else sample.scope.type in
      let scope_id = if force_system then "system" else sample.scope.id in
      let timestamps = sort h.text_after (map (λ (s : NeedSignal). s.timestamp) group) in
      let fingerprint = hash h (
        pattern_kind_name kind
        ∷ sample.domain
        ∷ sample.task_class
        ∷ scope_kind_name scope
        ∷ scope_id
        ∷ []) in
      record {
        id = "pat-" <> fingerprint;
        fingerprint = fingerprint;
        kind = kind;
        scope = scope;
        scope_class = scope_class_of scope (user_count group) (project_count group);
        scope_id = scope_id;
        domain = sample.domain;
        task_class = sample.task_class;
        window = record {
          start = first_of timestamps;
          end = last_of timestamps;
          hours = window_hours;
        };
        signal_ids = map (λ (s : NeedSignal). s.id) group;
        frequency = length group;
        impact = worst sample.severity group;
        first_seen = first_of timestamps;
        last_seen = last_of timestamps;
      }

  abbrev pub pattern_if :
      Bool → List NeedSignal → NeedSignal → Option PatternKind → List DetectedPattern
  pattern_if force_system group sample none = []
  pattern_if force_system group sample (some kind) = pattern_of force_system kind sample group ∷ []

  -- The pattern of a group, if it is one. A group is never empty.
  unfoldable pub push_pattern : Bool → List NeedSignal → List DetectedPattern
  unfolding kind_of scope_class_of
  push_pattern force_system [] = []
  push_pattern force_system (sample ∷ rest) =
      if ltb (length (sample ∷ rest)) min_frequency
      then []
      else pattern_if force_system (sample ∷ rest) sample (kind_of sample.type)

  unfoldable pub push_each : Bool → List (List NeedSignal) → List DetectedPattern
  unfolding push_pattern
  push_each force_system [] = []
  push_each force_system (g ∷ gs) = push_pattern force_system g ++ push_each force_system gs

  abbrev pub is_shared : List NeedSignal → Bool
  is_shared group = leb 3 (user_count group) || leb 2 (project_count group)

  -- The last pattern of a fingerprint, in the place of the first.
  abbrev pub unique : Dict DetectedPattern → List DetectedPattern → Dict DetectedPattern
  unique m [] = m
  unique m (p ∷ ps) = unique (insert p.fingerprint p m) ps

  unfoldable pub detect_patterns : List NeedSignal → List DetectedPattern
  unfolding push_each
  detect_patterns signals =
      let fresh = keep within_window signals in
      let groups = values (group_by scope_key [] fresh) in
      let cross = keep is_shared (values (group_by task_key [] fresh)) in
      values (unique [] (push_each false groups ++ push_each true cross))
