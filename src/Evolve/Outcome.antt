-- ===== src/Evolve/Outcome.antt =====
-- evolveloop/outcome/outcome-tracker.ts: what a change achieved, from the signals before and after it.
pub mod Measured
use evolve_loop.Base.{
  ℕ, zero, suc, String, ◌<>◌, Bool, true, false, ◌||◌, ◌&&◌, not, Option, none, some, List, [], ◌∷◌,
  ◌++◌, keep, length, leb, ltb, ◌==◌, if◌then◌else◌, string_eq, nat_eq,
}
use evolve_loop.Evolve.Signal.{NeedSignal, SignalType, signal_type_eq, ScopeClass, scope_class_eq}
use evolve_loop.Evolve.Host.{Host, join}
use evolve_loop.Evolve.Longitudinal.{OutcomeKind, NeedLifecycle, LongitudinalNeed}

-- Comparisons of the quotients of failures by samples, before and after, as the language's floating-point
-- numbers: `fell` is `after < before * 0.5`, `rose` is `after > before * 1.2`.
pub record Rates : Type 0 where
  pub fell : (fail_before total_before fail_after total_after : ℕ) → Bool
  pub rose : (fail_before total_before fail_after total_after : ℕ) → Bool

pub record OutcomeInput : Type 0 where
  pub evolution_request_id : String
  pub candidate_id : String
  pub need : LongitudinalNeed
  pub signals_before : List NeedSignal
  pub signals_after : List NeedSignal
  pub implementation_id : Option String
  pub window_start : String
  pub window_end : String

-- The outcome. The failure rates are kept as the numbers that they are the quotients of.
pub record EvolutionOutcome : Type 0 where
  pub id : String
  pub evolution_request_id : String
  pub candidate_id : String
  pub implementation_id : Option String
  pub window_start : String
  pub window_end : String
  pub fail_before : ℕ
  pub fail_after : ℕ
  pub sample_size_before : ℕ
  pub sample_size_after : ℕ
  pub outcome : OutcomeKind
  pub need_id : String
  pub need_fingerprint : String
  pub scope_id : String
  pub created_at : String
  pub notes : List String

-- `have === affected_tasks[0]`
abbrev pub is_first : List String → String → Bool
is_first [] have = false
is_first (t ∷ ts) have = have == t

abbrev pub is_user : Option String → String → Bool
is_user none id = false
is_user (some u) id = u == id

unfoldable pub match_need : LongitudinalNeed → NeedSignal → Bool
match_need need s =
    s.domain == need.domain
    && is_first need.affected_tasks s.task_class
    && (not (need.scope_class == ScopeClass.user_local)
        || is_user s.user_id need.scope_id
        || s.scope.id == need.scope_id)

abbrev pub is_failure : NeedSignal → Bool
is_failure s =
    s.type == SignalType.failure
    || s.type == SignalType.skill_failure
    || s.type == SignalType.capability_unavailable

unfoldable pub count_failures : List NeedSignal → LongitudinalNeed → ℕ
unfolding match_need
count_failures signals need = length (keep is_failure (keep (match_need need) signals))

-- The kind, the state of the need and the note of a comparison.
pub record Verdict : Type 0 where
  pub kind : OutcomeKind
  pub lifecycle : NeedLifecycle
  pub note : Option String

abbrev pub inconclusive_for : String → Verdict
inconclusive_for why = record {
  kind = OutcomeKind.inconclusive;
  lifecycle = NeedLifecycle.remains_active;
  note = some why;
}

abbrev pub at_least_one : ℕ → ℕ
at_least_one zero = 1
at_least_one (suc n) = suc n

abbrev pub compare_rates : Rates → (fail_before total_before fail_after total_after : ℕ) → Verdict
compare_rates r fb tb fa ta =
    if r.fell fb tb fa ta
    then record { kind = OutcomeKind.improved; lifecycle = NeedLifecycle.resolved; note = none }
    else if r.rose fb tb fa ta
    then record { kind = OutcomeKind.regressed; lifecycle = NeedLifecycle.regressed; note = none }
    else record {
      kind = OutcomeKind.unchanged;
      lifecycle = NeedLifecycle.remains_active;
      note = none;
    }

-- `sb` and `sa` are the numbers of samples, `fb` and `fa` those of the failures among them.
unfoldable pub judge_samples : Rates → (sb fb sa fa : ℕ) → Verdict
judge_samples r sb fb sa fa =
    if sa == 0
    then inconclusive_for "empty_after_window"
    else if leb sb 1 && leb sa 1
    then inconclusive_for "low_sample_both_windows"
    else if ltb sa 2 && ltb fb 3
    then inconclusive_for "low_sample_after"
    else if ltb sa 2 && leb 3 fb
    then inconclusive_for "insufficient_after_evidence"
    else compare_rates r fb (at_least_one sb) fa (at_least_one sa)

abbrev pub judge_outcome : Rates → OutcomeInput → Verdict
judge_outcome r i =
    judge_samples r (length (keep (match_need i.need) i.signals_before))
      (count_failures i.signals_before i.need) (length (keep (match_need i.need) i.signals_after))
      (count_failures i.signals_after i.need)

abbrev pub outcome_notes : Option String → List String
outcome_notes o =
    "outcome_requires_measurable_before_after"
    ∷ "implementation_alone_does_not_resolve_need"
    ∷ elim o [ none ↦ [] | some n ↦ n ∷ [] ]

-- The outcome and the state of the need; `now` is the time as a text.
unfoldable pub evaluate :
    Host → Rates → (now : String) → OutcomeInput → EvolutionOutcome × NeedLifecycle
unfolding match_need count_failures judge_samples
evaluate h r now i =
    let v = judge_outcome r i in
    (
      record {
        id =
            "out-"
            <> h.digest 12 (join "|" (i.evolution_request_id ∷ i.candidate_id ∷ i.window_end ∷ []));
        evolution_request_id = i.evolution_request_id;
        candidate_id = i.candidate_id;
        implementation_id = i.implementation_id;
        window_start = i.window_start;
        window_end = i.window_end;
        fail_before = count_failures i.signals_before i.need;
        fail_after = count_failures i.signals_after i.need;
        sample_size_before = length (keep (match_need i.need) i.signals_before);
        sample_size_after = length (keep (match_need i.need) i.signals_after);
        outcome = v.kind;
        need_id = i.need.id;
        need_fingerprint = i.need.fingerprint;
        scope_id = i.need.scope_id;
        created_at = now;
        notes = outcome_notes v.note;
      },
      v.lifecycle,
    )
