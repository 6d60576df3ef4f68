-- ===== src/Evolve/Outcome/Measured.antt =====
-- evolveloop/outcome/outcome-tracker.ts: when an outcome may claim that something changed.
use evolve_loop.Base.{
  ℕ, ◌≤◌, String, ◌≡◌, refl, ◌≢◌, ◌↔◌, inl, inr, ◌&&◌, Bool-cases, leb, ltb, ◌==◌, nat_eq, arith,
}
use evolve_loop.Evolve.Host.{Host}
use evolve_loop.Evolve.Longitudinal.{OutcomeKind, outcome_kind_eq, NeedLifecycle, need_lifecycle_eq}
use evolve_loop.Evolve.Outcome.{
  Rates, OutcomeInput, at_least_one, compare_rates, judge_samples, evaluate,
}

-- An outcome other than inconclusive needs two samples after the change, and the state of the need
-- follows from the outcome.
pub record Measured (kind : OutcomeKind) (lifecycle : NeedLifecycle) (samples_after : ℕ)
    : Type 0 where
  pub sampled : kind ≢ OutcomeKind.inconclusive → 2 ≤ samples_after
  pub cured : (lifecycle ≡ NeedLifecycle.resolved) ↔ (kind ≡ OutcomeKind.improved)
  pub worse : (lifecycle ≡ NeedLifecycle.regressed) ↔ (kind ≡ OutcomeKind.regressed)

Measured-inconclusive : (n : ℕ) → Measured OutcomeKind.inconclusive NeedLifecycle.remains_active n
unfolding need_lifecycle_eq outcome_kind_eq
Measured-inconclusive n = record {
  sampled = λ other. absurd (other refl);
  cured = (λ e. ground arith, λ e. ground arith);
  worse = (λ e. ground arith, λ e. ground arith);
}

module _ (r : Rates) where
  compare_rates-Measured :
      (fb tb fa ta n : ℕ)
      → 2 ≤ n
      → Measured (compare_rates r fb tb fa ta).kind (compare_rates r fb tb fa ta).lifecycle n
  unfolding need_lifecycle_eq outcome_kind_eq
  compare_rates-Measured fb tb fa ta n enough = elim (Bool-cases (r.fell fb tb fa ta)) [
    | inl fell ↦
        rw (fell, compare_rates)
          (record {
            sampled = λ other. enough;
            cured = (λ e. refl, λ e. refl);
            worse = (λ e. ground arith, λ e. ground arith);
          })
    | inr kept ↦ elim (Bool-cases (r.rose fb tb fa ta)) [
      | inl rose ↦
          rw (kept, rose, compare_rates)
            (record {
              sampled = λ other. enough;
              cured = (λ e. ground arith, λ e. ground arith);
              worse = (λ e. refl, λ e. refl);
            })
      | inr steady ↦
          rw (kept, steady, compare_rates)
            (record {
              sampled = λ other. enough;
              cured = (λ e. ground arith, λ e. ground arith);
              worse = (λ e. ground arith, λ e. ground arith);
            })
    ]
  ]

  judge_samples-Measured :
      (sb fb sa fa : ℕ)
      → Measured (judge_samples r sb fb sa fa).kind (judge_samples r sb fb sa fa).lifecycle sa
  unfolding judge_samples
  judge_samples-Measured sb fb sa fa = elim (Bool-cases (sa == 0)) [
    | inl empty ↦ rw (empty, judge_samples) (Measured-inconclusive sa)
    | inr some_after ↦ elim (Bool-cases (leb sb 1 && leb sa 1)) [
      | inl few ↦ rw (some_after, few, judge_samples) (Measured-inconclusive sa)
      | inr more ↦ elim (Bool-cases (ltb sa 2 && ltb fb 3)) [
        | inl low ↦ rw (some_after, more, low, judge_samples) (Measured-inconclusive sa)
        | inr not_low ↦ elim (Bool-cases (ltb sa 2 && leb 3 fb)) [
          | inl short ↦
              rw (some_after, more, not_low, short, judge_samples) (Measured-inconclusive sa)
          | inr enough ↦
              rw (some_after, more, not_low, enough, judge_samples)
                (compare_rates-Measured fb (at_least_one sb) fa (at_least_one sa) sa (ground arith))
        ]
      ]
    ]
  ]

-- Whatever the comparison of the rates says, an outcome is improved, regressed or unchanged only with two
-- signals for the need after the change, and the need is resolved exactly when the outcome is improved
-- and regressed exactly when the outcome is.
pub evaluate-Measured :
    (h : Host) (r : Rates) (now : String) (i : OutcomeInput)
    → Measured
        (evaluate h r now i).0.outcome
        (evaluate h r now i).1
        (evaluate h r now i).0.sample_size_after
unfolding evaluate
evaluate-Measured h r now i = judge_samples-Measured r _ _ _ _
