-- ===== src/Evolve/Windows/Sampled.antt =====
-- evolveloop/live/observation-window.ts: what the samples of a window are, and when it is evaluated.
use evolve_loop.Base.{
  ℕ, ◌≤◌, ◌<◌, String, ◌≡◌, refl, sym, ◌≢◌, ◌⊎◌, inl, inr, subst, Bool, true, false, ◌||◌, not,
  Bool-cases, none, some, List, [], ◌∷◌, ◌++◌, All, length, length-append, leb, ◌==◌, if◌then◌else◌,
  arith, some_injective, none-not-some,
}
use evolve_loop.Evolve.Signal.{NeedSignal}
use evolve_loop.Evolve.Host.{Host}
use evolve_loop.Evolve.Longitudinal.{OutcomeKind, outcome_kind_eq}
use evolve_loop.Evolve.Authorized.{All-snoc}
use evolve_loop.Evolve.Windows.{
  window_status_eq, opened, closed, evaluated, inconclusive_closed, ObservationWindow, OpenInput,
  open_window, counts_for, is_over, take_sample, observe_window, evaluate_closed,
}

-- The life of a window: it is opened, sees signals, and is evaluated.
pub data WindowLife (h : Host) : ObservationWindow → Type 0 where
  born :
      (minimum duration : ℕ) (at : String) (i : OpenInput) (ws : List ObservationWindow)
      → WindowLife h (open_window h minimum duration at i ws).0
  sees :
      {w : ObservationWindow} (now : ℕ) (at : String) (s : NeedSignal)
      → WindowLife h w
      → WindowLife h (observe_window h now at s w)
  judged :
      {w w' : ObservationWindow} (outcome : OutcomeKind)
      → WindowLife h w
      → evaluate_closed outcome w ≡ some w'
      → WindowLife h w'

-- The samples are signals that count for the window; while it is open there are fewer than it needs, or
-- none yet; afterwards there is one, and the window has an end.
pub record IsSampled (w : ObservationWindow) : Type 0 where
  pub counted : All (λ s. counts_for w s ≡ true) w.after_signals
  pub waiting :
      w.status ≡ opened → (w.after_signals ≡ []) ⊎ (length w.after_signals < w.minimum_samples)
  pub ended : w.status ≢ opened → (1 ≤ length w.after_signals) × (w.end ≢ none)

module _ (h : Host) (now : ℕ) (at : String) (s : NeedSignal) (w : ObservationWindow) where
  sampled_more :
      counts_for w s ≡ true
      → IsSampled w
      → All (λ x. counts_for w x ≡ true) (w.after_signals ++ s ∷ [])
  sampled_more hit i = All-snoc (λ x. counts_for w x ≡ true) w.after_signals s i.counted hit

  observe_window-IsSampled : IsSampled w → IsSampled (observe_window h now at s w)
  unfolding observe_window counts_for window_status_eq
  observe_window-IsSampled i =
      elim (Bool-cases (not (w.status == opened) || not (counts_for w s))) [
        | inl ignored ↦ rw (ignored, observe_window) i
        | inr heeded ↦
            let hit : counts_for w s ≡ true = ground arith in
            let more = sampled_more hit i in
            let longer = length-append w.after_signals (s ∷ []) in
            elim (Bool-cases
              (leb w.minimum_samples (length (take_sample s w).after_signals) || is_over h now w)) [
                | inl full ↦
                    rw (heeded, full, observe_window)
                      (record {
                        counted = more;
                        waiting = λ e. absurd (ground arith);
                        ended = λ e. (omega (arith, longer), λ e'. none-not-some (sym e'));
                      })
                | inr short ↦
                    rw (heeded, short, observe_window)
                      (record {
                        counted = more;
                        waiting = λ e. inr (ground arith);
                        ended = λ e. absurd (e (ground arith));
                      })
              ]
      ]

evaluate_closed-IsSampled :
    (outcome : OutcomeKind) (w w' : ObservationWindow)
    → evaluate_closed outcome w ≡ some w'
    → IsSampled w
    → IsSampled w'
unfolding evaluate_closed window_status_eq counts_for
evaluate_closed-IsSampled outcome w w' e i = elim (Bool-cases (not (w.status == closed))) [
  | inl other ↦ absurd (none-not-some (rw (other, evaluate_closed) at e))
  | inr over ↦
      let not_open : w.status ≢ opened = λ p. ground arith in
      subst IsSampled (some_injective (rw (over, evaluate_closed) at e)) (record {
        counted = i.counted;
        waiting = λ p. absurd (evaluated_status (outcome == OutcomeKind.inconclusive) p);
        ended = λ p. i.ended not_open;
      })
]
  where
    evaluated_status : (b : Bool) → (if b then inconclusive_closed else evaluated) ≢ opened
    evaluated_status true p = cc
    evaluated_status false p = cc

-- In every window that was opened and has seen any signals at any times, each sample is a signal of the
-- window's scope, domain and task that is no feedback on a change. While the window is open it has fewer
-- samples than it needs, or none; once it is closed or evaluated it has a sample and an end.
pub WindowLife-IsSampled : (h : Host) (w : ObservationWindow) → WindowLife h w → IsSampled w
unfolding open_window window_status_eq
WindowLife-IsSampled h w (born minimum duration at i ws) = record {
  counted = tt;
  waiting = λ e. inl refl;
  ended = λ e. absurd (e refl);
}
WindowLife-IsSampled h w (sees {w = v} now at s l) =
    observe_window-IsSampled h now at s v (WindowLife-IsSampled h v l)
WindowLife-IsSampled h w (judged {w = v} {w' = v'} outcome l e) =
    evaluate_closed-IsSampled outcome v v' e (WindowLife-IsSampled h v l)
