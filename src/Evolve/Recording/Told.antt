-- ===== src/Evolve/Recording/Told.antt =====
-- evolveloop/longitudinal-controller.ts: what recordOutcome leaves.
use evolve_loop.Base.{
  String, ◌<>◌, ◌≡◌, refl, ◌≢◌, inl, inr, false, Bool-cases, List, [], ◌∷◌, ◌++◌, map, ◌==◌,
  string_eq, arith,
}
use evolve_loop.Evolve.Signal.{signal_type_eq}
use evolve_loop.Evolve.Host.{Host}
use evolve_loop.Evolve.Longitudinal.{
  OutcomeKind, NeedLifecycle, need_lifecycle_eq, LongitudinalNeed,
}
use evolve_loop.Evolve.Miner.{signal_of}
use evolve_loop.Evolve.Outcome.{Rates, OutcomeInput, EvolutionOutcome, is_failure}
use evolve_loop.Evolve.Windows.{ObservationWindow, counts_for}
use evolve_loop.Evolve.Recording.{
  LoopStore, update_need, outcome_kind_name, feedback_of, record_outcome,
}

-- A need before and after: another need stays; the need of the outcome has its state, and a change of the
-- state is told at the end of its history.
pub record Told (i : OutcomeInput) (kind : OutcomeKind) (to : NeedLifecycle)
    (n n' : LongitudinalNeed) : Type 0 where
  pub same_need : (n'.id ≡ n.id) × (n'.fingerprint ≡ n.fingerprint)
  pub other : n.id ≢ i.need.id → n' ≡ n
  pub own : n.id ≡ i.need.id → n'.lifecycle ≡ to
  pub quiet : n'.lifecycle ≡ n.lifecycle → n'.lifecycle_history ≡ n.lifecycle_history
  pub trail :
      n'.lifecycle ≢ n.lifecycle
      → n'.lifecycle_history
        ≡ n.lifecycle_history
          ++ record {
            at = i.window_end;
            from = n.lifecycle;
            to = n'.lifecycle;
            reason = "outcome:" <> outcome_kind_name kind;
          }
            ∷ []

update_need-Told :
    (i : OutcomeInput) (kind : OutcomeKind) (to : NeedLifecycle) (n : LongitudinalNeed)
    → Told i kind to n (update_need i kind to n)
unfolding update_need need_lifecycle_eq
update_need-Told i kind to n = elim (Bool-cases (n.id == i.need.id)) [
  | inr other ↦
      rw (other, update_need)
        (record {
          same_need = (refl, refl);
          other = λ e. refl;
          own = λ e. absurd (ground arith);
          quiet = λ e. refl;
          trail = λ e. absurd (e refl);
        })
  | inl own ↦ elim (Bool-cases (n.lifecycle == to)) [
    | inl still ↦
        rw (own, still, update_need)
          (record {
            same_need = (refl, refl);
            other = λ e. absurd (ground arith);
            own = λ e. refl;
            quiet = λ e. refl;
            trail = λ e. absurd (ground arith);
          })
    | inr changed ↦
        rw (own, changed, update_need)
          (record {
            same_need = (refl, refl);
            other = λ e. absurd (ground arith);
            own = λ e. refl;
            quiet = λ e. absurd (ground arith);
            trail = λ e. refl;
          })
  ]
]

pub AllTold :
    OutcomeInput
    → OutcomeKind
    → NeedLifecycle
    → List LongitudinalNeed
    → List LongitudinalNeed
    → Type 0
AllTold i kind to [] [] = Unit
AllTold i kind to (n ∷ ns) (n' ∷ ns') = Told i kind to n n' × AllTold i kind to ns ns'
AllTold i kind to _ _ = ⊥

map-AllTold :
    (i : OutcomeInput) (kind : OutcomeKind) (to : NeedLifecycle) (ns : List LongitudinalNeed)
    → AllTold i kind to ns (map (update_need i kind to) ns)
unfolding AllTold
map-AllTold i kind to [] = tt
map-AllTold i kind to (n ∷ ns) = (update_need-Told i kind to n, map-AllTold i kind to ns)

-- recordOutcome gives the need of the outcome, and no other, the state of the outcome, and tells a change
-- of state, and only such, at the end of the history of the need; the outcome is noted last.
pub record_outcome-AllTold :
    (h : Host) (r : Rates) (now : String) (i : OutcomeInput) (s : LoopStore)
    → AllTold i
        (record_outcome h r now i s).0.0.outcome
        (record_outcome h r now i s).0.1
        s.needs
        (record_outcome h r now i s).1.needs
      × ((record_outcome h r now i s).1.outcomes
          ≡ s.outcomes ++ (record_outcome h r now i s).0.0 ∷ [])
unfolding record_outcome
record_outcome-AllTold h r now i s = (map-AllTold i _ _ s.needs, refl)

-- The signal that an outcome leaves counts for no observation window and as no failure.
pub feedback_of-uncounted :
    (h : Host) (i : OutcomeInput) (o : EvolutionOutcome) (w : ObservationWindow)
    → (counts_for w (signal_of h (feedback_of i o)) ≡ false)
      × (is_failure (signal_of h (feedback_of i o)) ≡ false)
unfolding counts_for signal_type_eq
feedback_of-uncounted h i o w = by_kind o.outcome refl
  where
    by_kind :
        (k : OutcomeKind)
        → o.outcome ≡ k
        → (counts_for w (signal_of h (feedback_of i o)) ≡ false)
          × (is_failure (signal_of h (feedback_of i o)) ≡ false)
    by_kind OutcomeKind.improved e = (rw (e) (ground arith), rw (e) refl)
    by_kind OutcomeKind.unchanged e = (rw (e) (ground arith), rw (e) refl)
    by_kind OutcomeKind.regressed e = (rw (e) (ground arith), rw (e) refl)
    by_kind OutcomeKind.inconclusive e = (rw (e) (ground arith), rw (e) refl)
