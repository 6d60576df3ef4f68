-- ===== src/Evolve/Gates/Trusted.antt =====
-- evolveloop/handoff/gate-result.ts: which decisions open a window.
use evolve_loop.Base.{
  ℕ, String, ◌≡◌, refl, sym, ap, ◌∙◌, ◌≢◌, subst, ◌↔◌, inl, inr, true, false, Bool-cases,
  Option-cases, Option, none, some, List, [], ◌∷◌, ◌++◌, ◌==◌, arith, some_injective, none-not-some,
}
use evolve_loop.Evolve.Host.{Host}
use evolve_loop.Evolve.Longitudinal.{AnalysisScope, LongitudinalNeed}
use evolve_loop.Evolve.Windows.{ObservationWindow, opened, open_window}
use evolve_loop.Evolve.Gates.{
  Trust, trust_eq, RawGate, GateResult, read_gate_result, is_approved, IngestInput, Ingested,
  no_window, open_for, ingest_gate_result,
}

-- The gate approved, and where its decision comes from is known.
abbrev pub Consents : GateResult → Type 0
Consents g = (is_approved g.decision ≡ true) × (g.source.trust ≢ Trust.untrusted)

-- What is taken in: an approval is a consent of the gate that was read; a window is opened only for a
-- consent with a need and a scope, it is open, and it is the only new one.
pub record Trusted (i : IngestInput) (before : List ObservationWindow) (read : Option GateResult)
    (r : Ingested) : Type 0 where
  pub same_gate : r.gate ≡ read
  pub approval : (r.approved ≡ true) ↔ ((g : GateResult) × (read ≡ some g) × Consents g)
  pub unchanged : r.window ≡ none → r.windows ≡ before
  pub opening :
      (w : ObservationWindow)
      → r.window ≡ some w
      → (r.approved ≡ true)
        × (i.need ≢ none)
        × (i.scope ≢ none)
        × (w.status ≡ opened)
        × (r.windows ≡ before ++ w ∷ [])

module _ (h : Host) (minimum duration : ℕ) (now : String) (i : IngestInput)
    (ws : List ObservationWindow) where
  consent_of : (g k : GateResult) → some g ≡ some k → Consents k → Consents g
  consent_of g k e c = subst Consents (sym (some_injective e)) c

  Trusted-refused :
      (g : GateResult)
      → (Consents g → ⊥)
      → Trusted i ws (some g) (no_window h minimum duration now i ws g false)
  Trusted-refused g refused = record {
    same_gate = refl;
    approval = (λ e. cc, λ (k, e, c). absurd (refused (consent_of g k e c)));
    unchanged = λ e. refl;
    opening = λ w e. absurd (none-not-some e);
  }

  Trusted-idle :
      (g : GateResult)
      → Consents g
      → Trusted i ws (some g) (no_window h minimum duration now i ws g true)
  Trusted-idle g c = record {
    same_gate = refl;
    approval = (λ e. (g, refl, c), λ p. refl);
    unchanged = λ e. refl;
    opening = λ w e. absurd (none-not-some e);
  }

  Trusted-open :
      (g : GateResult) (need : Option LongitudinalNeed) (scope : Option AnalysisScope)
      → i.need ≡ need
      → i.scope ≡ scope
      → Consents g
      → Trusted i ws (some g) (open_for h minimum duration now i ws g need scope)
  unfolding open_window
  Trusted-open g none scope n s c = Trusted-idle g c
  Trusted-open g (some need) none n s c = Trusted-idle g c
  Trusted-open g (some need) (some scope) n s c = record {
    same_gate = refl;
    approval = (λ e. (g, refl, c), λ p. refl);
    unchanged = λ e. absurd (none-not-some (sym e));
    opening = λ w e.
        let same = some_injective e in
        (
          refl,
          (λ absent. none-not-some (sym absent ∙ n)),
          (λ absent. none-not-some (sym absent ∙ s)),
          ap (λ (v : ObservationWindow). v.status) (sym same),
          ap (λ v. ws ++ v ∷ []) same,
        );
  }

  -- A decision of a gate is taken for an approval exactly when it approves and its source is known; only
  -- then, and only with a need and a scope, a window is opened, and otherwise the windows stay.
  pub ingest_gate_result-Trusted :
      (file : Option RawGate)
      → Trusted i ws
          (read_gate_result now i.request_id file)
          (ingest_gate_result h minimum duration now i ws file)
  unfolding ingest_gate_result trust_eq
  ingest_gate_result-Trusted file = elim (Option-cases (read_gate_result now i.request_id file)) [
    | inl unread ↦
        rw (unread, ingest_gate_result)
          (record {
            same_gate = refl;
            approval = (λ e. cc, λ (k, e, c). absurd (none-not-some e));
            unchanged = λ e. refl;
            opening = λ w e. absurd (none-not-some e);
          })
    | inr (g, found) ↦ elim (Bool-cases (g.source.trust == Trust.untrusted)) [
      | inl unknown ↦
          rw (found, unknown, ingest_gate_result) (Trusted-refused g (λ c. c.1 (ground arith)))
      | inr known ↦ elim (Bool-cases (is_approved g.decision)) [
        | inl ok ↦
            rw (found, known, ok, ingest_gate_result)
              (Trusted-open g i.need i.scope refl refl (ok, λ e. ground arith))
        | inr denied ↦
            rw (found, known, denied, ingest_gate_result)
              (Trusted-refused g (λ c. absurd (ground (arith, c.0))))
      ]
    ]
  ]
