-- ===== src/Evidence/Validator/Built.antt =====
-- What validateEvidence says of the evidence that evidence/validator.ts builds itself.
use mathlib.Core.List.Memᴰ
use evolve_loop.Base.{
  ℕ, ◌≤◌, String, ◌≡◌, refl, inl, inr, true, false, not, none, some, List, [], ◌∷◌, map, ◌==◌,
  Bool-cases, find-none, arith, Memᴰ, string_eq,
}
use evolve_loop.Types.{
  DoDCheck, EvidenceCheck, GraphNode, pass, passed, evidence_status_eq, severity_eq, verdict_eq,
}
use evolve_loop.Evidence.Builders.{
  worker_check, gate_check, build_gate_evidence, build_worker_evidence, build_success_evidence,
}
use evolve_loop.Evidence.Validator.{dod_passes, first_failed, validate_evidence}

dod_passes-map :
    (f : DoDCheck → EvidenceCheck)
    → ((d : DoDCheck) → (f d).dod_id ≡ d.id)
    → ((d : DoDCheck) → (f d).result ≡ pass)
    → (dods : List DoDCheck) (dod : DoDCheck) → Memᴰ dod dods
    → dod_passes (map f dods) dod ≡ true
dod_passes-map f names passes [] dod m = absurd (Memᴰ.not-nil m)
dod_passes-map f names passes (d ∷ dods) dod (Memᴰ.head e) =
    let named = names d in let ok = passes d in ground arith
dod_passes-map f names passes (d ∷ dods) dod (Memᴰ.tail m) =
    let ok = passes d in ground (arith, dod_passes-map f names passes dods dod m)

first_failed-none :
    (f : DoDCheck → EvidenceCheck)
    → ((d : DoDCheck) → (f d).dod_id ≡ d.id)
    → ((d : DoDCheck) → (f d).result ≡ pass)
    → (dods : List DoDCheck) → first_failed (map f dods) dods ≡ none
first_failed-none f names passes dods =
    (find-none (λ dod. not (dod_passes (map f dods) dod)) dods).1
      (λ dod m. rw (dod_passes-map f names passes dods dod m))

module _ (node : GraphNode) (run_id provider_id at : String) (duration_ms m : ℕ) (h : m ≤ 900) where
  gate-valid :
      (validate_evidence
        (some (build_gate_evidence node run_id provider_id at passed 900 none))
        node.definition_of_done
        node
        m).valid
      ≡ true
  unfolding build_gate_evidence validate_evidence verdict_eq evidence_status_eq
  gate-valid =
      rw (first_failed-none (gate_check passed) (λ d. refl) (λ d. refl) node.definition_of_done)
        (ground arith)

  worker-valid :
      (node.type == "gate") ≡ false
      → (validate_evidence
          (some (build_worker_evidence node run_id provider_id at duration_ms [] [] []))
          node.definition_of_done
          node
          m).valid
        ≡ true
  unfolding build_worker_evidence validate_evidence evidence_status_eq
  worker-valid other =
      rw (first_failed-none worker_check (λ d. refl) (λ d. refl) node.definition_of_done)
        (ground arith)

-- The evidence that buildSuccessEvidence makes for a node is accepted for that node, whatever its
-- definition of done, under every policy that asks for a confidence of at most 0.9.
pub build_success_evidence-valid :
    (node : GraphNode) (run_id provider_id at : String) (duration_ms min_confidence : ℕ)
    → min_confidence ≤ 900
    → (validate_evidence
        (some (build_success_evidence node run_id provider_id at duration_ms))
        node.definition_of_done
        node
        min_confidence).valid
      ≡ true
unfolding build_success_evidence
build_success_evidence-valid node run_id provider_id at duration_ms m h =
    elim (Bool-cases (node.type == "gate")) [
      | inl gate ↦
          rw (gate, build_success_evidence) (gate-valid node run_id provider_id at duration_ms m h)
      | inr other ↦
          rw (other, build_success_evidence)
            (worker-valid node run_id provider_id at duration_ms m h other)
    ]
