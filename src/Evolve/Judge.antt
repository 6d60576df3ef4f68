-- ===== src/Evolve/Judge.antt =====
-- evolveloop/controller.ts: the loop over the candidates of a pass.
use evolve_loop.Base.{
  ℕ, ◌+◌, String, ◌<>◌, Bool, ◌&&◌, none, some, List, [], ◌∷◌, ◌++◌, find, ◌==◌, if◌then◌else◌,
  string_eq,
}
use evolve_loop.Evolve.Need.{
  need_status_eq, NeedCandidate, RootCauseAnalysis, EvolutionCandidate, CandidateStatus,
  RequestedAction, requested_action_eq, EvolutionRequest,
}
use evolve_loop.Evolve.Host.{join}
use evolve_loop.Evolve.Requests.{validate_candidate, build_evolution_request}

-- The states of a pass.
pub data Phase : Type 0 where
  observing need_detected root_cause_analysis candidate_generated candidate_validated : Phase
  evolution_submitted blocked insufficient_evidence : Phase

-- What a pass is given: the depth, the time in milliseconds and in text, and whether there is a directory
-- for requests.
pub record PassOptions : Type 0 where
  pub depth : ℕ
  pub now : ℕ
  pub now_text : String
  pub handoff : Bool

-- The variables of the loop over the candidates.
pub record Tally : Type 0 where
  pub phase : Phase
  pub blocked : ℕ
  pub submitted : ℕ
  pub validated : List EvolutionCandidate
  pub requests : List EvolutionRequest
  pub handed : List EvolutionRequest
  pub notes : List String

abbrev pub note : String → Tally → Tally
note n t = record t { notes = t.notes ++ n ∷ [] }

-- What is done about a request.
unfoldable pub hand_off : Bool → NeedCandidate → EvolutionRequest → Tally → Tally
hand_off handoff need r t =
    if handoff && r.requested_action == RequestedAction.submit_to_prototype_gate
    then record t {
      submitted = t.submitted + 1;
      handed = t.handed ++ r ∷ [];
      phase = Phase.evolution_submitted;
    }
    else if handoff && r.requested_action == RequestedAction.hold
    then note ("core_candidate_held_" <> need.id) (record t { handed = t.handed ++ r ∷ [] })
    else if r.requested_action == RequestedAction.no_change
    then note ("no_change_for_" <> need.id) t
    else t

abbrev pub validated_candidate : EvolutionCandidate → EvolutionCandidate
validated_candidate c = record c { status = CandidateStatus.validated }

abbrev pub judge_reasons :
    PassOptions
    → NeedCandidate
    → RootCauseAnalysis
    → EvolutionCandidate
    → List String
    → Tally
    → Tally
judge_reasons o need rca c [] t =
    let r = build_evolution_request o.now_text need rca (validated_candidate c) need.pattern_ids in
    hand_off o.handoff need r (record t {
      phase = Phase.candidate_validated;
      validated = t.validated ++ validated_candidate c ∷ [];
      requests = t.requests ++ r ∷ [];
    })
judge_reasons o need rca c (why ∷ more) t =
    note ("candidate_" <> c.id <> "_INCOMPLETE:" <> join "," (why ∷ more))
      (record t { blocked = t.blocked + 1 })

unfoldable pub judge_candidate :
    PassOptions → List NeedCandidate → List RootCauseAnalysis → Tally → EvolutionCandidate → Tally
unfolding validate_candidate build_evolution_request hand_off
judge_candidate o needs causes t c = elim (find (λ (n : NeedCandidate). n.id == c.need_id) needs) [
  | none ↦ record t { blocked = t.blocked + 1 }
  | some need ↦ elim (find (λ (r : RootCauseAnalysis). r.need_id == c.need_id) causes) [
    | none ↦ record t { blocked = t.blocked + 1 }
    | some rca ↦ judge_reasons o need rca c (validate_candidate c need rca) t
  ]
]

unfoldable pub judge_all :
    PassOptions
    → List NeedCandidate
    → List RootCauseAnalysis
    → Tally
    → List EvolutionCandidate
    → Tally
unfolding judge_candidate
judge_all o needs causes t [] = t
judge_all o needs causes t (c ∷ cs) =
    judge_all o needs causes (judge_candidate o needs causes t c) cs
