-- ===== src/Evolve/Authorized/Judged.antt =====
-- evolveloop/controller.ts: the loop over the candidates of a pass.
use evolve_loop.Base.{
  ℕ, ◌+◌, String, ◌≡◌, refl, ◌≢◌, subst, inl, inr, Bool, ◌&&◌, Bool-cases, Option-cases, List, [],
  ◌∷◌, ◌++◌, keep, find, All, Memᴰ, length, ◌==◌, if◌then◌else◌, arith, string_eq, length-append,
}
use evolve_loop.Evolve.Need.{
  NeedCandidate, RootCauseAnalysis, CandidateType, candidate_type_eq, EvolutionCandidate,
  RequestedAction, requested_action_eq, EvolutionRequest,
}
use evolve_loop.Evolve.Requests.{validate_candidate, requested_action_for, build_evolution_request}
use evolve_loop.Evolve.Judge.{
  PassOptions, Phase, Tally, hand_off, validated_candidate, judge_reasons, judge_candidate,
  judge_all,
}
use evolve_loop.Evolve.Authorized.{Authorized, find-mem, All-snoc, action_cases}

abbrev pub is_submission : EvolutionRequest → Bool
is_submission r = r.requested_action == RequestedAction.submit_to_prototype_gate

length-keep-snoc :
    {A : Type 0} (p : A → Bool) (xs : List A) (x : A)
    → length (keep p (xs ++ x ∷ [])) ≡ length (keep p xs) + (if p x then 1 else 0)
length-keep-snoc p [] x = ground arith
length-keep-snoc p (y ∷ ys) x = ground (arith, length-keep-snoc p ys x)

-- After `n` candidates: what was handed on was authorized, the submissions are counted, and each
-- candidate was blocked or led to a request.
pub record Judged (needs : List NeedCandidate) (causes : List RootCauseAnalysis) (n : ℕ) (t : Tally)
    : Type 0 where
  pub authorized : All (Authorized needs causes) t.handed
  pub submissions : t.submitted ≡ length (keep is_submission t.handed)
  pub judged : t.blocked + length t.validated ≡ n
  pub requested : length t.requests ≡ length t.validated

module _ (needs : List NeedCandidate) (causes : List RootCauseAnalysis) where
  -- A request that is not for a change is not handed on.
  hand_off-Judged :
      (handoff : Bool) (need : NeedCandidate) (r : EvolutionRequest) (n : ℕ) (t : Tally)
      → (r.requested_action ≢ RequestedAction.no_change → Authorized needs causes r)
      → Judged needs causes n t
      → Judged needs causes n (hand_off handoff need r t)
  unfolding hand_off requested_action_eq
  hand_off-Judged handoff need r n t may j =
      elim (Bool-cases
        (handoff && r.requested_action == RequestedAction.submit_to_prototype_gate)) [
          | inl submit ↦
              let ok = may (λ e. ground arith) in
              rw (submit, hand_off)
                (record {
                  authorized = All-snoc (Authorized needs causes) t.handed r j.authorized ok;
                  submissions =
                      ground (arith, length-keep-snoc is_submission t.handed r, j.submissions);
                  judged = j.judged;
                  requested = j.requested;
                })
          | inr other ↦ elim (Bool-cases (handoff && r.requested_action == RequestedAction.hold)) [
            | inl held ↦
                let ok = may (λ e. ground arith) in
                rw (other, held, hand_off)
                  (record {
                    authorized = All-snoc (Authorized needs causes) t.handed r j.authorized ok;
                    submissions =
                        ground (arith, length-keep-snoc is_submission t.handed r, j.submissions);
                    judged = j.judged;
                    requested = j.requested;
                  })
            | inr no_hold ↦ elim (Bool-cases (r.requested_action == RequestedAction.no_change)) [
              | inl none_asked ↦
                  rw (other, no_hold, none_asked, hand_off)
                    (record {
                      authorized = j.authorized;
                      submissions = j.submissions;
                      judged = j.judged;
                      requested = j.requested;
                    })
              | inr some_asked ↦ rw (other, no_hold, some_asked, hand_off) j
            ]
          ]
        ]

  requested-change :
      (need : NeedCandidate) (c : EvolutionCandidate)
      → requested_action_for need c ≢ RequestedAction.no_change
      → c.type ≢ CandidateType.no_change
  unfolding requested_action_for candidate_type_eq
  requested-change need c asked same = asked (ground arith)

  module _ (o : PassOptions) where
    -- The request for a candidate without fault.
    request-Authorized :
        (need : NeedCandidate) (rca : RootCauseAnalysis) (c : EvolutionCandidate)
        → Memᴰ need needs
        → Memᴰ rca causes
        → c.need_id ≡ need.id
        → validate_candidate c need rca ≡ []
        → requested_action_for need c ≢ RequestedAction.no_change
        → Authorized needs causes
            (build_evolution_request o.now_text need rca (validated_candidate c) need.pattern_ids)
    unfolding build_evolution_request validate_candidate requested_action_for
    request-Authorized need rca c found cause_known linked faultless asked =
        let change = requested-change need c asked in
        record {
          need = need;
          found = found;
          cause_known = cause_known;
          source = refl;
          linked = linked;
          faultless = faultless;
          change = change;
          action = action_cases need c change;
          ceiling = refl;
          harmless = (refl, refl);
        }

    judge_reasons-Judged :
        (need : NeedCandidate) (rca : RootCauseAnalysis) (c : EvolutionCandidate) (n : ℕ)
        (t : Tally) (reasons : List String)
        → Memᴰ need needs
        → Memᴰ rca causes
        → c.need_id ≡ need.id
        → validate_candidate c need rca ≡ reasons
        → Judged needs causes n t
        → Judged needs causes (n + 1) (judge_reasons o need rca c reasons t)
    unfolding build_evolution_request requested_action_for
    judge_reasons-Judged need rca c n t [] found cause_known linked faultless j =
        let r =
          build_evolution_request o.now_text need rca (validated_candidate c) need.pattern_ids in
        let t' : Tally = record t {
          phase = Phase.candidate_validated;
          validated = t.validated ++ validated_candidate c ∷ [];
          requests = t.requests ++ r ∷ [];
        } in
        let more = length-append t.validated (validated_candidate c ∷ []) in
        let more' = length-append t.requests (r ∷ []) in
        hand_off-Judged o.handoff need r (n + 1) t'
          (λ asked. request-Authorized need rca c found cause_known linked faultless asked)
          (record {
            authorized = j.authorized;
            submissions = j.submissions;
            judged = omega (arith, j.judged, more);
            requested = omega (arith, j.requested, more, more');
          })
    judge_reasons-Judged need rca c n t (why ∷ rest) found cause_known linked faulty j = record {
      authorized = j.authorized;
      submissions = j.submissions;
      judged = omega (arith, j.judged);
      requested = j.requested;
    }

    blocked-Judged :
        (n : ℕ) (t : Tally)
        → Judged needs causes n t
        → Judged needs causes (n + 1) (record t { blocked = t.blocked + 1 })
    blocked-Judged n t j = record {
      authorized = j.authorized;
      submissions = j.submissions;
      judged = omega (arith, j.judged);
      requested = j.requested;
    }

    judge_candidate-Judged :
        (n : ℕ) (t : Tally) (c : EvolutionCandidate)
        → Judged needs causes n t
        → Judged needs causes (n + 1) (judge_candidate o needs causes t c)
    unfolding judge_candidate
    judge_candidate-Judged n t c j =
        let is_need = λ (k : NeedCandidate). k.id == c.need_id in
        let is_cause = λ (r : RootCauseAnalysis). r.need_id == c.need_id in
        elim (Option-cases (find is_need needs)) [
          | inl none_found ↦ rw (none_found, judge_candidate) (blocked-Judged n t j)
          | inr (need, found) ↦ elim (Option-cases (find is_cause causes)) [
            | inl no_cause ↦ rw (found, no_cause, judge_candidate) (blocked-Judged n t j)
            | inr (rca, cause) ↦
                let (mem, same) = find-mem is_need needs need found in
                let (mem', same') = find-mem is_cause causes rca cause in
                rw (found, cause, judge_candidate)
                  (judge_reasons-Judged need rca c n t (validate_candidate c need rca) mem mem'
                    (ground arith) refl j)
          ]
        ]

    pub judge_all-Judged :
        (n : ℕ) (t : Tally) (cs : List EvolutionCandidate)
        → Judged needs causes n t
        → Judged needs causes (n + length cs) (judge_all o needs causes t cs)
    unfolding judge_all
    judge_all-Judged n t [] j = subst (λ k. Judged needs causes k t) (omega arith) j
    judge_all-Judged n t (c ∷ cs) j =
        subst (λ k. Judged needs causes k (judge_all o needs causes t (c ∷ cs))) (omega arith)
          (judge_all-Judged (n + 1) (judge_candidate o needs causes t c) cs
            (judge_candidate-Judged n t c j))
