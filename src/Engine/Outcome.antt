-- ===== src/Engine/Outcome.antt =====
-- processRunResult of engine/execution-engine.ts: when a node becomes satisfied, what a failure does,
-- and what happens to the other nodes.
use evolve_loop.Base.{
  contradiction, ◌+◌, String, ◌≡◌, refl, ◌∙◌, ◌≢◌, Bool, true, false, not, Bool-cases, inl, inr,
  Option, some, get_or, leb, ◌==◌, ◌&&◌, arith, if◌then◌else◌, string_eq,
}
use evolve_loop.Types.{GraphNode, ExecuteResult, node_status_eq, on_evidence_missing_eq}
use evolve_loop.Graph.Store.{get_node}
use evolve_loop.Graph.Valid.{IsValid}
use evolve_loop.Policies.{retries_for, min_confidence}
use evolve_loop.Evidence.Validator.{validate_evidence}
use evolve_loop.Evidence.Validator.Exact.{validate_evidence_exact}
use evolve_loop.Engine.State.{RunContext, EngineState, push_evidence}
use evolve_loop.Engine.Results.{
  error_code, failure_reason, park, fail_run, judge_run, handle_run, process_run_result,
}
use evolve_loop.Engine.Steps.{Gives, Landed, SameShape-refl}
use evolve_loop.Engine.Branches.{
  Decided, gives_park, gives_fail_run, gives_miss_evidence, Landed-push_evidence,
}
use evolve_loop.Engine.Settled.{
  Proven, Settled, Settled-unproven, Settled-Decided, Settled-Rejected, Settled-Proven,
}
use evolve_loop.Engine.Completion.{gives_complete_run}
use evolve_loop.Engine.Rejection.{gives_reject_gate}

-- The three ways of `processRunResult`: `success` is the run's, `job` tells an external job.
module _ {A : Type 0} (success job : Bool) (parked fell judged : A) where
  abbrev ways : A
  ways = if not success && job then parked else if not success then fell else judged

  ways-judged : success ≡ true → ways ≡ judged
  ways-judged h = rw h refl

  ways-fell : success ≡ false → job ≡ false → ways ≡ fell
  ways-fell h j = rw (h, j) refl

  ways-parked : success ≡ false → job ≡ true → ways ≡ parked
  ways-parked h j = rw (h, j) refl

gives_by : {P : EngineState → Type 0} {o o' : Option EngineState} → o ≡ o' → Gives o' P → Gives o P
gives_by same (e, returns, p) = (e, same ∙ returns, p)

pub gives_map :
    {P Q : EngineState → Type 0} (o : Option EngineState)
    → Gives o P
    → ((e : EngineState) → P e → Q e)
    → Gives o Q
gives_map o (e, returns, p) f = (e, returns, f e p)

Landed-start :
    (id : String) (n : GraphNode) (e : EngineState)
    → get_node e.graph id ≡ some n
    → IsValid e.graph
    → Landed id e.graph e.blocked_reason n e
unfolding get_node
Landed-start id n e here v = record {
  at = here;
  others = λ j differs. refl;
  shape = SameShape-refl e.graph;
  valid = v;
  blocked = refl;
}

gives_here :
    (c : RunContext) (run : ExecuteResult) (id : String) (n : GraphNode) (e : EngineState)
    {P : EngineState → Type 0}
    → get_node e.graph id ≡ some n
    → Gives (handle_run c run id n e) P
    → Gives (process_run_result c run id e) P
unfolding process_run_result
gives_here c run id n e here (e', returns, p) = (e', rw (here, process_run_result) returns, p)

module _ (c : RunContext) (run : ExecuteResult) (id : String) (n : GraphNode)
    (e : EngineState) where
  judge_run-Settled :
      run.success ≡ true
      → Landed id e.graph e.blocked_reason n e
      → Gives
          (judge_run c run id n
            (validate_evidence run.evidence n.definition_of_done n (min_confidence c.policy))
            e)
          (Settled c run id e.graph n)
  judge_run-Settled ok l =
      let validation =
        validate_evidence run.evidence n.definition_of_done n (min_confidence c.policy) in
      let (forth, back) =
        validate_evidence_exact run.evidence n.definition_of_done n (min_confidence c.policy) in
      let e' = push_evidence run.evidence e in
      let l' = Landed-push_evidence c run id e.graph e.blocked_reason n n e l in
      elim (Bool-cases validation.valid) [
        | inl valid ↦
            rw (valid, judge_run)
              (gives_map _ (gives_complete_run c run id e.graph e.blocked_reason n e' l')
                (λ s. Settled-Proven c run id e.graph n e.blocked_reason s (ok, forth valid)))
        | inr bad ↦
            let unproven : Proven c run n → ⊥ =
              λ (success, enough). absurd (contradiction (back enough) bad) in
            elim (Bool-cases (get_or validation.reason "" == "gate_rejected")) [
              | inl rejected ↦
                  rw (bad, rejected, judge_run)
                    (gives_map _ (gives_reject_gate c run id e.graph e.blocked_reason n e' l')
                      (λ s. Settled-Rejected c run id e.graph n s unproven))
              | inr missing ↦
                  rw (bad, missing, judge_run)
                    (gives_map _
                      (gives_miss_evidence c run id e.graph e.blocked_reason n validation.reason e'
                        l')
                      (λ s. Settled-Decided c run id e.graph n e.blocked_reason _ _ s unproven))
            ]
      ]

  handle_run-Settled :
      Landed id e.graph e.blocked_reason n e
      → Gives (handle_run c run id n e) (Settled c run id e.graph n)
  unfolding node_status_eq
  handle_run-Settled l =
      let is_job = error_code run.error == "JOB_PENDING" in
      let parked = park run id e in
      let fell = fail_run c run id n e in
      let judged =
        judge_run c run id n
          (validate_evidence run.evidence n.definition_of_done n (min_confidence c.policy)) e in
      elim (Bool-cases run.success) [
        | inl ok ↦
            gives_by (ways-judged run.success is_job parked fell judged ok) (judge_run-Settled ok l)
        | inr bad ↦
            let unproven : Proven c run n → ⊥ =
              λ (success, enough). absurd (contradiction success bad) in
            elim (Bool-cases (error_code run.error == "JOB_PENDING")) [
              | inl job ↦ gives_by (ways-parked run.success is_job parked fell judged bad job) (
                  gives_map _ (gives_park c run id e.graph e.blocked_reason n e l) (λ s.
                    Settled-unproven c run id e.graph n e.blocked_reason _ s refl
                      (λ same. ground arith) (λ same. ground arith) unproven))
              | inr no_job ↦ gives_by (ways-fell run.success is_job parked fell judged bad no_job) (
                  gives_map _ (gives_fail_run c run id e.graph e.blocked_reason n e l)
                    (λ s. Settled-Decided c run id e.graph n e.blocked_reason _ _ s unproven))
            ]
      ]

-- For a node of a valid store, processRunResult returns; afterwards the node is satisfied exactly when
-- the run succeeded with evidence that meets the node's definition of done, the policy's minimal
-- confidence and, for a gate, the verdict, and then it holds that evidence. Each other node is as it
-- was, or is downstream of the run's node and reset to pending. The store stays valid.
pub process_run_result_settles :
    (c : RunContext) (run : ExecuteResult) (id : String) (n : GraphNode) (e : EngineState)
    → get_node e.graph id ≡ some n
    → IsValid e.graph
    → Gives (process_run_result c run id e) (Settled c run id e.graph n)
process_run_result_settles c run id n e here v =
    gives_here c run id n e here (handle_run-Settled c run id n e (Landed-start id n e here v))

-- When a run of a node of a valid store fails, and not because an external job is pending,
-- processRunResult returns and counts one more attempt: the node is pending again and nothing new is
-- blocked if the count is at most the policy's retries for the node, and otherwise the node is failed
-- and the feature is blocked with the error's message.
pub process_run_result-failure :
    (c : RunContext) (run : ExecuteResult) (id : String) (n : GraphNode) (e : EngineState)
    → get_node e.graph id ≡ some n
    → IsValid e.graph
    → run.success ≡ false
    → error_code run.error ≢ "JOB_PENDING"
    → Gives (process_run_result c run id e) (
        Decided c run id e.graph e.blocked_reason n
          (leb (n.retry_count + 1) (retries_for c.policy n))
          (failure_reason run.error))
process_run_result-failure c run id n e here v bad no_job =
    let is_job = error_code run.error == "JOB_PENDING" in
    let parked = park run id e in
    let fell = fail_run c run id n e in
    let judged =
      judge_run c run id n
        (validate_evidence run.evidence n.definition_of_done n (min_confidence c.policy)) e in
    let other : (error_code run.error == "JOB_PENDING") ≡ false = ground arith in
    gives_here c run id n e here (
      gives_by (ways-fell run.success is_job parked fell judged bad other)
        (gives_fail_run c run id e.graph e.blocked_reason n e (Landed-start id n e here v)))
