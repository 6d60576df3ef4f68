-- ===== src/Engine/Branches.antt =====
-- processRunResult of engine/execution-engine.ts: the node of the run after each branch.
use evolve_loop.Base.{
  ℕ, ◌+◌, String, ◌≡◌, refl, ◌∙◌, ◌⊎◌, Bool, true, false, Bool-cases, inl, inr, ◌&&◌, Option, none,
  some, get_or, leb, ◌==◌, string_eq, nat_eq,
}
use evolve_loop.Types.{
  GraphNode, Evidence, ExecuteResult, NodeStatus, pending, waiting, failed, retry,
  on_evidence_missing_eq,
}
use evolve_loop.Graph.Store.{GraphStore, set_node_status, increment_retry}
use evolve_loop.Policies.{retries_for}
use evolve_loop.Events.{retry_scheduled}
use evolve_loop.Engine.State.{
  RunContext, EngineState, RegistryCall, push_evidence, block, call_registry, publish,
}
use evolve_loop.Engine.Results.{
  set_status, add_attempt, park, note_failure, note_retry, try_again, fail_run, failure_reason,
  ask_again, miss_evidence,
}
use evolve_loop.Engine.Steps.{Gives, gives_then, Landed, gives_change, Landed-same_graph}

module _ (id : String) (g : GraphStore) (r : Option String) (n : GraphNode) (e : EngineState) where
  pub gives_status :
      (s : NodeStatus)
      → Landed id g r n e
      → Gives (set_status id s e) (Landed id g r (record n { status = s }))
  unfolding set_node_status
  gives_status s = gives_change id g r n e (λ k. record k { status = s }) (λ k. refl)

  gives_attempt :
      Landed id g r n e
      → Gives (add_attempt id e) (Landed id g r (record n { retry_count = n.retry_count + 1 }))
  unfolding increment_retry
  gives_attempt =
      gives_change id g r n e (λ k. record k { retry_count = k.retry_count + 1 }) (λ k. refl)

-- pushing evidence leaves the store and the blockage alone
push_evidence-graph : (o : Option Evidence) (e : EngineState) → (push_evidence o e).graph ≡ e.graph
push_evidence-graph none e = refl
push_evidence-graph (some ev) e = refl

push_evidence-blocked :
    (o : Option Evidence) (e : EngineState) → (push_evidence o e).blocked_reason ≡ e.blocked_reason
push_evidence-blocked none e = refl
push_evidence-blocked (some ev) e = refl

module _ (c : RunContext) (run : ExecuteResult) (id : String) (g : GraphStore) (r : Option String)
    (n : GraphNode) where
  pub Landed-push_evidence :
      (k : GraphNode) (e : EngineState)
      → Landed id g r k e
      → Landed id g r k (push_evidence run.evidence e)
  Landed-push_evidence k e l =
      Landed-same_graph id g r k e r (push_evidence run.evidence e)
        (push_evidence-graph run.evidence e) (push_evidence-blocked run.evidence e ∙ l.blocked) l

  pub gives_park :
      (e : EngineState)
      → Landed id g r n e
      → Gives (park run id e) (Landed id g r (record n { status = waiting }))
  unfolding park
  gives_park e l =
      gives_then (set_status id waiting e) (λ e'. some (push_evidence run.evidence e'))
        (gives_status id g r n e waiting l)
        (λ e' l'. (push_evidence run.evidence e', refl, Landed-push_evidence _ e' l'))

  -- The node after one more attempt.
  abbrev pub tried : NodeStatus → GraphNode
  tried s = record n { retry_count = n.retry_count + 1; status = s }

  -- The node waits for another run if `again`, and has failed for `reason` if not.
  abbrev pub Decided : Bool → String → EngineState → Type 0
  Decided again reason e' =
      ((again ≡ true) × Landed id g r (tried pending) e')
      ⊎ ((again ≡ false) × Landed id g (some reason) (tried failed) e')

  gives_try_again :
      (max_retries : ℕ) (e : EngineState)
      → Landed id g r (record n { retry_count = n.retry_count + 1 }) e
      → Gives
          (try_again c run id (n.retry_count + 1) max_retries e)
          (Decided (leb (n.retry_count + 1) max_retries) (failure_reason run.error))
  gives_try_again max_retries e l = elim (Bool-cases (leb (n.retry_count + 1) max_retries)) [
    | inl again ↦
        let (e', returns, l') = gives_status id g r _ e pending l in
        (
          call_registry (RegistryCall.record_failure run.provider_id)
              (note_retry c id (n.retry_count + 1) max_retries e'),
          rw (again, returns, try_again) refl,
          inl (again, Landed-same_graph id g r (tried pending) e' r _ refl l'.blocked l'),
        )
    | inr over ↦
        let (e', returns, l') = gives_status id g r _ e failed l in
        (
          block (failure_reason run.error)
              (call_registry (RegistryCall.record_failure run.provider_id) e'),
          rw (over, returns, try_again) refl,
          inr (over, Landed-same_graph id g r (tried failed) e' _ _ refl refl l'),
        )
  ]

  pub gives_fail_run :
      (e : EngineState)
      → Landed id g r n e
      → Gives
          (fail_run c run id n e)
          (Decided (leb (n.retry_count + 1) (retries_for c.policy n)) (failure_reason run.error))
  unfolding fail_run
  gives_fail_run e l =
      let noted = note_failure c run id n e in
      gives_then (add_attempt id noted)
        (try_again c run id (n.retry_count + 1) (retries_for c.policy n))
        (gives_attempt id g r n noted (Landed-same_graph id g r n e r noted refl l.blocked l))
        (λ e' l'. gives_try_again (retries_for c.policy n) e' l')

  gives_ask_again :
      (reason : Option String) (max_retries : ℕ) (e : EngineState)
      → Landed id g r (record n { retry_count = n.retry_count + 1 }) e
      → Gives (ask_again c reason id (n.retry_count + 1) max_retries e) (
          Decided
            (leb (n.retry_count + 1) max_retries && c.policy.spec.on_evidence_missing == retry)
            (get_or reason "evidence_incomplete"))
  gives_ask_again reason max_retries e l =
      let b = leb (n.retry_count + 1) max_retries && c.policy.spec.on_evidence_missing == retry in
      elim (Bool-cases b) [
        | inl again ↦
            let (e', returns, l') = gives_status id g r _ e pending l in
            (
              publish c none (retry_scheduled id (n.retry_count + 1) none) e',
              rw (again, returns, ask_again) refl,
              inl (again, Landed-same_graph id g r (tried pending) e' r _ refl l'.blocked l'),
            )
        | inr over ↦
            let (e', returns, l') = gives_status id g r _ e failed l in
            (
              block (get_or reason "evidence_incomplete") e',
              rw (over, returns, ask_again) refl,
              inr (over, Landed-same_graph id g r (tried failed) e' _ _ refl refl l'),
            )
      ]

  pub gives_miss_evidence :
      (reason : Option String) (e : EngineState)
      → Landed id g r n e
      → Gives (miss_evidence c reason id n e) (
          Decided
            (leb (n.retry_count + 1) (retries_for c.policy n)
              && c.policy.spec.on_evidence_missing == retry)
            (get_or reason "evidence_incomplete"))
  unfolding miss_evidence
  gives_miss_evidence reason e l =
      gives_then (add_attempt id e)
        (ask_again c reason id (n.retry_count + 1) (retries_for c.policy n))
        (gives_attempt id g r n e l)
        (λ e' l'. gives_ask_again reason (retries_for c.policy n) e' l')
