-- ===== src/Engine/Results.antt =====
-- processRunResult of engine/execution-engine.ts, branch by branch. `none` is an exception. The node is
-- the store's object, so after incrementRetry the code reads the new count.
use evolve_loop.Base.{
  ℕ, ◌+◌, String, Bool, not, ◌&&◌, Option, none, some, get_or, List, [], ◌∷◌, ◌++◌, leb, ◌==◌,
  lookup, if◌then◌else◌, string_eq, nat_eq,
}
use evolve_loop.Types.{
  ExecutionPolicy, GraphNode, Evidence, EvidenceFinding, Verdict, ExecuteResult, RunError,
  MemoryEntry, ProposedKnowledgeEntry, NodeStatus, pending, waiting, satisfied, failed,
  orchestrator, retry, on_gate_reject_eq, on_evidence_missing_eq,
}
use evolve_loop.Graph.Store.{get_node, set_node_status, set_node_evidence, increment_retry}
use evolve_loop.Policies.{retries_for, min_confidence}
use evolve_loop.Evidence.Validator.{ValidationResult, validate_evidence}
use evolve_loop.Events.{
  EventBody, retry_scheduled, node_failed, node_completed, gate_passed, gate_rejected,
  memory_written, knowledge_proposed, phase_gate_reached,
}
use evolve_loop.Telemetry.{record_event}
use evolve_loop.Learning.{record_failure}
use evolve_loop.Engine.State.{
  RunContext, RegistryCall, EngineState, publish, call_registry, block, push_evidence, ◌>>=◌,
  on_graph, invalidate,
}

abbrev pub error_code : Option RunError → String
error_code none = ""
error_code (some e) = e.code

abbrev pub is_job_pending : ExecuteResult → Bool
is_job_pending run = not run.success && error_code run.error == "JOB_PENDING"

-- `this.blockedReason = run.error?.message ?? "unrecoverable_failure"`
abbrev pub failure_reason : Option RunError → String
failure_reason none = "unrecoverable_failure"
failure_reason (some e) = e.message

abbrev pub set_status : String → NodeStatus → EngineState → Option EngineState
set_status id status = on_graph (set_node_status id status)

abbrev pub add_attempt : String → EngineState → Option EngineState
add_attempt id = on_graph (increment_retry id)

-- `graph.setNodeStatus(nodeId, "waiting")` and the evidence.
unfoldable pub park : ExecuteResult → String → EngineState → Option EngineState
park run id e = set_status id waiting e >>= (λ e'. some (push_evidence run.evidence e'))

abbrev pub failure_body : ExecuteResult → String → GraphNode → EventBody
failure_body run id n =
    node_failed run.run_id id run.provider_id n.capability run.error (n.retry_count + 1)

-- The failure is noted in the patterns and in the log.
abbrev pub note_failure :
    RunContext → ExecuteResult → String → GraphNode → EngineState → EngineState
note_failure c run id n e =
    let body = failure_body run id n in
    publish c (some run.run_id) body (record e { patterns = record_failure c.now body e.patterns })

-- The event goes to the metrics by the subscription, and once more by the direct call.
abbrev pub note_retry : RunContext → String → (attempt max_retries : ℕ) → EngineState → EngineState
note_retry c id attempt max_retries e =
    let e' = publish c none (retry_scheduled id attempt (some max_retries)) e in
    record e' { metrics = record_event (retry_scheduled id attempt none) e'.metrics }

-- The node is tried once more, or has failed for good.
abbrev pub try_again :
    RunContext
    → ExecuteResult
    → String
    → (attempt max_retries : ℕ) → EngineState
    → Option EngineState
try_again c run id attempt max_retries e =
    if leb attempt max_retries
    then set_status id pending e >>= (λ e'. some (
        call_registry (RegistryCall.record_failure run.provider_id)
          (note_retry c id attempt max_retries e')))
    else set_status id failed e >>= (λ e'. some (
        block (failure_reason run.error)
          (call_registry (RegistryCall.record_failure run.provider_id) e')))

-- The branch of a run that failed.
unfoldable pub fail_run :
    RunContext → ExecuteResult → String → GraphNode → EngineState → Option EngineState
unfolding retries_for
fail_run c run id n e =
    add_attempt id (note_failure c run id n e)
    >>= try_again c run id (n.retry_count + 1) (retries_for c.policy n)

abbrev pub findings_of : Option Evidence → List EvidenceFinding
findings_of none = []
findings_of (some ev) = get_or ev.spec.findings []

abbrev pub block_rejected : ExecutionPolicy → EngineState → EngineState
block_rejected policy e =
    if policy.spec.on_gate_reject == orchestrator then block "gate_rejected" e else e

-- The branch of a gate whose verdict is a rejection.
unfoldable pub reject_gate : RunContext → ExecuteResult → String → EngineState → Option EngineState
reject_gate c run id e =
    set_status id failed
      (publish c (some run.run_id) (gate_rejected id (findings_of run.evidence)) e)
    >>= invalidate c id
    >>= (λ e'. some (block_rejected c.policy e'))

abbrev pub ask_again :
    RunContext
    → Option String
    → String
    → (attempt max_retries : ℕ) → EngineState
    → Option EngineState
ask_again c reason id attempt max_retries e =
    if leb attempt max_retries && c.policy.spec.on_evidence_missing == retry
    then set_status id pending e
      >>= (λ e'. some (publish c none (retry_scheduled id attempt none) e'))
    else set_status id failed e >>= (λ e'. some (block (get_or reason "evidence_incomplete") e'))

-- The branch of evidence that does not suffice.
unfoldable pub miss_evidence :
    RunContext → Option String → String → GraphNode → EngineState → Option EngineState
unfolding retries_for
miss_evidence c reason id n e =
    add_attempt id e >>= ask_again c reason id (n.retry_count + 1) (retries_for c.policy n)

abbrev pub verdict_of : Option Evidence → Option Verdict
verdict_of none = none
verdict_of (some ev) = ev.spec.verdict

abbrev pub write_memory : RunContext → List MemoryEntry → EngineState → EngineState
write_memory c [] e = e
write_memory c (entry ∷ entries) e =
    write_memory c entries (
      publish c none (memory_written c.feature entry)
        (record e { memory = e.memory ++ entry ∷ [] }))

abbrev pub propose_knowledge :
    RunContext → String → List ProposedKnowledgeEntry → EngineState → EngineState
propose_knowledge c id [] e = e
propose_knowledge c id (proposal ∷ proposals) e =
    let entry = record proposal { source_node = some id } in
    propose_knowledge c id proposals (
      publish c none (knowledge_proposed entry id)
        (record e { knowledge = e.knowledge ++ entry ∷ [] }))

-- A phase of number 0 is no phase.
abbrev pub reach_phase : RunContext → String → Option ℕ → EngineState → EngineState
reach_phase c id none e = e
reach_phase c id (some phase) e =
    if phase == 0 then e else publish c none (phase_gate_reached phase id) e

abbrev pub phase_of : ExecutionPolicy → String → Option ℕ
phase_of policy capability = elim policy.spec.phase_mapping [
  | none ↦ none
  | some mapping ↦ lookup capability mapping
]

-- The events and learnings of a node that is satisfied.
abbrev pub announce : RunContext → ExecuteResult → String → GraphNode → EngineState → EngineState
announce c run id n e =
    let e1 = call_registry (RegistryCall.record_success run.provider_id) e in
    let e2 =
      publish c (some run.run_id)
        (node_completed run.run_id id run.provider_id n.capability run.duration_ms) e1 in
    let e3 =
      if n.type == "gate"
      then publish c (some run.run_id) (gate_passed id (verdict_of run.evidence)) e2
      else e2 in
    reach_phase c id (phase_of c.policy n.capability)
      (propose_knowledge c id run.durable_learnings (write_memory c run.contextual_learnings e3))

unfoldable pub complete_run :
    RunContext → ExecuteResult → String → GraphNode → EngineState → Option EngineState
unfolding set_node_evidence
complete_run c run id n e =
    set_status id satisfied e
    >>= on_graph (set_node_evidence id run.evidence)
    >>= (λ e'. some (announce c run id n e'))

abbrev pub judge_run :
    RunContext
    → ExecuteResult
    → String
    → GraphNode
    → ValidationResult
    → EngineState
    → Option EngineState
judge_run c run id n validation e =
    let e' = push_evidence run.evidence e in
    if validation.valid
    then complete_run c run id n e'
    else if get_or validation.reason "" == "gate_rejected"
    then reject_gate c run id e'
    else miss_evidence c validation.reason id n e'

abbrev pub handle_run :
    RunContext → ExecuteResult → String → GraphNode → EngineState → Option EngineState
handle_run c run id n e =
    if is_job_pending run
    then park run id e
    else if not run.success
    then fail_run c run id n e
    else judge_run c run id n
        (validate_evidence run.evidence n.definition_of_done n (min_confidence c.policy)) e

unfoldable pub process_run_result :
    RunContext → ExecuteResult → String → EngineState → Option EngineState
unfolding get_node validate_evidence min_confidence park fail_run reject_gate miss_evidence
    complete_run
process_run_result c run id e = elim (get_node e.graph id) [
  | none ↦ none
  | some n ↦ handle_run c run id n e
]
