-- ===== src/Events.antt =====
-- The events of a run, types/index.ts and events/event-bus.ts, with the payload that the engine and
-- the scheduler give each. An event's id and timestamp are left out; the bus keeps the events in the
-- order of emission, and here the log of a run is that list.
use evolve_loop.Base.{ℕ, String, Option, List, [], ◌∷◌, ◌++◌}
use evolve_loop.Types.{
  EvidenceFinding, Verdict, RunError, OrchestratorDecision, MemoryEntry, ProposedKnowledgeEntry,
}

pub data EventSource : Type 0 where
  scheduler orchestrator provider planner engine : EventSource

pub data EventBody : Type 0 where
  feature_started : (ir_id policy_id : String) → EventBody
  feature_completed : EventBody
  feature_blocked : (reason : String) → EventBody
  node_scheduled : (node_id provider_id : String) (attempt : ℕ) → EventBody
  node_started : (run_id node_id : String) → EventBody
  node_completed : (run_id node_id provider_id capability : String) (duration_ms : ℕ) → EventBody
  node_failed :
      (run_id node_id provider_id capability : String) (error : Option RunError) (attempt : ℕ)
      → EventBody
  retry_scheduled : (node_id : String) (attempt : ℕ) (max_retries : Option ℕ) → EventBody
  gate_passed : (node_id : String) (verdict : Option Verdict) → EventBody
  gate_rejected : (node_id : String) (findings : List EvidenceFinding) → EventBody
  gate_skipped : (node_id capability : String) → EventBody
  subgraph_invalidated : (root_node_id : String) (affected : List String) → EventBody
  phase_gate_reached : (phase : ℕ) (node_id : String) → EventBody
  planner_replan : (ir_id : String) → EventBody
  provider_selected : (node_id provider_id : String) → EventBody
  knowledge_hit : (query : String) (hits : List String) → EventBody
  knowledge_proposed : ProposedKnowledgeEntry → (source_node : String) → EventBody
  memory_written : (scope : String) → MemoryEntry → EventBody
  orchestrator_decision : OrchestratorDecision → (reason : String) → EventBody

pub record Event : Type 0 where
  pub feature_id : String
  pub source : EventSource
  pub correlation_id : Option String
  pub body : EventBody

-- `this.events.push(event)`
abbrev pub emit : List Event → String → EventSource → Option String → EventBody → List Event
emit log feature source correlation body =
    log
    ++ record { feature_id = feature; source = source; correlation_id = correlation; body = body }
      ∷ []
