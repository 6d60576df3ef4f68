-- ===== src/Engine/State.antt =====
-- engine/execution-engine.ts: the state of `run()` that the handling of a result changes. The memory,
-- the knowledge store and the registry are the sequences of the calls made of them.
use evolve_loop.Base.{String, Option, none, some, List, [], ◌∷◌, ◌++◌, Dict}
use evolve_loop.Types.{ExecutionPolicy, Evidence, MemoryEntry, ProposedKnowledgeEntry}
use evolve_loop.Graph.Store.{GraphStore}
use evolve_loop.Graph.Walk.{invalidate_downstream}
use evolve_loop.Events.{
  Event, EventBody, EventSource, emit, retry_scheduled, subgraph_invalidated, planner_replan,
  provider_selected,
}
use evolve_loop.Telemetry.{Metrics, record_event}
use evolve_loop.Learning.{FailurePattern}

-- The constants of a run.
pub record RunContext : Type 0 where
  pub policy : ExecutionPolicy
  pub feature : String
  pub now : String

pub data RegistryCall : Type 0 where
  record_success record_failure : (provider_id : String) → RegistryCall

pub record EngineState : Type 0 where
  pub graph : GraphStore
  pub log : List Event
  pub metrics : Metrics
  pub patterns : Dict FailurePattern
  pub blocked_reason : Option String
  pub all_evidence : List Evidence
  pub memory : List MemoryEntry
  pub knowledge : List ProposedKnowledgeEntry
  pub registry_calls : List RegistryCall

-- The subscriptions of `run()`: the metrics hear of four types of events.
abbrev pub notify : EventBody → Metrics → Metrics
notify (provider_selected a b) m = record_event (provider_selected a b) m
notify (retry_scheduled a b c) m = record_event (retry_scheduled a b c) m
notify (subgraph_invalidated a b) m = record_event (subgraph_invalidated a b) m
notify (planner_replan a) m = record_event (planner_replan a) m
notify _ m = m

-- `eventBus.emit(…)`
abbrev pub publish : RunContext → Option String → EventBody → EngineState → EngineState
publish c correlation body e = record e {
  log = emit e.log c.feature EventSource.scheduler correlation body;
  metrics = notify body e.metrics;
}

abbrev pub call_registry : RegistryCall → EngineState → EngineState
call_registry call e = record e { registry_calls = e.registry_calls ++ call ∷ [] }

abbrev pub block : String → EngineState → EngineState
block reason e = record e { blocked_reason = some reason }

-- `if (run.evidence) this.allEvidence.push(run.evidence)`
abbrev pub push_evidence : Option Evidence → EngineState → EngineState
push_evidence none e = e
push_evidence (some ev) e = record e { all_evidence = e.all_evidence ++ ev ∷ [] }

infixl 5 ◌>>=◌
abbrev pub ◌>>=◌ {ℓ} : {A B : Type ℓ} → Option A → (A → Option B) → Option B
none >>= k = none
some a >>= k = k a

-- A call of a method of the store, which may throw.
abbrev pub on_graph : (GraphStore → Option GraphStore) → EngineState → Option EngineState
on_graph f e = elim (f e.graph) [ none ↦ none | some g ↦ some (record e { graph = g }) ]

-- `scheduler.invalidateDownstream(graph, id)`
abbrev pub invalidate : RunContext → String → EngineState → Option EngineState
invalidate c id e = elim (invalidate_downstream e.graph id) [
  | none ↦ none
  | some (g, affected) ↦
      some (publish c none (subgraph_invalidated id affected) (record e { graph = g }))
]
