-- ===== src/Telemetry/Rework.antt =====
-- What the counters of telemetry/metrics-accumulator.ts say of the events that were recorded.
use evolve_loop.Base.{
  ◌+◌, String, ◌≡◌, ◌∙◌, Bool, false, not, ◌&&◌, ◌||◌, List, [], ◌∷◌, contains, contains-snoc, ◌==◌,
  any, arith, string_eq, Bool-cases, inl, inr,
}
use evolve_loop.Events.{
  EventBody, feature_started, feature_completed, feature_blocked, node_scheduled, node_started,
  node_completed, node_failed, retry_scheduled, gate_passed, gate_rejected, gate_skipped,
  subgraph_invalidated, phase_gate_reached, planner_replan, provider_selected, knowledge_hit,
  knowledge_proposed, memory_written, orchestrator_decision,
}
use evolve_loop.Telemetry.{Metrics, add, rework_each, record_event}

abbrev pub record_all : List EventBody → Metrics → Metrics
record_all [] m = m
record_all (b ∷ bs) m = record_all bs (record_event b m)

-- A retry of the node, where the id is a name, or an invalidation that affects it.
abbrev pub redoes : String → EventBody → Bool
redoes id (retry_scheduled j attempt max_retries) = j == id && not (id == "")
redoes id (subgraph_invalidated root affected) = contains affected id
redoes id _ = false

contains-add : (x y : String) (s : List String) → contains (add x s) y ≡ (contains s y || x == y)
contains-add x y s = elim (Bool-cases (contains s x)) [
  | inl known ↦ rw known (ground arith)
  | inr new ↦ rw new (contains-snoc s x y ∙ ground arith)
]

rework_each-reworked :
    (ids : List String) (m : Metrics) (id : String)
    → contains (rework_each ids m).reworked_nodes id
      ≡ (contains m.reworked_nodes id || contains ids id)
rework_each-reworked [] m id = ground arith
rework_each-reworked (x ∷ ids) m id =
    rework_each-reworked ids (record m { reworked_nodes = add x m.reworked_nodes }) id
    ∙ rw (contains-add x id m.reworked_nodes) (ground arith)

record_event-reworked :
    (b : EventBody) (m : Metrics) (id : String)
    → contains (record_event b m).reworked_nodes id ≡ (contains m.reworked_nodes id || redoes id b)
unfolding record_event
record_event-reworked (retry_scheduled j attempt max_retries) m id = elim (Bool-cases (j == "")) [
  | inl none ↦ rw none (ground arith)
  | inr named ↦ rw named (contains-add j id m.reworked_nodes ∙ ground arith)
]
record_event-reworked (feature_started a b) m id = ground arith
record_event-reworked feature_completed m id = ground arith
record_event-reworked (feature_blocked a) m id = ground arith
record_event-reworked (node_scheduled a b c) m id = ground arith
record_event-reworked (node_started a b) m id = ground arith
record_event-reworked (node_completed a b c d f) m id = ground arith
record_event-reworked (node_failed a b c d f g) m id = ground arith
record_event-reworked (gate_passed a b) m id = ground arith
record_event-reworked (gate_rejected a b) m id = ground arith
record_event-reworked (gate_skipped a b) m id = ground arith
record_event-reworked (subgraph_invalidated a b) m id =
    rework_each-reworked b (record m { events_total = m.events_total + 1 }) id
record_event-reworked (phase_gate_reached a b) m id = ground arith
record_event-reworked (planner_replan a) m id = ground arith
record_event-reworked (provider_selected a b) m id = ground arith
record_event-reworked (knowledge_hit a b) m id = ground arith
record_event-reworked (knowledge_proposed a b) m id = ground arith
record_event-reworked (memory_written a b) m id = ground arith
record_event-reworked (orchestrator_decision a b) m id = ground arith

-- After any events, a node is counted as reworked exactly when it was counted before or one of the
-- events schedules a retry of it under a nonempty id or is an invalidation that names it as affected.
pub record_all-reworked :
    (bs : List EventBody) (m : Metrics) (id : String)
    → contains (record_all bs m).reworked_nodes id
      ≡ (contains m.reworked_nodes id || any (redoes id) bs)
record_all-reworked [] m id = ground arith
record_all-reworked (b ∷ bs) m id =
    record_all-reworked bs (record_event b m) id ∙ rw (record_event-reworked b m id) (ground arith)
