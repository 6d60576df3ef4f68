-- ===== src/Telemetry.antt =====
-- telemetry/metrics-accumulator.ts: the counters of a run. A Set is the list of its members in the
-- order of insertion. The duration is not modelled.
pub mod Rework
use evolve_loop.Base.{
  ℕ, ◌+◌, String, Bool, List, [], ◌∷◌, ◌++◌, contains, ◌==◌, keep, length, if◌then◌else◌, string_eq,
}
use evolve_loop.Types.{GraphNode, NodeStatus, node_status_eq, satisfied, failed}
use evolve_loop.Events.{
  EventBody, retry_scheduled, subgraph_invalidated, planner_replan, provider_selected,
}

pub record Metrics : Type 0 where
  pub replan_count : ℕ
  pub reworked_nodes : List String
  pub capabilities_used : List String
  pub providers_used : List String
  pub events_total : ℕ

abbrev pub new_metrics : Metrics
new_metrics = record {
  replan_count = 0;
  reworked_nodes = [];
  capabilities_used = [];
  providers_used = [];
  events_total = 0;
}

-- `set.add(x)`
abbrev pub add : String → List String → List String
add x s = if contains s x then s else s ++ x ∷ []

-- `if (nodeId) this.reworkedNodes.add(nodeId)`
abbrev pub rework : String → Metrics → Metrics
rework id m = if id == "" then m else record m { reworked_nodes = add id m.reworked_nodes }

-- `for (const id of affected) this.reworkedNodes.add(id)`
abbrev pub rework_each : List String → Metrics → Metrics
rework_each [] m = m
rework_each (id ∷ ids) m = rework_each ids (record m { reworked_nodes = add id m.reworked_nodes })

-- The payload of a SubgraphInvalidated event has no `node_id`, only the root and the affected nodes.
abbrev pub record_kind : EventBody → Metrics → Metrics
record_kind (planner_replan ir_id) m = record m { replan_count = m.replan_count + 1 }
record_kind (retry_scheduled id attempt max_retries) m = rework id m
record_kind (subgraph_invalidated root affected) m = rework_each affected m
record_kind (provider_selected id provider_id) m = record m {
  providers_used = add provider_id m.providers_used;
}
record_kind _ m = m

unfoldable pub record_event : EventBody → Metrics → Metrics
record_event body m = record_kind body (record m { events_total = m.events_total + 1 })

unfoldable pub record_capability : String → Metrics → Metrics
record_capability capability m = record m { capabilities_used = add capability m.capabilities_used }

pub record FeatureMetrics : Type 0 where
  pub total_nodes : ℕ
  pub satisfied_nodes : ℕ
  pub failed_nodes : ℕ
  pub reworked : ℕ
  pub replans : ℕ
  pub events : ℕ
  pub capabilities : List String
  pub providers : List String

abbrev count_status : NodeStatus → List GraphNode → ℕ
count_status s nodes = length (keep (λ (n : GraphNode). n.status == s) nodes)

unfoldable pub metrics_snapshot : List GraphNode → Metrics → FeatureMetrics
metrics_snapshot nodes m = record {
  total_nodes = length nodes;
  satisfied_nodes = count_status satisfied nodes;
  failed_nodes = count_status failed nodes;
  reworked = length m.reworked_nodes;
  replans = m.replan_count;
  events = m.events_total;
  capabilities = m.capabilities_used;
  providers = m.providers_used;
}
