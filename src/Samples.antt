-- ===== src/Samples.antt =====
-- Sample graphs, runs and requests.
mod Witnesses
mod Runs
mod Between
mod Loops
mod Evolution
mod Live
mod Changes
use evolve_loop.Base.{ℕ, String, Bool, true, false, Option, none, some, List, [], ◌∷◌}
use evolve_loop.Types.{
  DoDCheck, IrNode, CapabilityIr, GraphNode, Evidence, ExecuteResult, RunError, pending, skipped,
  satisfied,
}
use evolve_loop.Graph.Store.{GraphStore, new_store, initial_node}
use evolve_loop.Policies.Builtin.{high_reliability}
use evolve_loop.Evidence.Builders.{build_success_evidence}
use evolve_loop.Events.{
  EventBody, Event, EventSource, retry_scheduled, subgraph_invalidated, node_failed,
}
use evolve_loop.Telemetry.{new_metrics}
use evolve_loop.Engine.State.{RunContext, EngineState}
use evolve_loop.Jobs.{SkillJob, SkillJobResult}
use evolve_loop.SkillGates.{GrillMeGateInput, standard}
use evolve_loop.Authority.{AuthorityRequest}

abbrev pub unit_tests : DoDCheck
unit_tests = record { id = "unit"; check = "unit tests pass"; verification = "npm test" }

abbrev pub ir_node : (id capability type : String) → List String → IrNode
ir_node id capability type dependencies = record {
  id = id;
  capability = capability;
  capability_version = none;
  type = type;
  inputs = none;
  dependencies = dependencies;
  definition_of_done = unit_tests ∷ [];
  stack = none;
  priority = none;
}

-- A worker, a gate on it, and a worker behind the gate.
abbrev pub pipeline : CapabilityIr
pipeline = record {
  api_version = "capability-orchestrator.io/v2";
  kind = "CapabilityGraph";
  id = "feature";
  policy_ref = none;
  nodes =
      ir_node "build" "frontend" "worker" []
      ∷ ir_node "test" "testing" "gate" ("build" ∷ [])
      ∷ ir_node "ship" "deploy" "worker" ("test" ∷ [])
      ∷ [];
}

-- Two nodes that wait for each other.
abbrev pub knot : List IrNode
knot = ir_node "a" "x" "worker" ("b" ∷ []) ∷ ir_node "b" "y" "worker" ("a" ∷ []) ∷ []

abbrev pub store : GraphStore
store = new_store pipeline

abbrev pub build_node : GraphNode
build_node = initial_node (ir_node "build" "frontend" "worker" [])

abbrev pub gate_node : GraphNode
gate_node = initial_node (ir_node "test" "testing" "gate" ("build" ∷ []))

abbrev pub context : RunContext
context = record { policy = high_reliability; feature = "feature"; now = "2026-01-01" }

abbrev pub engine : EngineState
engine = record {
  graph = store;
  log = [];
  metrics = new_metrics;
  patterns = [];
  blocked_reason = none;
  all_evidence = [];
  memory = [];
  knowledge = [];
  registry_calls = [];
}

abbrev pub good_evidence : Evidence
good_evidence = build_success_evidence build_node "run-1" "cursor" "2026-01-01" 20

abbrev pub good_run : ExecuteResult
good_run = record {
  run_id = "run-1";
  success = true;
  evidence = some good_evidence;
  error = none;
  contextual_learnings = [];
  durable_learnings = [];
  duration_ms = 20;
  provider_id = "cursor";
}

abbrev pub bad_run : ExecuteResult
bad_run = record good_run {
  success = false;
  evidence = none;
  error = some (record { code = "TIMEOUT"; message = "too slow" });
}

abbrev pub failure_event : Event
failure_event = record {
  feature_id = "feature";
  source = EventSource.scheduler;
  correlation_id = none;
  body = node_failed "run-1" "build" "cursor" "frontend" bad_run.error 1;
}

abbrev pub retry_events : List EventBody
retry_events = retry_scheduled "build" 1 (some 3) ∷ subgraph_invalidated "test" ("ship" ∷ []) ∷ []

-- A confirmed write inside the workspace.
abbrev pub write_request : AuthorityRequest
write_request = record {
  capability = "filesystem.write";
  permissions = record { filesystem = none; network = none; shell = none };
  side_effects = some true;
  requires_confirmation = none;
  target_path = some "/work/a.txt";
  context = record {
    confirmed = some true;
    allow_shell = none;
    allow_write = some false;
    allow_network = none;
    workspace_root = some "/work";
  };
}

-- `resolve` of absolute paths without dots.
abbrev pub resolve_plain : String → String
resolve_plain p = p

abbrev pub resolve_absolute : String → String → String
resolve_absolute root p = p

-- A job that names a file that is not there.
abbrev pub job : SkillJob
job = record { run_id = "run-1"; provider_id = "cursor" }

abbrev pub job_result : SkillJobResult
job_result = record { success = true; evidence_path = some "gone.json"; error = none }

abbrev pub no_file : String → Option Evidence
no_file path = none

-- A product task whose documents are approved, without evidence of the gate.
abbrev pub product_task : GrillMeGateInput
product_task = record {
  risk_tier = standard;
  phase05_active = true;
  docs_approved = true;
  explicit_exempt = false;
  exempt_reason = none;
  fully_specified_execution = false;
  trivial_non_design = false;
  significant_scope_change = false;
  evidence_status = none;
}
