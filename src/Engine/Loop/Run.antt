-- ===== src/Engine/Loop/Run.antt =====
-- engine/execution-engine.ts: the loop of run() and the result of the run.
use evolve_loop.Base.{
  any, ◌==◌, ℕ, zero, suc, ◌+◌, String, Bool, true, false, not, ◌&&◌, ◌||◌, Option, none, some,
  get_or, List, [], ltb, leb, if◌then◌else◌,
}
use evolve_loop.Types.{CapabilityIr, GraphSnapshot, Evidence, FeatureRunState, OrchestratorDecision}
use evolve_loop.Graph.Store.{
  GraphStore, get_all_nodes, is_finished, new_store, from_snapshot, snapshot,
}
use evolve_loop.Evidence.Builders.{truthy}
use evolve_loop.RunState.{derive_run_state}
use evolve_loop.Events.{
  emit, Event, EventSource, feature_started, feature_completed, feature_blocked,
}
use evolve_loop.Ir.Validate.{
  ValidationError, code_eq, validate_ir, cycle_detected, duplicate_id, dangling_edge,
}
use evolve_loop.Telemetry.{record_event, FeatureMetrics, new_metrics, metrics_snapshot}
use evolve_loop.Engine.State.{RunContext, block}
use evolve_loop.Engine.Loop.State.{
  LoopState, Answers, RunSetup, go_on, leave, throws, take_calls, publish_as,
}
use evolve_loop.Engine.Loop.Round.{round, with_engine, has_waiting}

abbrev pub max_iterations : ℕ
max_iterations = 500

-- How the loop ended: with a state, by an exception, or not within the rounds given.
pub data Ending : Type 0 where
  ended : LoopState → Ending
  threw out_of_rounds : Ending

-- `!graph.isFinished() && iterations++ < maxIterations && !this.aborted`
abbrev pub goes_on : LoopState → Bool
goes_on s = not (is_finished s.engine.graph) && ltb s.iterations max_iterations && not s.aborted

-- The count is raised whenever the first part of the test holds.
abbrev pub counted : LoopState → LoopState
counted s = if is_finished s.engine.graph then s else record s { iterations = s.iterations + 1 }

-- The rounds are numbered for their answers.
unfoldable pub run_loop : RunSetup → (ℕ → Answers) → (fuel k : ℕ) → LoopState → Ending
unfolding round is_finished
run_loop setup answers zero k s = out_of_rounds
run_loop setup answers (suc fuel) k s =
    let s' = take_calls (answers k).calls s in
    if goes_on s'
    then elim (round setup (answers k) (counted s')) [
      | throws ↦ threw
      | leave t ↦ ended t
      | go_on t ↦ run_loop setup answers fuel (suc k) t
    ]
    else ended (counted s')

-- The graph of the checkpoint, where the run resumes one, or a new one.
abbrev pub first_graph : CapabilityIr → Option GraphSnapshot → GraphStore
first_graph ir none = new_store ir
first_graph ir (some checkpoint) = from_snapshot checkpoint

-- Only a run that resumes a checkpoint forgets the reason for which the run before was blocked.
abbrev pub first_reason : RunSetup → Option GraphSnapshot → Option String
first_reason setup none = setup.leftover.blocked_reason
first_reason setup (some checkpoint) = none

-- The state in which the loop starts, with what is left over from the runs before. The metrics are given
-- the FeatureStarted event directly, since it is emitted before they subscribe.
unfoldable pub start_run : RunSetup → CapabilityIr → Option GraphSnapshot → LoopState
unfolding record_event
start_run setup ir checkpoint =
    let body = feature_started ir.id setup.context.policy.id in
    record {
      engine = record {
        graph = first_graph ir checkpoint;
        log = emit [] setup.context.feature EventSource.engine none body;
        metrics = record_event body new_metrics;
        patterns = [];
        blocked_reason = first_reason setup checkpoint;
        all_evidence = [];
        memory = [];
        knowledge = [];
        registry_calls = [];
      };
      scheduler = record { running = []; scheduling_evidence = [] };
      decision = setup.leftover.decision;
      replan_ir = setup.leftover.replan_ir;
      paused = false;
      aborted = false;
      iterations = 0;
      nodes_executed = 0;
    }

pub record RunResult : Type 0 where
  pub success : Bool
  pub finished : Bool
  pub state : FeatureRunState
  pub blocked_reason : Option String
  pub metrics : FeatureMetrics
  pub graph : GraphSnapshot
  pub evidence : List Evidence
  pub events : List Event
  pub decision : Option OrchestratorDecision
  pub checkpoint : Option GraphSnapshot

-- `if (!graph.isFinished() && !this.blockedReason) …`
abbrev pub name_block : LoopState → LoopState
name_block s =
    if is_finished s.engine.graph || truthy s.engine.blocked_reason
    then s
    else if has_waiting s.engine
    then with_engine (block "awaiting_external_jobs" s.engine) s
    else if leb max_iterations s.iterations
    then with_engine (block "max_iterations" s.engine) s
    else s

abbrev pub explicit_state : Bool → Option FeatureRunState
explicit_state true = some FeatureRunState.cancelled
explicit_state false = none

abbrev pub succeeded : LoopState → Bool
succeeded s = is_finished s.engine.graph && not s.aborted

-- The last event. The reason is absent only where there is none, not where it is empty.
abbrev pub closed : RunContext → LoopState → LoopState
closed c s =
    let body =
      if succeeded s
      then feature_completed
      else feature_blocked (get_or s.engine.blocked_reason "max_iterations") in
    with_engine (publish_as EventSource.engine c body s.engine) s

-- A checkpoint is written where the run did not succeed and some node waits for a job.
abbrev pub keeps_checkpoint : RunSetup → LoopState → Bool
keeps_checkpoint setup s = not (succeeded s) && setup.jobs_dir && has_waiting s.engine

abbrev pub named_checkpoint : RunSetup → LoopState → LoopState
named_checkpoint setup s =
    if keeps_checkpoint setup s && not (truthy s.engine.blocked_reason)
    then with_engine (block "awaiting_external_jobs" s.engine) s
    else s

abbrev pub reported_reason : LoopState → Option String
reported_reason s = elim s.engine.blocked_reason [
  | some reason ↦ some reason
  | none ↦ if succeeded s then none else some "max_iterations"
]

-- What follows the loop.
unfoldable pub conclude : RunSetup → LoopState → RunResult
unfolding is_finished get_all_nodes derive_run_state snapshot metrics_snapshot
conclude setup s0 =
    let s = named_checkpoint setup (closed setup.context (name_block s0)) in
    record {
      success = succeeded s;
      finished = succeeded s || truthy s.engine.blocked_reason || s.aborted;
      state = derive_run_state (get_all_nodes s.engine.graph) (explicit_state s.aborted);
      blocked_reason = reported_reason s;
      metrics = metrics_snapshot (get_all_nodes s.engine.graph) s.engine.metrics;
      graph = snapshot s.engine.graph;
      evidence = s.engine.all_evidence;
      events = s.engine.log;
      decision = s.decision;
      checkpoint = if keeps_checkpoint setup s then some (snapshot s.engine.graph) else none;
    }

-- The errors that stop a run before it starts; the others of validateIR do not.
abbrev pub stops_run : ValidationError → Bool
stops_run e = e.code == cycle_detected || e.code == duplicate_id || e.code == dangling_edge

pub data RunOutcome : Type 0 where
  finished_run : RunResult → RunOutcome
  run_threw run_out_of_rounds : RunOutcome

abbrev pub outcome_of : RunSetup → Ending → RunOutcome
outcome_of setup (ended s) = finished_run (conclude setup s)
outcome_of setup threw = run_threw
outcome_of setup out_of_rounds = run_out_of_rounds

-- run(): `checkpoint` is what loadCheckpoint gives to a run that resumes.
unfoldable pub run :
    RunSetup
    → (ℕ → Answers)
    → (fuel : ℕ) → CapabilityIr
    → (checkpoint : Option GraphSnapshot) → RunOutcome
unfolding validate_ir run_loop start_run new_store from_snapshot conclude
run setup answers fuel ir checkpoint =
    if any stops_run (validate_ir ir none)
    then run_threw
    else outcome_of setup (run_loop setup answers fuel 0 (start_run setup ir checkpoint))
