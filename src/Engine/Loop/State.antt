-- ===== src/Engine/Loop/State.antt =====
-- engine/execution-engine.ts: the state of the loop of run(), the answers of the parts around it in one
-- iteration, and the calls that reach the engine from outside.
use evolve_loop.Base.{ℕ, String, Bool, true, false, Option, none, some, List, [], ◌∷◌}
use evolve_loop.Types.{
  CapabilityIr, GraphNode, Evidence, ExecuteRequest, ExecuteResult, KnowledgeEntry,
  OrchestratorDecision, replan,
}
use evolve_loop.Events.{EventBody, EventSource, emit}
use evolve_loop.Scheduler.{SchedulerState, Selected, Draw}
use evolve_loop.Jobs.{SkillJob, SkillJobResult}
use evolve_loop.Engine.State.{RunContext, EngineState, notify}

pub record LoopState : Type 0 where
  pub engine : EngineState
  pub scheduler : SchedulerState
  pub decision : Option OrchestratorDecision
  pub replan_ir : Option CapabilityIr
  pub paused : Bool
  pub aborted : Bool
  pub iterations : ℕ
  pub nodes_executed : ℕ

-- pause, resume, abort and requestReplan, which may be called while the loop awaits something. What
-- they write is read at the start of an iteration only.
pub data Call : Type 0 where
  pause resume abort : Call
  request_replan : CapabilityIr → Call

-- What an iteration is answered: the calls before it; the selection of the registry for a node, `none`
-- where it throws; the ids and the time that `schedule` draws; the result of a provider, `none` where
-- its promise is rejected; the files of a completed job and the evidence that such a file names; and
-- whether the time to wait for jobs has not run out.
pub record Answers : Type 0 where
  pub calls : List Call
  pub select : GraphNode → Option Selected
  pub draw : GraphNode → Draw
  pub execute : ExecuteRequest → Option ExecuteResult
  pub completed_job : String → Option (SkillJob × SkillJobResult)
  pub load_evidence : String → Option Evidence
  pub may_wait : Bool

-- What an engine keeps of the runs before: run() does not reset it. All is `none` in a new engine.
pub record Leftover : Type 0 where
  pub blocked_reason : Option String
  pub decision : Option OrchestratorDecision
  pub replan_ir : Option CapabilityIr

abbrev pub new_engine : Leftover
new_engine = record { blocked_reason = none; decision = none; replan_ir = none }

-- What does not change in a run. `jobs_dir` tells whether a directory of jobs is set; `locale_after` is
-- `localeCompare` of two ids being positive.
pub record RunSetup : Type 0 where
  pub context : RunContext
  pub jobs_dir : Bool
  pub knowledge : List KnowledgeEntry
  pub locale_after : String → String → Bool
  pub leftover : Leftover

abbrev pub take_call : Call → LoopState → LoopState
take_call pause s = record s { paused = true }
take_call resume s = record s { paused = false }
take_call abort s = record s { aborted = true }
take_call (request_replan ir) s = record s { replan_ir = some ir; decision = some replan }

abbrev pub take_calls : List Call → LoopState → LoopState
take_calls [] s = s
take_calls (c ∷ cs) s = take_calls cs (take_call c s)

-- `eventBus.emit` with another source than the scheduler.
abbrev pub publish_as : EventSource → RunContext → EventBody → EngineState → EngineState
publish_as source c body e = record e {
  log = emit e.log c.feature source none body;
  metrics = notify body e.metrics;
}

-- How an iteration ends: by `continue` or its end, by `break`, or by an exception.
pub data Turn : Type 0 where
  go_on : LoopState → Turn
  leave : LoopState → Turn
  throws : Turn
