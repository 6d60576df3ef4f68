-- ===== src/Engine/Loop/Round.antt =====
-- engine/execution-engine.ts: one iteration of the loop of run().
use evolve_loop.Base.{
  ℕ, ◌-◌, String, Bool, true, false, ◌&&◌, ◌||◌, Option, none, some, get_or, List, [], ◌∷◌, any,
  find, ltb, ◌==◌, if◌then◌else◌,
}
use evolve_loop.Types.{
  CapabilityIr, GraphNode, NodeStatus, OrchestratorDecision, continuar, corrigir, replan, pending,
  failed, waiting, node_status_eq,
}
use evolve_loop.Graph.Store.{new_store, get_all_nodes, is_finished, has_failed_without_retry}
use evolve_loop.Policies.{retries_for}
use evolve_loop.Evidence.Builders.{truthy}
use evolve_loop.Orchestrator.{decide}
use evolve_loop.Events.{EventSource, orchestrator_decision, planner_replan}
use evolve_loop.Scheduler.{ready_nodes, running_handles}
use evolve_loop.Engine.State.{RunContext, EngineState, ◌>>=◌, block, invalidate}
use evolve_loop.Engine.Results.{set_status}
use evolve_loop.Engine.Loop.State.{
  LoopState, Answers, RunSetup, Turn, go_on, leave, throws, publish_as,
}
use evolve_loop.Engine.Loop.Dispatch.{dispatch}
use evolve_loop.Engine.Loop.Poll.{poll_waiting_jobs}

abbrev pub with_engine : EngineState → LoopState → LoopState
with_engine e s = record s { engine = e }

abbrev pub unblock : EngineState → EngineState
unblock e = record e { blocked_reason = none }

-- `none`, an exception, ends the run.
abbrev pub or_throw : Option LoopState → Turn
or_throw none = throws
or_throw (some s) = go_on s

-- The decision is to replan and there is a graph to replan to.
abbrev pub replanned : RunContext → CapabilityIr → LoopState → LoopState
replanned c ir s = record s {
  engine =
      publish_as EventSource.engine c (planner_replan ir.id)
        (unblock (record s.engine { graph = new_store ir }));
  decision = none;
  replan_ir = none;
}

abbrev pub is_stuck : GraphNode → Bool
is_stuck n = n.status == failed || n.status == NodeStatus.blocked

abbrev pub retry_first : RunContext → Option GraphNode → EngineState → Option EngineState
retry_first c none e = some e
retry_first c (some n) e = set_status n.id pending e >>= invalidate c n.id

-- The decision is to correct: the first failed node is tried again.
unfoldable pub correct : RunContext → LoopState → Option LoopState
unfolding get_all_nodes
correct c s = elim (retry_first c (find is_stuck (get_all_nodes s.engine.graph)) s.engine) [
  | none ↦ none
  | some e ↦ some (record s { engine = unblock e; decision = none })
]

abbrev pub is_continuar : OrchestratorDecision → Bool
is_continuar continuar = true
is_continuar corrigir = false
is_continuar replan = false

-- The orchestrator is asked about a blocked run.
unfoldable pub consult : RunContext → String → LoopState → LoopState
unfolding decide
consult c reason s =
    let d = decide reason in
    let e = publish_as EventSource.orchestrator c (orchestrator_decision d reason) s.engine in
    record s { engine = if is_continuar d then unblock e else e; decision = some d }

abbrev pub has_waiting : EngineState → Bool
has_waiting e = any (λ (n : GraphNode). n.status == waiting) (get_all_nodes e.graph)

-- Nothing is ready, no run is under way and no job was completed.
unfoldable pub rest : RunSetup → Answers → LoopState → Turn
unfolding get_all_nodes has_failed_without_retry is_finished retries_for
rest setup a s =
    if has_waiting s.engine && setup.jobs_dir
    then if a.may_wait then go_on (record s { iterations = s.iterations - 1 }) else leave s
    else if has_failed_without_retry (retries_for setup.context.policy) s.engine.graph
    then go_on (with_engine (block "unrecoverable_failure" s.engine) s)
    else if is_finished s.engine.graph
    then leave s
    else go_on (with_engine (block "deadlock_or_waiting_external" s.engine) s)

abbrev pub after_poll : RunSetup → Answers → LoopState → Option (EngineState × ℕ) → Turn
after_poll setup a s none = throws
after_poll setup a s (some (e, polled)) =
    if ltb 0 polled then go_on (with_engine (unblock e) s) else rest setup a (with_engine e s)

-- Nothing is ready. `waitForAny` changes nothing.
unfoldable pub idle : RunSetup → Answers → LoopState → Turn
unfolding rest running_handles poll_waiting_jobs
idle setup a s = elim (running_handles s.scheduler) [
  | _ ∷ _ ↦ go_on s
  | [] ↦ after_poll setup a s (poll_waiting_jobs setup.context setup.jobs_dir a s.engine)
]

abbrev pub with_ready : RunSetup → Answers → List GraphNode → LoopState → Turn
with_ready setup a [] s = idle setup a s
with_ready setup a (n ∷ ns) s = or_throw (dispatch setup a (n ∷ ns) s)

unfoldable pub work : RunSetup → Answers → LoopState → Turn
unfolding idle ready_nodes dispatch
work setup a s =
    let scan =
      ready_nodes setup.locale_after setup.context.policy setup.context.feature s.engine.graph
        s.engine.log in
    with_ready setup a scan.candidates
      (with_engine (record s.engine { graph = scan.graph; log = scan.log }) s)

abbrev pub attend : RunSetup → Answers → LoopState → Turn
attend setup a s =
    if truthy s.engine.blocked_reason
    then go_on (consult setup.context (get_or s.engine.blocked_reason "") s)
    else work setup a s

-- What is done about a decision that was taken before.
abbrev pub obey :
    RunSetup → Answers → Option OrchestratorDecision → Option CapabilityIr → LoopState → Turn
obey setup a (some replan) (some ir) s = go_on (replanned setup.context ir s)
obey setup a (some corrigir) _ s = or_throw (correct setup.context s)
obey setup a _ _ s = attend setup a s

unfoldable pub round : RunSetup → Answers → LoopState → Turn
unfolding correct consult work new_store
round setup a s = if s.paused then go_on s else obey setup a s.decision s.replan_ir s
