-- ===== src/Engine/Loop/Poll.antt =====
-- pollWaitingJobs of engine/execution-engine.ts. The nodes are the store's objects, so the status and the
-- run of a node are those that the nodes before it left.
use evolve_loop.Base.{
  ℕ, ◌+◌, String, Bool, ◌&&◌, Option, none, some, get_or, List, [], ◌∷◌, map, if◌then◌else◌, ◌==◌,
}
use evolve_loop.Types.{GraphNode, waiting, running, node_status_eq}
use evolve_loop.Graph.Store.{get_node, get_all_nodes}
use evolve_loop.Evidence.Builders.{truthy}
use evolve_loop.Jobs.{SkillJob, SkillJobResult, job_result_to_execute_result}
use evolve_loop.Engine.State.{RunContext, EngineState, ◌>>=◌}
use evolve_loop.Engine.Results.{set_status, process_run_result}
use evolve_loop.Engine.Loop.State.{Answers}

-- The job of the node, if it waits for one that is completed.
abbrev pub ready_job : Answers → GraphNode → Option (SkillJob × SkillJobResult)
ready_job a n =
    if n.status == waiting && truthy n.run_id then a.completed_job (get_or n.run_id "") else none

unfoldable pub resume_job :
    RunContext → Answers → GraphNode → SkillJob → SkillJobResult → EngineState → Option EngineState
unfolding process_run_result job_result_to_execute_result
resume_job c a n job result e =
    let run = job_result_to_execute_result a.load_evidence c.now job result n in
    set_status n.id running e >>= process_run_result c run n.id

-- One node: the new state, and how many results were taken in.
unfoldable pub poll_node : RunContext → Answers → String → EngineState → Option (EngineState × ℕ)
unfolding get_node resume_job
poll_node c a id e = elim (get_node e.graph id) [
  | none ↦ some (e, 0)
  | some n ↦ elim (ready_job a n) [
    | none ↦ some (e, 0)
    | some (job, result) ↦ elim (resume_job c a n job result e) [
      | none ↦ none
      | some e' ↦ some (e', 1)
    ]
  ]
]

unfoldable pub poll_each :
    RunContext → Answers → List String → EngineState → Option (EngineState × ℕ)
unfolding poll_node
poll_each c a [] e = some (e, 0)
poll_each c a (id ∷ ids) e = elim (poll_node c a id e) [
  | none ↦ none
  | some (e', k) ↦ elim (poll_each c a ids e') [ none ↦ none | some (e'', l) ↦ some (e'', k + l) ]
]

unfoldable pub poll_waiting_jobs :
    RunContext → Bool → Answers → EngineState → Option (EngineState × ℕ)
unfolding poll_each get_all_nodes
poll_waiting_jobs c jobs_dir a e =
    if jobs_dir
    then poll_each c a (map (λ (n : GraphNode). n.id) (get_all_nodes e.graph)) e
    else some (e, 0)
