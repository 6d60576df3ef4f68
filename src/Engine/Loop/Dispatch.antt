-- ===== src/Engine/Loop/Dispatch.antt =====
-- engine/execution-engine.ts: the batch of an iteration. All its nodes are started before the first
-- result is looked at. `none` is an exception.
use evolve_loop.Base.{◌+◌, String, Option, none, some, List, [], ◌∷◌, ◌++◌, map, take}
use evolve_loop.Types.{GraphNode, ExecuteRequest, ExecuteResult}
use evolve_loop.Policies.{max_parallel}
use evolve_loop.Events.{provider_selected}
use evolve_loop.Scheduler.{Selected, Started, schedule, remove_run, consume_scheduling_evidence}
use evolve_loop.Telemetry.{record_capability}
use evolve_loop.Engine.State.{RunContext, EngineState, notify}
use evolve_loop.Engine.Results.{process_run_result}
use evolve_loop.Engine.Loop.State.{LoopState, Answers, RunSetup}

-- The evidence of the selection and the capability are noted before the node is started.
abbrev pub note_selection : GraphNode → Selected → EngineState → EngineState
note_selection n chosen e = record e {
  metrics = record_capability n.capability e.metrics;
  all_evidence = e.all_evidence ++ chosen.selection_evidence ∷ [];
}

-- What `schedule` did, with the subscription of the metrics to its ProviderSelected event.
abbrev pub started : GraphNode → Selected → Started → LoopState → LoopState
started n chosen st s = record s {
  engine = record s.engine {
    graph = st.graph;
    log = st.log;
    metrics = notify (provider_selected n.id chosen.provider_id) s.engine.metrics;
  };
  scheduler = st.scheduler;
}

unfoldable pub start_node :
    RunSetup → Answers → List String → GraphNode → LoopState → Option (LoopState × ExecuteRequest)
unfolding schedule
start_node setup a batch_ids n s = elim (a.select n) [
  | none ↦ none
  | some chosen ↦
      let noted = record s { engine = note_selection n chosen s.engine } in
      elim (schedule setup.context.feature setup.context.policy setup.knowledge (a.draw n) n chosen
        batch_ids noted.engine.graph noted.scheduler noted.engine.log) [
          | none ↦ none
          | some st ↦ some (started n chosen st noted, st.request)
        ]
]

-- The started nodes with their requests, in the order of the batch.
abbrev pub Handles : Type 0
Handles = List (GraphNode × ExecuteRequest)

unfoldable pub start_batch :
    RunSetup → Answers → List String → List GraphNode → LoopState → Option (LoopState × Handles)
unfolding start_node
start_batch setup a batch_ids [] s = some (s, [])
start_batch setup a batch_ids (n ∷ ns) s = elim (start_node setup a batch_ids n s) [
  | none ↦ none
  | some (s', request) ↦ elim (start_batch setup a batch_ids ns s') [
    | none ↦ none
    | some (s'', handles) ↦ some (s'', (n, request) ∷ handles)
  ]
]

-- `Promise.all`: one rejection rejects all.
unfoldable pub await_all : Answers → Handles → Option (List (GraphNode × ExecuteResult))
await_all a [] = some []
await_all a ((n, request) ∷ handles) = elim (a.execute request) [
  | none ↦ none
  | some result ↦ elim (await_all a handles) [
    | none ↦ none
    | some results ↦ some ((n, result) ∷ results)
  ]
]

-- The run is taken off the scheduler, and the evidence of the scheduling is collected.
abbrev pub collect : ExecuteResult → LoopState → LoopState
collect result s =
    let (evidence, scheduler) =
      consume_scheduling_evidence (remove_run result.run_id s.scheduler) in
    record s {
      engine = record s.engine { all_evidence = s.engine.all_evidence ++ evidence };
      scheduler = scheduler;
    }

unfoldable pub settle_one : RunContext → GraphNode → ExecuteResult → LoopState → Option LoopState
unfolding process_run_result remove_run consume_scheduling_evidence
settle_one c n result s =
    let s' = collect result s in
    elim (process_run_result c result n.id s'.engine) [
      | none ↦ none
      | some e ↦ some (record s' { engine = e; nodes_executed = s'.nodes_executed + 1 })
    ]

unfoldable pub settle_all :
    RunContext → List (GraphNode × ExecuteResult) → LoopState → Option LoopState
unfolding settle_one
settle_all c [] s = some s
settle_all c ((n, result) ∷ rest) s = elim (settle_one c n result s) [
  | none ↦ none
  | some s' ↦ settle_all c rest s'
]

unfoldable pub dispatch : RunSetup → Answers → List GraphNode → LoopState → Option LoopState
unfolding start_batch await_all settle_all max_parallel
dispatch setup a ready s =
    let batch = take (max_parallel setup.context.policy) ready in
    elim (start_batch setup a (map (λ (n : GraphNode). n.id) batch) batch s) [
      | none ↦ none
      | some (s', handles) ↦ elim (await_all a handles) [
        | none ↦ none
        | some results ↦ settle_all setup.context results s'
      ]
    ]
