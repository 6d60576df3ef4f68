-- ===== src/Engine/Loop/Backed/Batch.antt =====
-- engine/execution-engine.ts: the start of a batch, its results and those of external jobs keep what
-- stands behind the nodes of the store.
use evolve_loop.Base.{
  ℕ, ◌+◌, String, ◌≡◌, refl, Bool, true, false, Option-cases, inl, inr, Option, some, List, [], ◌∷◌,
  map, take, arith,
}
use evolve_loop.Types.{
  GraphNode, ExecutionPolicy, ExecuteResult, KnowledgeEntry, running, node_status_eq,
}
use evolve_loop.Graph.Store.{GraphStore, get_node, set_node_status, set_provider}
use evolve_loop.Policies.{max_parallel}
use evolve_loop.Events.{Event}
use evolve_loop.Jobs.{SkillJob, SkillJobResult, job_result_to_execute_result}
use evolve_loop.Scheduler.{Draw, Selected, SchedulerState, schedule}
use evolve_loop.Engine.State.{RunContext, EngineState}
use evolve_loop.Engine.Results.{set_status, process_run_result}
use evolve_loop.Engine.Backing.{IsBacked, Earned-open, Suffices-same_ir, IsBacked-with_node}
use evolve_loop.Engine.Loop.State.{LoopState, Answers, RunSetup}
use evolve_loop.Engine.Loop.Dispatch.{
  note_selection, started, start_node, start_batch, await_all, collect, settle_one, settle_all,
  dispatch,
}
use evolve_loop.Engine.Loop.Poll.{ready_job, resume_job, poll_node, poll_each, poll_waiting_jobs}
use evolve_loop.Engine.Loop.Backed.{
  Keeps, Keeps-some, Keeps-elim, Keeps-bind, Backed, set_status-Backed, process_run_result-Backed,
}

-- The start of a run leaves its node running.
schedule-IsBacked :
    (feature : String) (policy : ExecutionPolicy) (entries : List KnowledgeEntry) (draw : Draw)
    (n : GraphNode) (chosen : Selected) (batch : List String) (g : GraphStore) (s : SchedulerState)
    (log : List Event)
    → IsBacked policy g
    → Keeps
        (schedule feature policy entries draw n chosen batch g s log)
        (λ st. IsBacked policy st.graph)
unfolding schedule set_node_status set_provider node_status_eq
schedule-IsBacked feature policy entries draw n chosen batch g s log b =
    Keeps-elim (set_node_status n.id running g) _ (record { holds = on_status })
      (λ g1 b1.
        Keeps-elim (set_provider n.id chosen.provider_id draw.run_id g1) _
          (record { holds = λ g2 gave. on_provider g1 g2 gave b1 }) (λ g2 b2. Keeps-some _ b2))
  where
    on_status : (g1 : GraphStore) → set_node_status n.id running g ≡ some g1 → IsBacked policy g1
    on_status g1 gave =
        IsBacked-with_node policy n.id (λ k. record k { status = running }) g g1 (λ k. refl)
          (λ k found.
            Earned-open policy (record k { status = running }) (λ p. ground arith)
              (λ p. ground arith))
          gave b

    on_provider :
        (g1 g2 : GraphStore)
        → set_provider n.id chosen.provider_id draw.run_id g1 ≡ some g2
        → IsBacked policy g1
        → IsBacked policy g2
    on_provider g1 g2 gave b1 =
        IsBacked-with_node policy n.id
          (λ k. record k { provider_id = some chosen.provider_id; run_id = some draw.run_id }) g1 g2
          (λ k. refl)
          (λ k found.
            let old = b1.earned n.id k found in
            record {
              proven = λ p.
                  let (ev, has, enough) = old.proven p in
                  (ev, has, Suffices-same_ir ev k _ policy refl enough);
              disabled = λ p. old.disabled p;
            })
          gave b1

-- The store of the loop's state is backed.
abbrev pub RunBacked : ExecutionPolicy → LoopState → Type 0
RunBacked policy s = IsBacked policy s.engine.graph

module _ (setup : RunSetup) (a : Answers) where
  abbrev GoodStart : {A : Type 0} → Option (LoopState × A) → Type 0
  GoodStart {A = A} o = Keeps o (λ p. RunBacked setup.context.policy p.0)

  start_node-RunBacked :
      (batch_ids : List String) (n : GraphNode) (s : LoopState)
      → RunBacked setup.context.policy s
      → GoodStart (start_node setup a batch_ids n s)
  unfolding start_node
  start_node-RunBacked batch_ids n s b =
      Keeps-elim {P = λ chosen. Unit} (a.select n) _ (record { holds = λ chosen gave. tt })
        (λ chosen u.
          let noted = record s { engine = note_selection n chosen s.engine } in
          Keeps-elim
            (schedule setup.context.feature setup.context.policy setup.knowledge (a.draw n) n chosen
              batch_ids noted.engine.graph noted.scheduler noted.engine.log)
            _
            (schedule-IsBacked setup.context.feature setup.context.policy setup.knowledge (a.draw n)
              n chosen batch_ids noted.engine.graph noted.scheduler noted.engine.log b)
            (λ st good. Keeps-some (started n chosen st noted, st.request) good))

  start_batch-RunBacked :
      (batch_ids : List String) (ns : List GraphNode) (s : LoopState)
      → RunBacked setup.context.policy s
      → GoodStart (start_batch setup a batch_ids ns s)
  unfolding start_batch
  start_batch-RunBacked batch_ids [] s b = Keeps-some (s, []) b
  start_batch-RunBacked batch_ids (n ∷ ns) s b =
      Keeps-elim (start_node setup a batch_ids n s) _ (start_node-RunBacked batch_ids n s b)
        (λ q good.
          Keeps-elim (start_batch setup a batch_ids ns q.0) _
            (start_batch-RunBacked batch_ids ns q.0 good)
            (λ r good'. Keeps-some (r.0, (n, q.1) ∷ r.1) good'))

module _ (c : RunContext) where
  settle_one-RunBacked :
      (n : GraphNode) (result : ExecuteResult) (s : LoopState)
      → RunBacked c.policy s
      → Keeps (settle_one c n result s) (RunBacked c.policy)
  unfolding settle_one
  settle_one-RunBacked n result s b =
      let s' = collect result s in
      Keeps-elim (process_run_result c result n.id s'.engine) _
        (process_run_result-Backed c result n.id s'.engine b) (λ e good. Keeps-some _ good)

  settle_all-RunBacked :
      (results : List (GraphNode × ExecuteResult)) (s : LoopState)
      → RunBacked c.policy s
      → Keeps (settle_all c results s) (RunBacked c.policy)
  unfolding settle_all
  settle_all-RunBacked [] s b = Keeps-some s b
  settle_all-RunBacked ((n, result) ∷ results) s b =
      Keeps-elim (settle_one c n result s) _ (settle_one-RunBacked n result s b)
        (λ t good. settle_all-RunBacked results t good)

  resume_job-Backed :
      (a : Answers) (n : GraphNode) (job : SkillJob) (result : SkillJobResult) (e : EngineState)
      → Backed c.policy e
      → Keeps (resume_job c a n job result e) (Backed c.policy)
  unfolding resume_job node_status_eq
  resume_job-Backed a n job result e b =
      Keeps-bind (set_status n.id running e) _
        (set_status-Backed c n.id running e (λ p. ground arith) (λ p. ground arith) b)
        (λ t good.
          process_run_result-Backed c
            (job_result_to_execute_result a.load_evidence c.now job result n) n.id t good)

  abbrev GoodPoll : Option (EngineState × ℕ) → Type 0
  GoodPoll o = Keeps o (λ p. Backed c.policy p.0)

  poll_node-Backed :
      (a : Answers) (id : String) (e : EngineState)
      → Backed c.policy e
      → GoodPoll (poll_node c a id e)
  unfolding poll_node
  poll_node-Backed a id e b = elim (Option-cases (get_node e.graph id)) [
    | inl absent ↦ rw (absent, poll_node) (Keeps-some (e, 0) b)
    | inr (n, here) ↦ elim (Option-cases (ready_job a n)) [
      | inl early ↦ rw (here, early, poll_node) (Keeps-some (e, 0) b)
      | inr ((job, result), done) ↦
          rw (here, done, poll_node)
            (Keeps-elim (resume_job c a n job result e) _ (resume_job-Backed a n job result e b)
              (λ t good. Keeps-some (t, 1) good))
    ]
  ]

  poll_each-Backed :
      (a : Answers) (ids : List String) (e : EngineState)
      → Backed c.policy e
      → GoodPoll (poll_each c a ids e)
  unfolding poll_each
  poll_each-Backed a [] e b = Keeps-some (e, 0) b
  poll_each-Backed a (id ∷ ids) e b =
      Keeps-elim (poll_node c a id e) _ (poll_node-Backed a id e b) (λ q good.
        Keeps-elim (poll_each c a ids q.0) _ (poll_each-Backed a ids q.0 good)
          (λ r good'. Keeps-some (r.0, q.1 + r.1) good'))

-- The batch of an iteration keeps the store backed.
pub dispatch-RunBacked :
    (setup : RunSetup) (a : Answers) (ready : List GraphNode) (s : LoopState)
    → RunBacked setup.context.policy s
    → Keeps (dispatch setup a ready s) (RunBacked setup.context.policy)
unfolding dispatch
dispatch-RunBacked setup a ready s b =
    let batch = take (max_parallel setup.context.policy) ready in
    let batch_ids = map (λ (n : GraphNode). n.id) batch in
    Keeps-elim (start_batch setup a batch_ids batch s) _
      (start_batch-RunBacked setup a batch_ids batch s b)
      (λ p good.
        Keeps-elim {P = λ results. Unit} (await_all a p.1) _ (record { holds = λ results came. tt })
          (λ results u. settle_all-RunBacked setup.context results p.0 good))

-- The results of external jobs keep the store backed.
pub poll_waiting_jobs-Backed :
    (c : RunContext) (jobs_dir : Bool) (a : Answers) (e : EngineState)
    → Backed c.policy e
    → Keeps (poll_waiting_jobs c jobs_dir a e) (λ p. Backed c.policy p.0)
unfolding poll_waiting_jobs
poll_waiting_jobs-Backed c true a e b = poll_each-Backed c a _ e b
poll_waiting_jobs-Backed c false a e b = Keeps-some (e, 0) b
