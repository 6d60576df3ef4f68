-- ===== src/Engine/Loop/Ends.antt =====
-- engine/execution-engine.ts: an iteration of the loop of run() changes the
-- count of the iterations only where it waits for jobs.
pub mod Bound
use mathlib.Core.Option
use evolve_loop.Base.{
  ℕ, zero, suc, ◌+◌, ◌-◌, ◌≤◌, ◌<◌, String, ◌≡◌, refl, sym, ap, ◌∙◌, ◌≢◌, subst, Bool, true, false,
  ◌&&◌, not, Bool-cases, inl, inr, Option, none, some, get_or, List, [], ◌∷◌, map, take, find, any,
  ltb, if◌then◌else◌, arith,
}
use evolve_loop.Types.{
  CapabilityIr, GraphNode, GraphSnapshot, ExecuteResult, OrchestratorDecision, continuar, corrigir,
  replan,
}
use evolve_loop.Graph.Store.{
  get_all_nodes, is_finished, has_failed_without_retry, new_store, from_snapshot,
}
use evolve_loop.Policies.{max_parallel, retries_for}
use evolve_loop.Evidence.Builders.{truthy}
use evolve_loop.Orchestrator.{decide}
use evolve_loop.Ir.Validate.{validate_ir}
use evolve_loop.Scheduler.{RunHandle, schedule, ready_nodes, running_handles}
use evolve_loop.Engine.State.{RunContext, EngineState}
use evolve_loop.Engine.Results.{process_run_result}
use evolve_loop.Engine.Loop.State.{
  LoopState, Call, pause, resume, abort, request_replan, Answers, RunSetup, Turn, go_on, leave,
  throws, take_call, take_calls,
}
use evolve_loop.Engine.Loop.Dispatch.{
  note_selection, started, start_node, start_batch, await_all, collect, settle_one, settle_all,
  dispatch,
}
use evolve_loop.Engine.Loop.Poll.{poll_waiting_jobs}
use evolve_loop.Engine.Loop.Round.{
  with_engine, or_throw, is_continuar, is_stuck, retry_first, correct, consult, has_waiting, rest,
  after_poll, idle, with_ready, work, attend, obey, round,
}
use evolve_loop.Engine.Loop.Run.{
  Ending, ended, threw, out_of_rounds, counted, goes_on, max_iterations, run_loop, start_run,
  first_graph, stops_run, RunOutcome, run_out_of_rounds, run_threw, finished_run, outcome_of, run,
}
use evolve_loop.Engine.Loop.Backed.{Keeps, Keeps-some, Keeps-elim}
use evolve_loop.Engine.Loop.Backed.Rounds.{After, After-if, After-or_throw}

-- The count of the iterations is `i`.
abbrev pub Counts : ℕ → LoopState → Type 0
Counts i s = s.iterations ≡ i

-- What the code returns, if it returns, is anything.
any_result : {A : Type 0} (o : Option A) → Keeps o (λ a. Unit)
any_result o = record { holds = λ a h. tt }

module _ (setup : RunSetup) (a : Answers) (i : ℕ) where
  abbrev StartCounts : {A : Type 0} → Option (LoopState × A) → Type 0
  StartCounts o = Keeps o (λ p. Counts i p.0)

  start_node-Counts :
      (batch_ids : List String) (n : GraphNode) (s : LoopState)
      → Counts i s
      → StartCounts (start_node setup a batch_ids n s)
  unfolding start_node
  start_node-Counts batch_ids n s c =
      Keeps-elim (a.select n) _ (any_result (a.select n)) (λ chosen u.
        let noted = record s { engine = note_selection n chosen s.engine } in
        let o =
          schedule setup.context.feature setup.context.policy setup.knowledge (a.draw n) n chosen
            batch_ids noted.engine.graph noted.scheduler noted.engine.log in
        Keeps-elim o _ (any_result o)
          (λ st v. Keeps-some (started n chosen st noted, st.request) c))

  start_batch-Counts :
      (batch_ids : List String) (ns : List GraphNode) (s : LoopState)
      → Counts i s
      → StartCounts (start_batch setup a batch_ids ns s)
  unfolding start_batch
  start_batch-Counts batch_ids [] s c = Keeps-some (s, []) c
  start_batch-Counts batch_ids (n ∷ ns) s c =
      Keeps-elim (start_node setup a batch_ids n s) _ (start_node-Counts batch_ids n s c) (λ q d.
        Keeps-elim (start_batch setup a batch_ids ns q.0) _ (start_batch-Counts batch_ids ns q.0 d)
          (λ r f. Keeps-some (r.0, (n, q.1) ∷ r.1) f))

  settle_one-Counts :
      (n : GraphNode) (result : ExecuteResult) (s : LoopState)
      → Counts i s
      → Keeps (settle_one setup.context n result s) (Counts i)
  unfolding settle_one
  settle_one-Counts n result s c =
      let o = process_run_result setup.context result n.id (collect result s).engine in
      Keeps-elim o _ (any_result o) (λ e u. Keeps-some _ c)

  settle_all-Counts :
      (results : List (GraphNode × ExecuteResult)) (s : LoopState)
      → Counts i s
      → Keeps (settle_all setup.context results s) (Counts i)
  unfolding settle_all
  settle_all-Counts [] s c = Keeps-some s c
  settle_all-Counts ((n, result) ∷ results) s c =
      Keeps-elim (settle_one setup.context n result s) _ (settle_one-Counts n result s c)
        (λ t d. settle_all-Counts results t d)

  dispatch-Counts :
      (ready : List GraphNode) (s : LoopState)
      → Counts i s
      → Keeps (dispatch setup a ready s) (Counts i)
  unfolding dispatch
  dispatch-Counts ready s c =
      let batch = take (max_parallel setup.context.policy) ready in
      let batch_ids = map (λ (n : GraphNode). n.id) batch in
      Keeps-elim (start_batch setup a batch_ids batch s) _ (start_batch-Counts batch_ids batch s c)
        (λ p d.
          Keeps-elim (await_all a p.1) _ (any_result (await_all a p.1))
            (λ results u. settle_all-Counts results p.0 d))

  correct-Counts : (s : LoopState) → Counts i s → Keeps (correct setup.context s) (Counts i)
  unfolding correct
  correct-Counts s c =
      let o = retry_first setup.context (find is_stuck (get_all_nodes s.engine.graph)) s.engine in
      Keeps-elim o _ (any_result o) (λ e u. Keeps-some _ c)

  consult-Counts :
      (reason : String) (s : LoopState) → Counts i s → Counts i (consult setup.context reason s)
  unfolding consult
  consult-Counts reason s c = c

  module _ (over : a.may_wait ≡ false) where
    rest-Counts : (s : LoopState) → Counts i s → After (Counts i) (rest setup a s)
    unfolding rest
    rest-Counts s c = After-if (Counts i) (has_waiting s.engine && setup.jobs_dir) _ _ (rw over c) (
        After-if (Counts i)
          (has_failed_without_retry (retries_for setup.context.policy) s.engine.graph) _ _ c
          (After-if (Counts i) (is_finished s.engine.graph) _ _ c c))

    after_poll-Counts :
        (s : LoopState) (o : Option (EngineState × ℕ))
        → Counts i s
        → After (Counts i) (after_poll setup a s o)
    after_poll-Counts s none c = tt
    after_poll-Counts s (some (e, polled)) c =
        After-if (Counts i) (ltb 0 polled) _ _ c (rest-Counts (record s { engine = e }) c)

    idle-Counts : (s : LoopState) → Counts i s → After (Counts i) (idle setup a s)
    unfolding idle
    idle-Counts s c = by_handles (running_handles s.scheduler) refl
      where
        by_handles :
            (hs : List RunHandle)
            → running_handles s.scheduler ≡ hs
            → After (Counts i) (idle setup a s)
        by_handles [] e =
            rw (e, idle)
              (after_poll-Counts s (poll_waiting_jobs setup.context setup.jobs_dir a s.engine) c)
        by_handles (x ∷ hs) e = rw (e, idle) c

    with_ready-Counts :
        (ns : List GraphNode) (s : LoopState)
        → Counts i s
        → After (Counts i) (with_ready setup a ns s)
    with_ready-Counts [] s c = idle-Counts s c
    with_ready-Counts (n ∷ ns) s c =
        After-or_throw (Counts i) (dispatch setup a (n ∷ ns) s) (dispatch-Counts (n ∷ ns) s c)

    attend-Counts : (s : LoopState) → Counts i s → After (Counts i) (attend setup a s)
    unfolding work
    attend-Counts s c =
        After-if (Counts i) (truthy s.engine.blocked_reason) _ _
          (consult-Counts (get_or s.engine.blocked_reason "") s c)
          (with_ready-Counts _ (with_engine _ s) c)

    obey-Counts :
        (d : Option OrchestratorDecision) (ir : Option CapabilityIr) (s : LoopState)
        → Counts i s
        → After (Counts i) (obey setup a d ir s)
    obey-Counts (some replan) (some ir) s c = c
    obey-Counts (some replan) none s c = attend-Counts s c
    obey-Counts (some corrigir) ir s c =
        After-or_throw (Counts i) (correct setup.context s) (correct-Counts s c)
    obey-Counts (some continuar) ir s c = attend-Counts s c
    obey-Counts none ir s c = attend-Counts s c

    pub round-Counts : (s : LoopState) → Counts i s → After (Counts i) (round setup a s)
    unfolding round
    round-Counts s c = After-if (Counts i) s.paused _ _ c (obey-Counts s.decision s.replan_ir s c)
