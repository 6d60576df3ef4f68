-- ===== src/Engine/Loop/Backed/Rounds.antt =====
-- engine/execution-engine.ts: every iteration of the loop, and so the run, keeps what stands behind the
-- nodes of the store.
use evolve_loop.Base.{
  ℕ, zero, suc, String, ◌≡◌, refl, Bool, true, false, ◌&&◌, Bool-cases, inl, inr, Option, none,
  some, get_or, List, [], ◌∷◌, find, ltb, if◌then◌else◌, arith,
}
use evolve_loop.Types.{
  CapabilityIr, GraphNode, ExecutionPolicy, OrchestratorDecision, continuar, corrigir, replan,
  pending, node_status_eq,
}
use evolve_loop.Graph.Store.{get_all_nodes, is_finished, has_failed_without_retry}
use evolve_loop.Policies.{retries_for}
use evolve_loop.Evidence.Builders.{truthy}
use evolve_loop.Orchestrator.{decide}
use evolve_loop.Scheduler.{RunHandle, ready_nodes, running_handles}
use evolve_loop.Engine.State.{EngineState}
use evolve_loop.Engine.Results.{set_status}
use evolve_loop.Engine.Backing.Scan.{ready_nodes-IsBacked}
use evolve_loop.Engine.Backing.Start.{new_store-IsBacked}
use evolve_loop.Engine.Loop.State.{
  LoopState, Call, pause, resume, abort, request_replan, Answers, RunSetup, Turn, go_on, leave,
  throws, take_call, take_calls,
}
use evolve_loop.Engine.Loop.Dispatch.{dispatch}
use evolve_loop.Engine.Loop.Round.{
  with_engine, or_throw, is_continuar, is_stuck, retry_first, correct, consult, has_waiting, rest,
  after_poll, idle, with_ready, work, attend, obey, round,
}
use evolve_loop.Engine.Loop.Run.{Ending, ended, threw, out_of_rounds, counted, goes_on, run_loop}
use evolve_loop.Engine.Loop.Backed.{
  Keeps, Keeps-some, Keeps-elim, Keeps-bind, Backed, set_status-Backed, invalidate-Backed,
}
use evolve_loop.Engine.Loop.Backed.Batch.{RunBacked, dispatch-RunBacked, poll_waiting_jobs-Backed}

-- What holds of the state that an iteration ends with, if it does not end by an exception.
abbrev pub After : (LoopState → Type 0) → Turn → Type 0
After P (go_on s) = P s
After P (leave s) = P s
After P throws = Unit

pub After-or_throw :
    (P : LoopState → Type 0) (o : Option LoopState) → Keeps o P → After P (or_throw o)
After-or_throw P none k = tt
After-or_throw P (some s) k = k.holds s refl

-- A choice of the code that is the same for both of its ways.
pub After-if :
    (P : LoopState → Type 0) (b : Bool) (t u : Turn)
    → After P t
    → After P u
    → After P (if b then t else u)
After-if P true t u p q = p
After-if P false t u p q = q

pub take_calls-RunBacked :
    (policy : ExecutionPolicy) (cs : List Call) (s : LoopState)
    → RunBacked policy s
    → RunBacked policy (take_calls cs s)
take_calls-RunBacked policy [] s b = b
take_calls-RunBacked policy (pause ∷ cs) s b = take_calls-RunBacked policy cs (take_call pause s) b
take_calls-RunBacked policy (resume ∷ cs) s b =
    take_calls-RunBacked policy cs (take_call resume s) b
take_calls-RunBacked policy (abort ∷ cs) s b = take_calls-RunBacked policy cs (take_call abort s) b
take_calls-RunBacked policy (request_replan ir ∷ cs) s b =
    take_calls-RunBacked policy cs (take_call (request_replan ir) s) b

module _ (setup : RunSetup) (a : Answers) where
  abbrev Good : LoopState → Type 0
  Good = RunBacked setup.context.policy

  consult-Good : (reason : String) (s : LoopState) → Good s → Good (consult setup.context reason s)
  unfolding consult
  consult-Good reason s b = elim (Bool-cases (is_continuar (decide reason))) [
    | inl free ↦ rw (free, consult) b
    | inr held ↦ rw (held, consult) b
  ]

  retry_first-Backed :
      (o : Option GraphNode) (e : EngineState)
      → Backed setup.context.policy e
      → Keeps (retry_first setup.context o e) (Backed setup.context.policy)
  unfolding node_status_eq
  retry_first-Backed none e b = Keeps-some e b
  retry_first-Backed (some n) e b =
      Keeps-bind (set_status n.id pending e) _
        (set_status-Backed setup.context n.id pending e (λ p. ground arith) (λ p. ground arith) b)
        (λ t good. invalidate-Backed setup.context n.id t good)

  correct-Good : (s : LoopState) → Good s → Keeps (correct setup.context s) Good
  unfolding correct
  correct-Good s b =
      let o = find is_stuck (get_all_nodes s.engine.graph) in
      Keeps-elim (retry_first setup.context o s.engine) _ (retry_first-Backed o s.engine b)
        (λ e good. Keeps-some _ good)

  rest-Good : (s : LoopState) → Good s → After Good (rest setup a s)
  unfolding rest
  rest-Good s b =
      After-if Good (has_waiting s.engine && setup.jobs_dir) _ _ (After-if Good a.may_wait _ _ b b)
        (After-if Good (has_failed_without_retry (retries_for setup.context.policy) s.engine.graph)
          _ _ b (After-if Good (is_finished s.engine.graph) _ _ b b))

  after_poll-Good :
      (s : LoopState) (o : Option (EngineState × ℕ))
      → Good s
      → Keeps o (λ p. Backed setup.context.policy p.0)
      → After Good (after_poll setup a s o)
  after_poll-Good s none b k = tt
  after_poll-Good s (some (e, polled)) b k =
      let good = k.holds (e, polled) refl in
      After-if Good (ltb 0 polled) _ _ good (rest-Good (record s { engine = e }) good)

  idle-Good : (s : LoopState) → Good s → After Good (idle setup a s)
  unfolding idle
  idle-Good s b = by_handles (running_handles s.scheduler) refl
    where
      by_handles :
          (hs : List RunHandle) → running_handles s.scheduler ≡ hs → After Good (idle setup a s)
      by_handles [] e =
          rw (e, idle)
            (after_poll-Good s _ b
              (poll_waiting_jobs-Backed setup.context setup.jobs_dir a s.engine b))
      by_handles (x ∷ hs) e = rw (e, idle) b

  with_ready-Good :
      (ns : List GraphNode) (s : LoopState) → Good s → After Good (with_ready setup a ns s)
  with_ready-Good [] s b = idle-Good s b
  with_ready-Good (n ∷ ns) s b =
      After-or_throw Good (dispatch setup a (n ∷ ns) s) (dispatch-RunBacked setup a (n ∷ ns) s b)

  work-Good : (s : LoopState) → Good s → After Good (work setup a s)
  unfolding work
  work-Good s b =
      let scan =
        ready_nodes setup.locale_after setup.context.policy setup.context.feature s.engine.graph
          s.engine.log in
      with_ready-Good scan.candidates
        (with_engine (record s.engine { graph = scan.graph; log = scan.log }) s)
        (ready_nodes-IsBacked setup.context.policy setup.context.feature setup.locale_after
          s.engine.graph s.engine.log b)

  attend-Good : (s : LoopState) → Good s → After Good (attend setup a s)
  attend-Good s b =
      After-if Good (truthy s.engine.blocked_reason) _ _
        (consult-Good (get_or s.engine.blocked_reason "") s b) (work-Good s b)

  obey-Good :
      (d : Option OrchestratorDecision) (ir : Option CapabilityIr) (s : LoopState)
      → Good s
      → After Good (obey setup a d ir s)
  obey-Good (some replan) (some ir) s b = new_store-IsBacked setup.context.policy ir
  obey-Good (some replan) none s b = attend-Good s b
  obey-Good (some corrigir) ir s b =
      After-or_throw Good (correct setup.context s) (correct-Good s b)
  obey-Good (some continuar) ir s b = attend-Good s b
  obey-Good none ir s b = attend-Good s b

  -- One iteration keeps the store backed.
  pub round-RunBacked :
      (s : LoopState)
      → RunBacked setup.context.policy s
      → After (RunBacked setup.context.policy) (round setup a s)
  unfolding round
  round-RunBacked s b = After-if Good s.paused _ _ b (obey-Good s.decision s.replan_ir s b)

-- What holds of the state that the loop ends with, if it ends with one.
abbrev pub AtEnd : (LoopState → Type 0) → Ending → Type 0
AtEnd P (ended s) = P s
AtEnd P threw = Unit
AtEnd P out_of_rounds = Unit

counted-RunBacked :
    (policy : ExecutionPolicy) (s : LoopState) → RunBacked policy s → RunBacked policy (counted s)
counted-RunBacked policy s b = elim (Bool-cases (is_finished s.engine.graph)) [
  | inl done ↦ rw (done, counted) b
  | inr more ↦ rw (more, counted) b
]

module _ (setup : RunSetup) (answers : ℕ → Answers) where
  AtEnd-round :
      (P : LoopState → Type 0) (next : LoopState → Ending) (t : Turn)
      → After P t
      → ((s : LoopState) → P s → AtEnd P (next s))
      → AtEnd P (elim t [ throws ↦ threw | leave s ↦ ended s | go_on s ↦ next s ])
  AtEnd-round P next (go_on s) p rounds = rounds s p
  AtEnd-round P next (leave s) p rounds = p
  AtEnd-round P next throws p rounds = tt

  -- The loop keeps the store backed, however it ends and whatever the answers.
  pub run_loop-RunBacked :
      (fuel k : ℕ) (s : LoopState)
      → RunBacked setup.context.policy s
      → AtEnd (RunBacked setup.context.policy) (run_loop setup answers fuel k s)
  unfolding run_loop
  run_loop-RunBacked zero k s b = tt
  run_loop-RunBacked (suc fuel) k s b =
      let s' = take_calls (answers k).calls s in
      let good =
        counted-RunBacked setup.context.policy s'
          (take_calls-RunBacked setup.context.policy (answers k).calls s b) in
      elim (Bool-cases (goes_on s')) [
        | inr over ↦ rw (over, run_loop) good
        | inl on ↦
            rw (on, run_loop)
              (AtEnd-round (RunBacked setup.context.policy) _ (round setup (answers k) (counted s'))
                (round-RunBacked setup (answers k) (counted s') good)
                (λ t next. run_loop-RunBacked fuel (suc k) t next))
      ]
