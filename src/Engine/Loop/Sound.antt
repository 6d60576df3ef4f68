-- ===== src/Engine/Loop/Sound.antt =====
-- run() of engine/execution-engine.ts: what a result of the run says about the nodes of its graph.
use evolve_loop.Base.{
  ℕ, ◌≡◌, refl, ap, ◌∙◌, ◌≢◌, subst, Bool, true, false, ◌&&◌, not, Bool-cases, inl, inr, Option,
  none, some, Memᴰ, any, all-mem, values, if◌then◌else◌, arith,
}
use evolve_loop.Types.{CapabilityIr, GraphNode, GraphSnapshot, ExecutionPolicy}
use evolve_loop.Graph.Store.{is_done, is_finished, get_all_nodes, snapshot}
use evolve_loop.Graph.Walk.Invalidate.{lookup-mem}
use evolve_loop.Ir.Validate.{validate_ir}
use evolve_loop.Engine.State.{EngineState, block}
use evolve_loop.Engine.Backing.{Earned, IsBacked}
use evolve_loop.Engine.Backing.Start.{new_store-IsBacked, from_snapshot-IsBacked}
use evolve_loop.Engine.Loop.State.{LoopState, Answers, RunSetup}
use evolve_loop.Engine.Loop.Round.{with_engine}
use evolve_loop.Engine.Loop.Run.{
  Ending, ended, threw, out_of_rounds, start_run, RunResult, name_block, succeeded, closed,
  named_checkpoint, conclude, stops_run, first_graph, RunOutcome, finished_run, run_threw,
  run_out_of_rounds, outcome_of, run,
}
use evolve_loop.Engine.Loop.Backed.Batch.{RunBacked}
use evolve_loop.Engine.Loop.Backed.Rounds.{AtEnd, run_loop-RunBacked}

-- The nodes of a checkpoint, if there is one, have earned their status.
abbrev pub CheckpointEarned : ExecutionPolicy → Option GraphSnapshot → Type 0
CheckpointEarned policy none = Unit
CheckpointEarned policy (some s) = (n : GraphNode) → Memᴰ n s.nodes → Earned policy n

first_graph-IsBacked :
    (policy : ExecutionPolicy) (ir : CapabilityIr) (checkpoint : Option GraphSnapshot)
    → CheckpointEarned policy checkpoint
    → IsBacked policy (first_graph ir checkpoint)
first_graph-IsBacked policy ir none _ = new_store-IsBacked policy ir
first_graph-IsBacked policy ir (some s) all = from_snapshot-IsBacked policy s all

-- Naming the blockage and the last event leave the graph and the abort alone.
record SameEnd (s t : LoopState) : Type 0 where
  graph : t.engine.graph ≡ s.engine.graph
  aborted : t.aborted ≡ s.aborted

SameEnd-with_engine :
    (s : LoopState) (e : EngineState) → e.graph ≡ s.engine.graph → SameEnd s (with_engine e s)
SameEnd-with_engine s e same = record { graph = same; aborted = refl }

SameEnd-refl : (s : LoopState) → SameEnd s s
SameEnd-refl s = record { graph = refl; aborted = refl }

SameEnd-if :
    (b : Bool) (s t u : LoopState) → SameEnd s t → SameEnd s u → SameEnd s (if b then t else u)
SameEnd-if true s t u p q = p
SameEnd-if false s t u p q = q

name_block-SameEnd : (s : LoopState) → SameEnd s (name_block s)
name_block-SameEnd s =
    let e = s.engine in
    SameEnd-if _ s _ _ (SameEnd-refl s) (
      SameEnd-if _ s _ _ (SameEnd-with_engine s (block "awaiting_external_jobs" e) refl) (
        SameEnd-if _ s _ _ (SameEnd-with_engine s (block "max_iterations" e) refl)
          (SameEnd-refl s)))

named_checkpoint-SameEnd : (setup : RunSetup) (s : LoopState) → SameEnd s (named_checkpoint setup s)
named_checkpoint-SameEnd setup s =
    SameEnd-if _ s _ _ (SameEnd-with_engine s (block "awaiting_external_jobs" s.engine) refl)
      (SameEnd-refl s)

conclude-graph :
    (setup : RunSetup) (s : LoopState)
    → ((conclude setup s).graph ≡ snapshot s.engine.graph)
      × ((conclude setup s).success ≡ succeeded s)
unfolding conclude
conclude-graph setup s =
    let t = closed setup.context (name_block s) in
    let first = name_block-SameEnd s in
    let last = named_checkpoint-SameEnd setup t in
    let graph = last.graph ∙ first.graph in
    (
      ap snapshot graph,
      ap (λ h. is_finished h && not (named_checkpoint setup t).aborted) graph
          ∙ ap (λ b. is_finished s.engine.graph && not b) (last.aborted ∙ first.aborted),
    )

-- What the nodes of a result are.
pub record AllEarned (policy : ExecutionPolicy) (r : RunResult) : Type 0 where
  pub earned : (n : GraphNode) → Memᴰ n r.graph.nodes → Earned policy n
  pub complete : r.success ≡ true → (n : GraphNode) → Memᴰ n r.graph.nodes → is_done n.status ≡ true

conclude-AllEarned :
    (setup : RunSetup) (s : LoopState)
    → RunBacked setup.context.policy s
    → AllEarned setup.context.policy (conclude setup s)
unfolding snapshot get_all_nodes is_finished
conclude-AllEarned setup s b =
    let (graph, success) = conclude-graph setup s in
    record {
      earned = λ n m.
          let (k, found) =
            lookup-mem s.engine.graph.nodes n b.valid.distinct
              (subst (λ g. Memᴰ n g.nodes) graph m) in
          b.earned k n found;
      complete = λ ok n m.
          let finished : is_finished s.engine.graph ≡ true = ground (arith, ok, success) in
          all-mem (λ (k : GraphNode). is_done k.status) (values s.engine.graph.nodes) n finished
            (subst (λ g. Memᴰ n g.nodes) graph m);
    }

finished_run_injective : {r r' : RunResult} → finished_run r ≡ finished_run r' → r ≡ r'
finished_run_injective {r = r} h = ap (λ o. result_or o) h
  where
    result_or : RunOutcome → RunResult
    result_or (finished_run q) = q
    result_or run_threw = r
    result_or run_out_of_rounds = r

outcome_of-AllEarned :
    (setup : RunSetup) (o : Ending) (r : RunResult)
    → AtEnd (RunBacked setup.context.policy) o
    → outcome_of setup o ≡ finished_run r
    → AllEarned setup.context.policy r
outcome_of-AllEarned setup (ended s) r b h =
    subst (AllEarned setup.context.policy) (finished_run_injective h) (conclude-AllEarned setup s b)
outcome_of-AllEarned setup threw r b h = absurd (cc)
outcome_of-AllEarned setup out_of_rounds r b h = absurd (cc)

-- In the result of every run that starts from a new graph, or from a checkpoint whose nodes have earned
-- their status, each node that is satisfied holds evidence that meets its definition of done, the
-- policy's minimal confidence and, for a gate, the verdict, and each node that is skipped is a gate that
-- the policy disables. If the result is a success, each node is satisfied or skipped. This holds
-- whatever the providers, the external jobs and the calls from outside did.
pub run-AllEarned :
    (setup : RunSetup) (answers : ℕ → Answers) (fuel : ℕ) (ir : CapabilityIr)
    (checkpoint : Option GraphSnapshot) (r : RunResult)
    → CheckpointEarned setup.context.policy checkpoint
    → run setup answers fuel ir checkpoint ≡ finished_run r
    → AllEarned setup.context.policy r
unfolding run start_run
run-AllEarned setup answers fuel ir checkpoint r start h =
    elim (Bool-cases (any stops_run (validate_ir ir none))) [
      | inl stopped ↦ absurd (stuck (rw (stopped, run) at h))
      | inr valid ↦
          outcome_of-AllEarned setup _ r
            (run_loop-RunBacked setup answers fuel 0 (start_run setup ir checkpoint)
              (first_graph-IsBacked setup.context.policy ir checkpoint start))
            (rw (valid, run) at h)
    ]
  where
    stuck : run_threw ≢ finished_run r
    stuck e = cc
