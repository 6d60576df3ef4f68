-- ===== src/Engine/Settled.antt =====
-- processRunResult of engine/execution-engine.ts: what a node and its neighbours are after a run.
use evolve_loop.Base.{
  String, ◌≡◌, refl, ◌≢◌, ◌↔◌, ◌⊎◌, Bool, true, inl, inr, Option, some, arith, string_eq,
}
use evolve_loop.Types.{
  GraphNode, Evidence, ExecuteResult, satisfied, pending, failed, skipped, node_status_eq,
  on_evidence_missing_eq,
}
use evolve_loop.Graph.Store.{GraphStore, get_node}
use evolve_loop.Graph.Valid.{IsValid}
use evolve_loop.Policies.{min_confidence}
use evolve_loop.Evidence.Validator.Exact.{Suffices}
use evolve_loop.Engine.State.{RunContext, EngineState}
use evolve_loop.Engine.Steps.{Landed}
use evolve_loop.Engine.Branches.{Decided}
use evolve_loop.Engine.Rejection.{Moved, Rejected}

-- The run succeeded with evidence that suffices for the node under the policy.
abbrev pub Proven : RunContext → ExecuteResult → GraphNode → Type 0
Proven c run n =
    (run.success ≡ true)
    × ((ev : Evidence) × (run.evidence ≡ some ev)
        × Suffices ev n.definition_of_done n (min_confidence c.policy))

-- The node of the run afterwards, and the other nodes.
pub record Settled (c : RunContext) (run : ExecuteResult) (id : String) (g : GraphStore)
    (n : GraphNode) (e : EngineState) : Type 0 where
  pub node : GraphNode
  pub at : get_node e.graph id ≡ some node
  pub same_ir : node.ir ≡ n.ir
  pub unskipped : node.status ≢ skipped
  pub satisfied_exact : (node.status ≡ satisfied) ↔ Proven c run n
  pub keeps_evidence : node.status ≡ satisfied → node.evidence ≡ run.evidence
  pub others : (j : String) → id ≢ j → Moved g id e j
  pub valid : IsValid e.graph

module _ (c : RunContext) (run : ExecuteResult) (id : String) (g : GraphStore) (n : GraphNode) where
  -- A node that is left in another status, when there was no proof.
  pub Settled-unproven :
      (r : Option String) (k : GraphNode) (e : EngineState)
      → k.ir ≡ n.ir
      → k.status ≢ skipped
      → k.status ≢ satisfied
      → (Proven c run n → ⊥)
      → Landed id g r k e
      → Settled c run id g n e
  unfolding get_node
  Settled-unproven r k e same run_on other unproven l = record {
    node = k;
    at = l.at;
    same_ir = same;
    unskipped = run_on;
    satisfied_exact = (λ s. absurd (other s), λ p. absurd (unproven p));
    keeps_evidence = λ s. absurd (other s);
    others = λ j differs. inl (l.others j differs);
    valid = l.valid;
  }

  pub Settled-Decided :
      (r : Option String) (again : Bool) (reason : String) (e : EngineState)
      → (Proven c run n → ⊥)
      → Decided c run id g r n again reason e
      → Settled c run id g n e
  unfolding node_status_eq
  Settled-Decided r again reason e unproven (inl (yes_again, l)) =
      Settled-unproven r _ e refl (λ s. ground arith) (λ s. ground arith) unproven l
  Settled-Decided r again reason e unproven (inr (over, l)) =
      Settled-unproven (some reason) _ e refl (λ s. ground arith) (λ s. ground arith) unproven l

  pub Settled-Rejected :
      (e : EngineState) → (Proven c run n → ⊥) → Rejected id g n e → Settled c run id g n e
  unfolding get_node
  Settled-Rejected e unproven l = record {
    node = l.node;
    at = l.at;
    same_ir = l.same_ir;
    unskipped = runs_on l.unsettled;
    satisfied_exact = (λ s. absurd (differs l.unsettled s), λ p. absurd (unproven p));
    keeps_evidence = λ s. absurd (differs l.unsettled s);
    others = l.moved;
    valid = l.valid;
  }
    where
      differs : (l.node.status ≡ failed) ⊎ (l.node.status ≡ pending) → l.node.status ≢ satisfied
      differs (inl f) s = ground arith
      differs (inr p) s = ground arith

      runs_on : (l.node.status ≡ failed) ⊎ (l.node.status ≡ pending) → l.node.status ≢ skipped
      runs_on (inl f) s = ground arith
      runs_on (inr p) s = ground arith

  pub Settled-Proven :
      (r : Option String) (e : EngineState)
      → Proven c run n
      → Landed id g r (record n { status = satisfied; evidence = run.evidence }) e
      → Settled c run id g n e
  unfolding get_node node_status_eq
  Settled-Proven r e proof l = record {
    node = record n { status = satisfied; evidence = run.evidence };
    at = l.at;
    same_ir = refl;
    unskipped = λ s. ground arith;
    satisfied_exact = (λ s. proof, λ p. refl);
    keeps_evidence = λ s. refl;
    others = λ j differs. inl (l.others j differs);
    valid = l.valid;
  }
