-- ===== src/Engine/Loop/Backed.antt =====
-- engine/execution-engine.ts: the parts of an iteration keep what stands behind the nodes of the store.

pub mod Batch
pub mod Rounds
use evolve_loop.Base.{
  String, ◌≡◌, refl, sym, ap, ◌∙◌, ◌≢◌, subst, Option-cases, inl, inr, Option, none, some,
  some_injective, none-not-some, lookup, string_cases, arith,
}
use evolve_loop.Types.{
  GraphNode, ExecutionPolicy, ExecuteResult, NodeStatus, satisfied, skipped, node_status_eq,
}
use evolve_loop.Graph.Store.{get_node, set_node_status}
use evolve_loop.Graph.Walk.{reset, invalidate_downstream}
use evolve_loop.Engine.State.{◌>>=◌, RunContext, EngineState, on_graph, invalidate}
use evolve_loop.Engine.Results.{set_status, process_run_result}
use evolve_loop.Engine.Rejection.{Moved}
use evolve_loop.Engine.Settled.{Settled}
use evolve_loop.Engine.Outcome.{process_run_result_settles}
use evolve_loop.Engine.Backing.{
  Earned, IsBacked, Earned-open, Suffices-same_ir, IsBacked-with_node,
  IsBacked-invalidate_downstream,
}

-- Whatever the code returns satisfies `P`.
pub record Keeps {A : Type 0} (o : Option A) (P : A → Type 0) : Type 0 where
  pub holds : (a : A) → o ≡ some a → P a

pub Keeps-some : {A : Type 0} {P : A → Type 0} (a : A) → P a → Keeps (some a) P
Keeps-some {P = P} a p = record { holds = λ b h. subst P (some_injective h) p }

-- One part of the code after another, where an exception of the first ends both.
pub Keeps-elim :
    {A B : Type 0} {P : A → Type 0} {Q : B → Type 0} (o : Option A) (k : A → Option B)
    → Keeps o P
    → ((a : A) → P a → Keeps (k a) Q)
    → Keeps (elim o [ none ↦ none | some a ↦ k a ]) Q
Keeps-elim none k p q = record { holds = λ b h. absurd (none-not-some h) }
Keeps-elim (some a) k p q = q a (p.holds a refl)

pub Keeps-bind :
    {A B : Type 0} {P : A → Type 0} {Q : B → Type 0} (o : Option A) (k : A → Option B)
    → Keeps o P
    → ((a : A) → P a → Keeps (k a) Q)
    → Keeps (o >>= k) Q
Keeps-bind none k p q = record { holds = λ b h. absurd (none-not-some h) }
Keeps-bind (some a) k p q = q a (p.holds a refl)

-- The store of the state is backed.
abbrev pub Backed : ExecutionPolicy → EngineState → Type 0
Backed policy e = IsBacked policy e.graph

module _ (c : RunContext) where
  pub set_status-Backed :
      (id : String) (s : NodeStatus) (e : EngineState)
      → s ≢ satisfied
      → s ≢ skipped
      → Backed c.policy e
      → Keeps (set_status id s e) (Backed c.policy)
  unfolding set_node_status
  set_status-Backed id s e a b good =
      Keeps-elim (set_node_status id s e.graph) _
        (record {
          holds = λ g gave.
              IsBacked-with_node c.policy id (λ n. record n { status = s }) e.graph g (λ n. refl)
                (λ n found. Earned-open c.policy _ a b) gave good;
        })
        (λ g good'. Keeps-some (record e { graph = g }) good')

  pub invalidate-Backed :
      (id : String) (e : EngineState)
      → Backed c.policy e
      → Keeps (invalidate c id e) (Backed c.policy)
  invalidate-Backed id e good =
      Keeps-elim (invalidate_downstream e.graph id) _
        (record {
          holds = λ p gave. IsBacked-invalidate_downstream c.policy e.graph p.0 id p.1 gave good;
        })
        (λ p good'. Keeps-some _ good')

  module _ (run : ExecuteResult) (id : String) (e : EngineState) (n : GraphNode) (e' : EngineState)
      (good : Backed c.policy e) (here : lookup id e.graph.nodes ≡ some n)
      (s : Settled c run id e.graph n e') where
    -- The node of the run is satisfied only with evidence that suffices.
    Earned-of_Settled : Earned c.policy s.node
    Earned-of_Settled = record {
      proven = λ done.
          let (ok, proof) = s.satisfied_exact.0 done in
          let (ev, has, enough) = proof in
          (ev, s.keeps_evidence done ∙ has, Suffices-same_ir ev n s.node c.policy s.same_ir enough);
      disabled = λ skip. absurd (s.unskipped skip);
    }

    -- Another node is as it was, or pending.
    Earned-of_Moved :
        (j : String) (k : GraphNode)
        → Moved e.graph id e' j
        → lookup j e'.graph.nodes ≡ some k
        → Earned c.policy k
    Earned-of_Moved j k (inl same) h = good.earned j k (sym same ∙ h)
    Earned-of_Moved j k (inr (m, was, now, below)) h =
        subst (Earned c.policy) (some_injective (sym now ∙ h))
          (Earned-open c.policy (reset m) (λ p. ground arith) (λ p. ground arith))

    Backed-of_Settled : Backed c.policy e'
    unfolding get_node
    Backed-of_Settled = record {
      valid = s.valid;
      earned = λ j k h. elim (string_cases id j) [
        | inl same ↦
            subst (Earned c.policy)
              (some_injective (sym s.at ∙ ap (λ i. lookup i e'.graph.nodes) same ∙ h))
              Earned-of_Settled
        | inr other ↦ Earned-of_Moved j k (s.others j (λ p. ground arith)) h
      ];
    }

  -- The result of a run, whatever it says, leaves a backed store backed.
  pub process_run_result-Backed :
      (run : ExecuteResult) (id : String) (e : EngineState)
      → Backed c.policy e
      → Keeps (process_run_result c run id e) (Backed c.policy)
  unfolding process_run_result get_node
  process_run_result-Backed run id e good = elim (Option-cases (lookup id e.graph.nodes)) [
    | inl absent ↦ record {
      holds = λ e' h. absurd (none-not-some (rw (absent, process_run_result, get_node) at h));
    }
    | inr (n, here) ↦
        let (e2, returns, s) = process_run_result_settles c run id n e here good.valid in
        rw returns (Keeps-some e2 (Backed-of_Settled run id e n e2 good here s))
  ]
