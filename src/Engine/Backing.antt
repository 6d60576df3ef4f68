-- ===== src/Engine/Backing.antt =====
-- engine/execution-engine.ts, scheduler/scheduler.ts, graph/graph-store.ts: what stands behind a node that
-- lets its dependents go ahead, and that each change of the store keeps it.
pub mod Scan
pub mod Start
use mathlib.Core.Option
use evolve_loop.Base.{
  String, ◌≡◌, sym, ap, ◌∙◌, ◌≢◌, subst, Bool, true, Bool-cases, Option-cases, inl, inr, none, some,
  some_injective, none-not-some, ◌⊎◌, ◌&&◌, false, ◌==◌, List, Memᴰ, lookup, string_cases,
  string_eq, arith,
}
use evolve_loop.Types.{GraphNode, ExecutionPolicy, Evidence, satisfied, skipped, node_status_eq}
use evolve_loop.Graph.Store.{get_node, GraphStore, with_node, lookup-adjust}
use evolve_loop.Graph.Valid.{IsValid, adjusted, with_node-some, adjusted-IsValid}
use evolve_loop.Graph.Walk.{reset, is_resettable, invalidate_downstream}
use evolve_loop.Graph.Walk.Invalidate.{reset_if, invalidate_downstream-lookup}
use evolve_loop.Policies.{min_confidence}
use evolve_loop.Evidence.Validator.Exact.{Suffices}
use evolve_loop.Scheduler.{is_disabled_gate}
use evolve_loop.Engine.Rejection.{invalidate_downstream-IsValid}

-- A node that is satisfied holds evidence that suffices for it under the policy, and a node that is
-- skipped is a gate that the policy disables.
pub record Earned (policy : ExecutionPolicy) (n : GraphNode) : Type 0 where
  pub proven :
      n.status ≡ satisfied
      → (ev : Evidence) × (n.evidence ≡ some ev)
        × Suffices ev n.definition_of_done n (min_confidence policy)
  pub disabled : n.status ≡ skipped → is_disabled_gate policy n ≡ true

-- The store is valid and each of its nodes has earned its status.
pub record IsBacked (policy : ExecutionPolicy) (g : GraphStore) : Type 0 where
  pub valid : IsValid g
  pub earned : (id : String) (n : GraphNode) → lookup id g.nodes ≡ some n → Earned policy n

-- Evidence that suffices for a node suffices for one that is declared alike.
pub Suffices-same_ir :
    (ev : Evidence) (n k : GraphNode) (policy : ExecutionPolicy)
    → k.ir ≡ n.ir
    → Suffices ev n.definition_of_done n (min_confidence policy)
    → Suffices ev k.definition_of_done k (min_confidence policy)
Suffices-same_ir ev n k policy same s = record {
  complete_status = s.complete_status;
  confident = s.confident;
  no_critical_gap = s.no_critical_gap;
  done = λ dod m. s.done dod (subst (λ i. Memᴰ dod i.definition_of_done) same m);
  verdict = λ gate. s.verdict (sym (ap (λ i. i.type) same) ∙ gate);
}

module _ (policy : ExecutionPolicy) where
  -- A node that is neither satisfied nor skipped.
  pub Earned-open : (n : GraphNode) → n.status ≢ satisfied → n.status ≢ skipped → Earned policy n
  Earned-open n a b = record { proven = λ s. absurd (a s); disabled = λ s. absurd (b s) }

  pub Earned-reset_if :
      (hit : Bool) (n : GraphNode) → Earned policy n → Earned policy (reset_if hit n)
  unfolding node_status_eq
  Earned-reset_if hit n e = elim (Bool-cases (hit && is_resettable n)) [
    | inl done ↦ rw (done, reset_if) (Earned-open (reset n) (λ s. ground arith) (λ s. ground arith))
    | inr kept ↦ rw (kept, reset_if) e
  ]

  -- A change of one node that keeps what is declared, to a node that has earned its status.
  pub IsBacked-adjusted :
      (id : String) (f : GraphNode → GraphNode) (g : GraphStore)
      → ((n : GraphNode) → (f n).id ≡ n.id)
      → ((n : GraphNode) → lookup id g.nodes ≡ some n → Earned policy (f n))
      → IsBacked policy g
      → IsBacked policy (adjusted id f g)
  IsBacked-adjusted id f g same new b = record {
    valid = adjusted-IsValid id f g same b.valid;
    earned = λ j n h. elim (string_cases id j) [
      | inl here ↦ at_id (Option-cases (lookup id g.nodes)) n (after j n h here)
      | inr other ↦ b.earned j n (elsewhere j n h other)
    ];
  }
    where
      after :
          (j : String) (n : GraphNode)
          → lookup j (adjusted id f g).nodes ≡ some n
          → id ≡ j
          → Option.map f (lookup id g.nodes) ≡ some n
      after j n h here = ground (arith, lookup-adjust id j f g.nodes)

      elsewhere :
          (j : String) (n : GraphNode)
          → lookup j (adjusted id f g).nodes ≡ some n
          → (id == j) ≡ false
          → lookup j g.nodes ≡ some n
      elsewhere j n h other = ground (arith, lookup-adjust id j f g.nodes)

      at_id :
          (lookup id g.nodes ≡ none) ⊎ ((k : GraphNode) × (lookup id g.nodes ≡ some k))
          → (n : GraphNode) → Option.map f (lookup id g.nodes) ≡ some n
          → Earned policy n
      at_id (inl absent) n h = absurd (none-not-some (rw absent at h))
      at_id (inr (k, found)) n h =
          subst (Earned policy) (some_injective (rw found at h)) (new k found)

  pub IsBacked-with_node :
      (id : String) (f : GraphNode → GraphNode) (g g' : GraphStore)
      → ((n : GraphNode) → (f n).id ≡ n.id)
      → ((n : GraphNode) → lookup id g.nodes ≡ some n → Earned policy (f n))
      → with_node id f g ≡ some g'
      → IsBacked policy g
      → IsBacked policy g'
  IsBacked-with_node id f g g' same new h b = elim (Option-cases (lookup id g.nodes)) [
    | inl absent ↦ absurd (none-not-some (rw (absent, with_node) at h))
    | inr (n, found) ↦
        subst (IsBacked policy) (some_injective (sym (with_node-some id f g n found) ∙ h))
          (IsBacked-adjusted id f g same new b)
  ]

  -- An invalidation leaves a node as it was or makes it pending.
  pub IsBacked-invalidate_downstream :
      (g g' : GraphStore) (root : String) (out : List String)
      → invalidate_downstream g root ≡ some (g', out)
      → IsBacked policy g
      → IsBacked policy g'
  unfolding get_node
  IsBacked-invalidate_downstream g g' root out h b =
      let (g2, out2, hit, returns, exact, after) =
        invalidate_downstream-lookup g root b.valid.keyed b.valid.distinct in
      let same : g2 ≡ g' = ap (λ p. p.0) (some_injective (sym returns ∙ h)) in
      record {
        valid = invalidate_downstream-IsValid g g' root out b.valid h;
        earned = λ j n e.
            at_j j n (Option-cases (lookup j g.nodes)) (hit j)
              (sym (after j) ∙ ap (λ s. lookup j s.nodes) same ∙ e);
      }
    where
      at_j :
          (j : String) (n : GraphNode)
          → (lookup j g.nodes ≡ none) ⊎ ((k : GraphNode) × (lookup j g.nodes ≡ some k))
          → (hit_j : Bool) → Option.map (reset_if hit_j) (lookup j g.nodes) ≡ some n
          → Earned policy n
      at_j j n (inl absent) hit_j e = absurd (none-not-some (rw absent at e))
      at_j j n (inr (k, found)) hit_j e =
          subst (Earned policy) (some_injective (rw found at e))
            (Earned-reset_if hit_j k (b.earned j k found))
