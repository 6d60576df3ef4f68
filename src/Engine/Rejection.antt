-- ===== src/Engine/Rejection.antt =====
-- The branch of processRunResult of engine/execution-engine.ts in which a gate rejects: the node fails
-- and what stands downstream of it is reset.
use mathlib.Core.Option
use evolve_loop.Base.{
  some_injective, none-not-some, String, ◌≡◌, refl, sym, ap, ◌∙◌, ◌≢◌, Bool, true, Bool-cases,
  Option-cases, subst, Bool-cases, inl, inr, Option, none, some, List, [], ◌∷◌, ◌++◌, lookup, ◌==◌,
  ◌&&◌, ◌⊎◌, values, arith,
}
use evolve_loop.Types.{
  GraphNode, ExecuteResult, failed, pending, node_status_eq, orchestrator, on_gate_reject_eq,
}
use evolve_loop.Graph.Store.{GraphStore, get_all_nodes, get_node}
use evolve_loop.Graph.Walk.{
  is_resettable, reset, reset_each, invalidate_downstream, transitive_dependents,
}
use evolve_loop.Graph.Walk.Contract.{Downstream}
use evolve_loop.Graph.Walk.Invalidate.{reset_if, invalidate_downstream-lookup}
use evolve_loop.Graph.Valid.{IsValid, adjusted-IsValid}
use evolve_loop.Events.{gate_rejected, subgraph_invalidated}
use evolve_loop.Engine.State.{RunContext, EngineState, publish, invalidate}
use evolve_loop.Engine.Results.{findings_of, reject_gate, block_rejected}
use evolve_loop.Engine.Steps.{Gives, Landed, Landed-same_graph, Downstream-shape}
use evolve_loop.Engine.Branches.{gives_status}

reset_each-IsValid :
    (ns : List GraphNode) (g : GraphStore) (out : List String)
    → IsValid g
    → IsValid (reset_each ns g out).0
unfolding reset_each
reset_each-IsValid [] g out v = v
reset_each-IsValid (n ∷ ns) g out v = elim (Bool-cases (is_resettable n)) [
  | inl hit ↦
      rw (hit, reset_each)
        (reset_each-IsValid ns _ (out ++ n.id ∷ []) (adjusted-IsValid n.id reset g (λ k. refl) v))
  | inr miss ↦ rw (miss, reset_each) (reset_each-IsValid ns g out v)
]

-- An invalidation keeps the store valid.
pub invalidate_downstream-IsValid :
    (g g' : GraphStore) (root : String) (out : List String)
    → IsValid g
    → invalidate_downstream g root ≡ some (g', out)
    → IsValid g'
unfolding invalidate_downstream
invalidate_downstream-IsValid g g' root out v h =
    elim (Option-cases (transitive_dependents g root)) [
      | inl stuck ↦ absurd (none-not-some (rw (stuck, invalidate_downstream) at h))
      | inr (ns, found) ↦
          subst IsValid (ap (λ p. p.0) (some_injective (rw (found, invalidate_downstream) at h)))
            (reset_each-IsValid ns g [] v)
    ]

-- The node at `j` is as it was, or it is downstream of `id` and is reset.
abbrev pub Moved : GraphStore → String → EngineState → String → Type 0
Moved g id e j =
    (lookup j e.graph.nodes ≡ lookup j g.nodes)
    ⊎ ((m : GraphNode) × (lookup j g.nodes ≡ some m)
        × (lookup j e.graph.nodes ≡ some (reset m))
        × Downstream (values g.nodes) id j)

-- What a rejection leaves: the gate is failed, or pending where it is downstream of itself.
pub record Rejected (id : String) (g : GraphStore) (n : GraphNode) (e : EngineState) : Type 0 where
  pub node : GraphNode
  pub at : lookup id e.graph.nodes ≡ some node
  pub same_ir : node.ir ≡ n.ir
  pub unsettled : (node.status ≡ failed) ⊎ (node.status ≡ pending)
  pub moved : (j : String) → id ≢ j → Moved g id e j
  pub valid : IsValid e.graph

reset_if-status :
    (hit : Bool) (n : GraphNode)
    → n.status ≡ failed
    → ((reset_if hit n).status ≡ failed) ⊎ ((reset_if hit n).status ≡ pending)
reset_if-status hit n f = elim (Bool-cases (hit && is_resettable n)) [
  | inl done ↦ inr (rw (done, reset_if) refl)
  | inr kept ↦ inl (rw (kept, reset_if) f)
]

reset_if-ir : (hit : Bool) (n : GraphNode) → (reset_if hit n).ir ≡ n.ir
reset_if-ir hit n = elim (Bool-cases (hit && is_resettable n)) [
  | inl done ↦ rw (done, reset_if) refl
  | inr kept ↦ rw (kept, reset_if) refl
]

-- The node at `j` after an invalidation in which `hit` tells the nodes that are downstream.
Moved-lookup :
    (id j : String) (g h : GraphStore) (e : EngineState) (hit : Bool)
    → lookup j h.nodes ≡ lookup j g.nodes
    → lookup j e.graph.nodes ≡ Option.map (reset_if hit) (lookup j h.nodes)
    → (hit ≡ true → Downstream (values g.nodes) id j)
    → Moved g id e j
Moved-lookup id j g h e hit kept after below = elim (Option-cases (lookup j g.nodes)) [
  | inl absent ↦ inl (after ∙ ap (Option.map (reset_if hit)) (kept ∙ absent) ∙ sym absent)
  | inr (m, here) ↦
      let now = after ∙ ap (Option.map (reset_if hit)) (kept ∙ here) in
      elim (Bool-cases (hit && is_resettable m)) [
        | inl done ↦ inr (m, here, rw (done, reset_if) at now, below (ground arith))
        | inr same ↦ inl (rw (same, reset_if) at now ∙ sym here)
      ]
]

module _ (c : RunContext) (run : ExecuteResult) (id : String) (g : GraphStore) (r : Option String)
    (n : GraphNode) where
  block_rejected-graph : (e : EngineState) → (block_rejected c.policy e).graph ≡ e.graph
  block_rejected-graph e = elim (Bool-cases (c.policy.spec.on_gate_reject == orchestrator)) [
    | inl asked ↦ rw asked refl
    | inr other ↦ rw other refl
  ]

  pub gives_reject_gate :
      (e : EngineState) → Landed id g r n e → Gives (reject_gate c run id e) (Rejected id g n)
  unfolding reject_gate get_node get_all_nodes
  gives_reject_gate e l =
      let body = gate_rejected id (findings_of run.evidence) in
      let e0 = publish c (some run.run_id) body e in
      let (e1, returns1, l1) =
        gives_status id g r n e0 failed (Landed-same_graph id g r n e r e0 refl l.blocked l) in
      let (g2, out, hit, returns2, exact, after) =
        invalidate_downstream-lookup e1.graph id l1.valid.keyed l1.valid.distinct in
      let e2 = publish c none (subgraph_invalidated id out) (record e1 { graph = g2 }) in
      let valid = invalidate_downstream-IsValid e1.graph g2 id out l1.valid returns2 in
      let same = block_rejected-graph e2 in
      (
        block_rejected c.policy e2,
        rw (returns1, returns2, invalidate) refl,
        record {
          node = reset_if (hit id) (record n { status = failed });
          at =
              ap (λ h. lookup id h.nodes) same
              ∙ after id
              ∙ ap (Option.map (reset_if (hit id))) l1.at;
          same_ir = reset_if-ir (hit id) (record n { status = failed });
          unsettled = reset_if-status (hit id) (record n { status = failed }) refl;
          moved = λ j other.
              Moved-lookup id j g e1.graph (block_rejected c.policy e2) (hit j) (l1.others j other)
                (ap (λ h. lookup j h.nodes) same ∙ after j)
                (λ h. Downstream-shape g e1.graph id j l1.shape ((exact j).0 h));
          valid = subst IsValid (sym same) valid;
        },
      )
