-- ===== src/Graph/Walk.antt =====
-- graph/graph-store.ts: transitiveDependents and invalidateDownstream. The recursion of the inner
-- function `visit` takes fuel; it goes into a node at most once, so the number of nodes bounds its
-- depth.
pub mod Contract
mod Ends
pub mod Downstream
pub mod Invalidate
use evolve_loop.Base.{
  ℕ, zero, suc, String, Bool, true, false, not, ◌&&◌, Option, none, some, List, [], ◌∷◌, ◌++◌, map,
  contains, ◌==◌, Dict, length, if◌then◌else◌, string_eq,
}
use evolve_loop.Types.{GraphNode, node_status_eq, pending, running, satisfied, failed, blocked}
use evolve_loop.Graph.Store.{GraphStore, get_all_nodes, adjust}

-- `visited` and `result` of the method.
pub record Walk : Type 0 where
  pub visited : List String
  pub result : List GraphNode

abbrev pub start : Walk
start = record { visited = []; result = [] }

abbrev pub push : GraphNode → Walk → Walk
push n w = record { visited = w.visited ++ n.id ∷ []; result = w.result ++ n ∷ [] }

-- The loop's test: the node depends on `id` and is not visited yet.
abbrev pub is_new : String → Walk → GraphNode → Bool
is_new id w n = contains n.dependencies id && not (contains w.visited n.id)

infixl 5 ◌>>=◌
abbrev pub ◌>>=◌ : Option Walk → (Walk → Option Walk) → Option Walk
m >>= f = elim m [ none ↦ none | some w ↦ f w ]

-- The `for` loop of `visit(id)`, which calls itself through `go`.
unfoldable pub visit_each :
    (String → Walk → Option Walk) → String → List GraphNode → Walk → Option Walk
visit_each go id [] w = some w
visit_each go id (n ∷ ns) w =
    elim (is_new id w n) [ true ↦ go n.id (push n w) | false ↦ some w ] >>= visit_each go id ns

unfoldable pub visit : ℕ → List GraphNode → String → Walk → Option Walk
unfolding visit_each
visit zero nodes id w = none
visit (suc fuel) nodes id w = visit_each (visit fuel nodes) id nodes w

abbrev pub walk_fuel : GraphStore → ℕ
walk_fuel g = suc (length g.nodes)

unfoldable pub transitive_dependents : GraphStore → String → Option (List GraphNode)
unfolding visit get_all_nodes
transitive_dependents g root = elim (visit (walk_fuel g) (get_all_nodes g) root start) [
  | none ↦ none
  | some w ↦ some w.result
]

-- The statuses that an invalidation resets.
unfoldable pub is_resettable : GraphNode → Bool
is_resettable n = contains (satisfied ∷ running ∷ pending ∷ failed ∷ blocked ∷ []) n.status

abbrev pub reset : GraphNode → GraphNode
reset n = record n {
  status = pending;
  evidence = none;
  retry_count = 0;
  provider_id = none;
  run_id = none;
}

-- The loop over the affected nodes. They are the store's objects and no id stands twice among
-- them, so the status that the loop reads is the one that the node was found with.
unfoldable pub reset_each : List GraphNode → GraphStore → List String → GraphStore × List String
reset_each [] g ids = (g, ids)
reset_each (n ∷ ns) g ids =
    let g' = if is_resettable n then record g { nodes = adjust n.id reset g.nodes } else g in
    reset_each ns g' (if is_resettable n then ids ++ n.id ∷ [] else ids)

unfoldable pub invalidate_downstream : GraphStore → String → Option (GraphStore × List String)
unfolding transitive_dependents reset_each is_resettable
invalidate_downstream g root = elim (transitive_dependents g root) [
  | none ↦ none
  | some affected ↦ some (reset_each affected g [])
]
