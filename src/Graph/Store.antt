-- ===== src/Graph/Store.antt =====
-- graph/graph-store.ts: the store and the methods that read or write one node. A method that throws
-- on an unknown id returns `none`; one that mutates returns the new store.
use mathlib.Core.Option
use evolve_loop.Base.{
  ℕ, ◌+◌, String, ◌≡◌, Bool, false, ◌&&◌, ◌||◌, Option, none, some, get_or, List, [], ◌∷◌, map,
  arith, ◌==◌, Dict, lookup, insert, values, all, any, leb, if◌then◌else◌, string_eq,
}
use evolve_loop.Types.{
  IrNode, CapabilityIr, GraphNode, GraphSnapshot, Evidence, NodeStatus, node_status_eq, pending,
  running, waiting, satisfied, failed, skipped,
}

pub record GraphStore : Type 0 where
  pub feature_id : String
  pub nodes : Dict GraphNode

abbrev pub initial_node : IrNode → GraphNode
initial_node n = record {
  ir = n;
  status = pending;
  retry_count = 0;
  provider_id = none;
  run_id = none;
  evidence = none;
}

-- `new Map(entries)`: the entries are set one by one.
abbrev pub from_entries {ℓ} : {V : Type ℓ} → Dict V → Dict V → Dict V
from_entries m [] = m
from_entries m ((k, v) ∷ es) = from_entries (insert k v m) es

unfoldable pub new_store : CapabilityIr → GraphStore
new_store ir = record {
  feature_id = ir.id;
  nodes = from_entries [] (map (λ n. (n.id, initial_node n)) ir.nodes);
}

unfoldable pub from_snapshot : GraphSnapshot → GraphStore
from_snapshot s = record {
  feature_id = s.feature_id;
  nodes = from_entries [] (map (λ n. (n.id, n)) s.nodes);
}

unfoldable pub get_node : GraphStore → String → Option GraphNode
get_node g id = lookup id g.nodes

unfoldable pub get_all_nodes : GraphStore → List GraphNode
get_all_nodes g = values g.nodes

unfoldable pub snapshot : GraphStore → GraphSnapshot
unfolding get_all_nodes
snapshot g = record { feature_id = g.feature_id; nodes = get_all_nodes g }

-- Applies `f` to the node that stands at `id`.
abbrev pub adjust : String → (GraphNode → GraphNode) → Dict GraphNode → Dict GraphNode
adjust id f [] = []
adjust id f ((k, n) ∷ m) = if k == id then (k, f n) ∷ m else (k, n) ∷ adjust id f m

-- `const node = this.nodes.get(id); if (!node) throw …; f(node)`.
abbrev pub with_node : String → (GraphNode → GraphNode) → GraphStore → Option GraphStore
with_node id f g = elim (lookup id g.nodes) [
  | none ↦ none
  | some n ↦ some (record g { nodes = adjust id f g.nodes })
]

unfoldable pub set_node_status : String → NodeStatus → GraphStore → Option GraphStore
set_node_status id status = with_node id (λ n. record n { status = status })

unfoldable pub set_node_evidence : String → Option Evidence → GraphStore → Option GraphStore
set_node_evidence id evidence = with_node id (λ n. record n { evidence = evidence })

unfoldable pub increment_retry : String → GraphStore → Option GraphStore
increment_retry id = with_node id (λ n. record n { retry_count = n.retry_count + 1 })

unfoldable pub reset_retry : String → GraphStore → GraphStore
reset_retry id g = record g { nodes = adjust id (λ n. record n { retry_count = 0 }) g.nodes }

unfoldable pub set_provider : String → String → String → GraphStore → Option GraphStore
set_provider id provider_id run_id =
    with_node id (λ n. record n { provider_id = some provider_id; run_id = some run_id })

-- `satisfied` and `skipped` are the statuses that let dependents go ahead.
abbrev pub is_done : NodeStatus → Bool
is_done s = s == satisfied || s == skipped

abbrev pub done_at : GraphStore → String → Bool
done_at g id = elim (lookup id g.nodes) [ none ↦ false | some dep ↦ is_done dep.status ]

unfoldable pub dependencies_satisfied : GraphStore → GraphNode → Bool
dependencies_satisfied g node = all (done_at g) node.dependencies

unfoldable pub has_running : GraphStore → Bool
unfolding get_all_nodes
has_running g = any (λ n. n.status == running || n.status == waiting) (get_all_nodes g)

unfoldable pub has_failed_without_retry : (GraphNode → ℕ) → GraphStore → Bool
unfolding get_all_nodes
has_failed_without_retry max_retries g =
    any (λ n. n.status == failed && leb (max_retries n) n.retry_count) (get_all_nodes g)

unfoldable pub is_finished : GraphStore → Bool
unfolding get_all_nodes
is_finished g = all (λ n. is_done n.status) (get_all_nodes g)

pub lookup-adjust :
    (id j : String) (f : GraphNode → GraphNode) (m : Dict GraphNode)
    → lookup j (adjust id f m) ≡ (if id == j then Option.map f (lookup j m) else lookup j m)
lookup-adjust id j f [] = ground arith
lookup-adjust id j f ((k, n) ∷ m) = ground (arith, lookup-adjust id j f m)

-- The effect of `setNodeStatus`, where a throw leaves the store as it is.
pub lookup-set_node_status :
    (id j : String) (status : NodeStatus) (g : GraphStore)
    → lookup j (get_or (set_node_status id status g) g).nodes ≡ (
        if id == j
        then Option.map {A = GraphNode} (λ n. record n { status = status }) (lookup j g.nodes)
        else lookup j g.nodes)
unfolding set_node_status
lookup-set_node_status id j status g =
    ground (arith, lookup-adjust id j (λ n. record n { status = status }) g.nodes)
