-- ===== src/Ir/Cycle/Decides.antt =====
-- detectCycle of ir/validator.ts: both answers, and the graph that it walks.
use mathlib.Core.List.Memᴰ
use evolve_loop.Base.{
  Memᴰ, Distinct, ap, get_or, ◌∙◌, ◌≤◌, String, ◌≡◌, refl, ◌≢◌, ◌↔◌, Bool, true, false, Bool-cases,
  none, some, List, [], ◌∷◌, inl, inr, arith, contains, lookup, insert, lookup-insert, length,
  string_eq,
}
use evolve_loop.Types.{IrNode}
use evolve_loop.Ir.Search.{
  Sets, Outcome, cycle, acyclic, out_of_fuel, Edges, targets, dfs, edges_from, node_ids,
  search_fuel, search_nodes, detect_cycle,
}
use evolve_loop.Ir.Cycle.Sound.{Cyclic, search_each-cycle, dfs-Restores, dfs-IsSound}
use evolve_loop.Ir.Cycle.Complete.{Safe, first-edge, Safe-not-cyclic, search_each-Safe, dfs-Secures}
use evolve_loop.Ir.Cycle.Ends.{open_keys, search_each-ends, dfs-ends}

-- The graph that the search walks.
abbrev pub edges_of : List IrNode → Edges
edges_of nodes = edges_from [] nodes

edges_from-absent :
    (graph : Edges) (ns : List IrNode) (k : String)
    → contains (node_ids ns) k ≡ false
    → lookup k (edges_from graph ns) ≡ lookup k graph
edges_from-absent graph [] k h = refl
edges_from-absent graph (n ∷ ns) k h = ground (
  arith,
  edges_from-absent (insert n.id n.dependencies graph) ns k,
  lookup-insert n.id k n.dependencies graph,
)

pub targets-known :
    (nodes : List IrNode) (id : String)
    → targets (edges_of nodes) id ≢ []
    → contains (node_ids nodes) id ≡ true
targets-known nodes id h = elim (Bool-cases (contains (node_ids nodes) id)) [
  | inl known ↦ known
  | inr absent ↦ absurd (h (rw (edges_from-absent [] nodes id absent)))
]

open_keys-le-length : (nodes : List IrNode) → open_keys (node_ids nodes) [] ≤ length nodes
open_keys-le-length [] = omega arith
open_keys-le-length (n ∷ ns) = omega (arith, open_keys-le-length ns)

module _ (nodes : List IrNode) where
  abbrev graph : Edges
  graph = edges_of nodes

  abbrev empty : Sets
  empty = record { visiting = []; visited = [] }

  search_nodes-ends : search_nodes nodes ≢ out_of_fuel
  unfolding search_nodes
  search_nodes-ends =
      search_each-ends graph (dfs (search_fuel nodes) graph)
        (dfs-Restores graph (search_fuel nodes)) []
        (λ dep s v.
          dfs-ends graph (node_ids nodes) (targets-known nodes) (search_fuel nodes) dep s
            (rw v (omega (arith, open_keys-le-length nodes))))
        (node_ids nodes) empty refl

  search_nodes-cycle : search_nodes nodes ≡ cycle → Cyclic graph
  unfolding search_nodes
  search_nodes-cycle h =
      search_each-cycle graph (dfs (search_fuel nodes) graph)
        (dfs-Restores graph (search_fuel nodes)) (dfs-IsSound graph (search_fuel nodes))
        (node_ids nodes) empty (λ d m x v. cc) h

  search_nodes-acyclic : (t : Sets) → search_nodes nodes ≡ acyclic t → ¬ Cyclic graph
  unfolding search_nodes
  search_nodes-acyclic t h (a, p) =
      let (_, secured) =
        search_each-Safe graph (dfs (search_fuel nodes) graph)
          (dfs-Secures graph (search_fuel nodes)) (node_ids nodes) empty t (λ x v. cc) h in
      let (d, first, _) = first-edge graph p in
      let known = targets-known nodes a (λ e. let f = rw e at first in cc) in
      Safe-not-cyclic graph (secured a known) p

  pub search_nodes-Safe :
      (t : Sets)
      → search_nodes nodes ≡ acyclic t
      → (id : String) → contains (node_ids nodes) id ≡ true
      → Safe graph id
  unfolding search_nodes
  search_nodes-Safe t h =
      (search_each-Safe graph (dfs (search_fuel nodes) graph)
        (dfs-Secures graph (search_fuel nodes)) (node_ids nodes) empty t (λ x v. cc) h).1

  answer :
      (o : Outcome)
      → search_nodes nodes ≡ o
      → (b : Bool) × (elim o [ cycle ↦ some true | acyclic _ ↦ some false | out_of_fuel ↦ none ]
          ≡ some b)
        × ((b ≡ true) ↔ Cyclic graph)
  answer cycle e = (true, refl, (λ _. search_nodes-cycle e, λ _. refl))
  answer (acyclic t) e = (false, refl, (λ h. cc, λ c. absurd (search_nodes-acyclic t e c)))
  answer out_of_fuel e = absurd (search_nodes-ends e)

-- detectCycle always returns, and it returns true if and only if some id depends on itself, directly
-- or through other ids.
pub detect_cycle_decides :
    (nodes : List IrNode)
    → (b : Bool) × (detect_cycle nodes ≡ some b) × ((b ≡ true) ↔ Cyclic (edges_of nodes))
unfolding detect_cycle
detect_cycle_decides nodes = answer nodes (search_nodes nodes) refl

-- The dependencies of a node, where no id stands twice.
edges_from-here :
    (graph : Edges) (ns : List IrNode) (n : IrNode)
    → Distinct (node_ids ns)
    → Memᴰ n ns
    → lookup n.id (edges_from graph ns) ≡ some n.dependencies
edges_from-here graph [] n d m = absurd (Memᴰ.not-nil m)
edges_from-here graph (k ∷ ns) n d (Memᴰ.head e) = rw e (
    edges_from-absent (insert k.id k.dependencies graph) ns k.id d.0
    ∙ (rw (lookup-insert k.id k.id k.dependencies graph) (ground arith)))
edges_from-here graph (k ∷ ns) n d (Memᴰ.tail m) =
    edges_from-here (insert k.id k.dependencies graph) ns n d.1 m

pub targets-here :
    (ns : List IrNode) (n : IrNode)
    → Distinct (node_ids ns)
    → Memᴰ n ns
    → targets (edges_of ns) n.id ≡ n.dependencies
targets-here ns n d m = ap (λ o. get_or o []) (edges_from-here [] ns n d m)

pub detect_cycle-Safe :
    (ns : List IrNode)
    → detect_cycle ns ≡ some false
    → (id : String) → contains (node_ids ns) id ≡ true
    → Safe (edges_of ns) id
unfolding detect_cycle
detect_cycle-Safe ns h = by_outcome (search_nodes ns) refl
  where
    by_outcome :
        (o : Outcome)
        → search_nodes ns ≡ o
        → (id : String) → contains (node_ids ns) id ≡ true
        → Safe (edges_of ns) id
    by_outcome cycle e = absurd (let f = rw (e, detect_cycle) at h in cc)
    by_outcome (acyclic t) e = search_nodes-Safe ns t e
    by_outcome out_of_fuel e = absurd (let f = rw (e, detect_cycle) at h in cc)
