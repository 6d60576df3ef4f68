-- ===== src/Graph/Built.antt =====
-- The constructor of graph/graph-store.ts: what the store holds of the graph that it is given.
use mathlib.Core.List.Memᴰ
use evolve_loop.Base.{
  String, ◌≡◌, refl, ap, inl, inr, ◌⊎◌, none, some, List, [], ◌∷◌, map, Dict, lookup, lookup-insert,
  arith, string_eq, string_cases, Memᴰ,
}
use evolve_loop.Types.{IrNode, CapabilityIr, GraphNode, pending}
use evolve_loop.Graph.Store.{GraphStore, initial_node, from_entries, new_store, get_node}
use evolve_loop.Graph.Valid.{IsValid, new_store-IsValid}

-- A node of the graph that has not run.
pub record IsInitial (n : IrNode) (k : GraphNode) : Type 0 where
  pub of_ir : k.ir ≡ n
  pub is_pending : k.status ≡ pending
  pub no_retries : k.retry_count ≡ 0
  pub no_provider : k.provider_id ≡ none
  pub no_run : k.run_id ≡ none
  pub no_evidence : k.evidence ≡ none

-- The store of a graph before anything ran.
pub record Holds (ir : CapabilityIr) (g : GraphStore) : Type 0 where
  pub valid : IsValid g
  pub total : (n : IrNode) → Memᴰ n ir.nodes → (k : GraphNode) × (get_node g n.id ≡ some k)
  pub initial :
      (id : String) (k : GraphNode)
      → get_node g id ≡ some k
      → (n : IrNode) × Memᴰ n ir.nodes × (n.id ≡ id) × IsInitial n k

abbrev entries : List IrNode → Dict GraphNode
entries ns = map (λ n. (n.id, initial_node n)) ns

entries-origin :
    (ns : List IrNode) (m : Dict GraphNode) (id : String) (k : GraphNode)
    → lookup id (from_entries m (entries ns)) ≡ some k
    → (lookup id m ≡ some k) ⊎ ((n : IrNode) × Memᴰ n ns × (n.id ≡ id) × (k ≡ initial_node n))
entries-origin [] m id k h = inl h
entries-origin (n ∷ ns) m id k h = elim (entries-origin ns _ id k h) [
  | inr (p, mem, own, same) ↦ inr (p, Memᴰ.tail mem, own, same)
  | inl before ↦ elim (string_cases n.id id) [
    | inl here ↦
        inr (n, Memᴰ.head refl, here, (ground (arith, lookup-insert n.id id (initial_node n) m)))
    | inr other ↦ inl (ground (arith, lookup-insert n.id id (initial_node n) m))
  ]
]

entries-keep :
    (ns : List IrNode) (m : Dict GraphNode) (id : String) (k : GraphNode)
    → lookup id m ≡ some k
    → (j : GraphNode) × (lookup id (from_entries m (entries ns)) ≡ some j)
entries-keep [] m id k h = (k, h)
entries-keep (n ∷ ns) m id k h = elim (string_cases n.id id) [
  | inl here ↦
      entries-keep ns _ id (initial_node n)
        (ground (arith, lookup-insert n.id id (initial_node n) m))
  | inr other ↦ entries-keep ns _ id k (ground (arith, lookup-insert n.id id (initial_node n) m))
]

entries-total :
    (ns : List IrNode) (m : Dict GraphNode) (n : IrNode)
    → Memᴰ n ns
    → (k : GraphNode) × (lookup n.id (from_entries m (entries ns)) ≡ some k)
entries-total [] m n h = absurd (Memᴰ.not-nil h)
entries-total (p ∷ ns) m n (Memᴰ.head e) =
    entries-keep ns _ n.id (initial_node p)
      (rw e (ground (arith, lookup-insert p.id p.id (initial_node p) m)))
entries-total (p ∷ ns) m n (Memᴰ.tail t) = entries-total ns _ n t

-- The store that the constructor makes of a graph has a node under each id of the graph, under its own id
-- and once, and no other; each is a node of the graph that is pending, with no retries, provider, run or
-- evidence.
pub new_store-Holds : (ir : CapabilityIr) → Holds ir (new_store ir)
unfolding new_store get_node
new_store-Holds ir = record {
  valid = new_store-IsValid ir;
  total = entries-total ir.nodes [];
  initial = λ id k h. elim (entries-origin ir.nodes [] id k h) [
    | inl nothing ↦ absurd (cc)
    | inr (n, mem, own, same) ↦ (
      n,
      mem,
      own,
      record {
        of_ir = ap (λ j. j.ir) same;
        is_pending = ap (λ j. j.status) same;
        no_retries = ap (λ j. j.retry_count) same;
        no_provider = ap (λ j. j.provider_id) same;
        no_run = ap (λ j. j.run_id) same;
        no_evidence = ap (λ j. j.evidence) same;
      },
    )
  ];
}
