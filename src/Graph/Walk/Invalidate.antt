-- ===== src/Graph/Walk/Invalidate.antt =====
-- invalidateDownstream of graph/graph-store.ts: what it does to each node of the store.
use mathlib.Core.List.Memᴰ
use mathlib.Core.Option
use evolve_loop.Base.{
  Distinct, String, ◌≡◌, refl, sym, ◌∙◌, ap, subst, ◌↔◌, ◌⊎◌, inl, inr, Bool-cases, Bool, true,
  false, ◌&&◌, none, some, List, [], ◌∷◌, ◌++◌, Memᴰ, arith, contains, ◌==◌, Dict, lookup, values,
  if◌then◌else◌, string_eq,
}
use evolve_loop.Types.{
  GraphNode, NodeStatus, node_status_eq, satisfied, running, pending, failed, blocked,
}
use evolve_loop.Graph.Store.{GraphStore, get_all_nodes, get_node, adjust, lookup-adjust}
use evolve_loop.Graph.Walk.{is_resettable, reset, reset_each, invalidate_downstream}
use evolve_loop.Graph.Walk.Contract.{Downstream}
use evolve_loop.Graph.Walk.Downstream.{ids, transitive_dependents_exact}

-- Every node stands under its own id.
abbrev pub KeysMatch : Dict GraphNode → Type 0
KeysMatch m = (id : String) (n : GraphNode) → lookup id m ≡ some n → n.id ≡ id

-- The entry of a key is the only one.
abbrev pub KeysDistinct : Dict GraphNode → Type 0
KeysDistinct [] = Unit
KeysDistinct ((k, n) ∷ m) = (lookup k m ≡ none) × KeysDistinct m

-- What an invalidation makes of a node.
abbrev pub reset_if : Bool → GraphNode → GraphNode
reset_if hit n = if hit && is_resettable n then reset n else n

-- A node that stands in the list is the store's object under its id.
abbrev pub AreStored : List GraphNode → GraphStore → Type 0
AreStored ns g = (n : GraphNode) → Memᴰ n ns → lookup n.id g.nodes ≡ some n

pub mem-ids : (ns : List GraphNode) (n : GraphNode) → Memᴰ n ns → contains (ids ns) n.id ≡ true
mem-ids [] n m = absurd (Memᴰ.not-nil m)
mem-ids (k ∷ ns) n (Memᴰ.head e) = rw e (ground arith)
mem-ids (k ∷ ns) n (Memᴰ.tail m) = ground (arith, mem-ids ns n m)

-- One round of the loop.
abbrev after_reset : GraphNode → GraphStore → GraphStore
after_reset n g = if is_resettable n then record g { nodes = adjust n.id reset g.nodes } else g

lookup-after_reset :
    (n : GraphNode) (g : GraphStore) (j : String)
    → lookup n.id g.nodes ≡ some n
    → lookup j (after_reset n g).nodes
      ≡ (if n.id == j then some (reset_if true n) else lookup j g.nodes)
lookup-after_reset n g j h = ground (arith, lookup-adjust n.id j reset g.nodes)

AreStored-after_reset :
    (n : GraphNode) (ns : List GraphNode) (g : GraphStore)
    → contains (ids ns) n.id ≡ false
    → AreStored (n ∷ ns) g
    → AreStored ns (after_reset n g)
AreStored-after_reset n ns g new s k m =
    ground
      (arith, lookup-after_reset n g k.id (s n (Memᴰ.head refl)), mem-ids ns k m, s k (Memᴰ.tail m))

after_first :
    (n : GraphNode) (ns : List GraphNode) (g : GraphStore) (j : String)
    → contains (ids ns) n.id ≡ false
    → lookup n.id g.nodes ≡ some n
    → Option.map (reset_if (contains (ids ns) j)) (lookup j (after_reset n g).nodes)
      ≡ Option.map (reset_if (contains (ids (n ∷ ns)) j)) (lookup j g.nodes)
after_first n ns g j new h = rw (lookup-after_reset n g j h) (ground arith)

reset_each-lookup :
    (ns : List GraphNode) (g : GraphStore) (out : List String) (j : String)
    → Distinct (ids ns)
    → AreStored ns g
    → lookup j (reset_each ns g out).0.nodes
      ≡ Option.map (reset_if (contains (ids ns) j)) (lookup j g.nodes)
unfolding reset_each
reset_each-lookup [] g out j d s = ground arith
reset_each-lookup (n ∷ ns) g out j d s =
    let out' = if is_resettable n then out ++ n.id ∷ [] else out in
    reset_each-lookup ns (after_reset n g) out' j d.1 (AreStored-after_reset n ns g d.0 s)
    ∙ after_first n ns g j d.0 (s n (Memᴰ.head refl))

-- A node of the store's list stands in the store.
pub lookup-mem :
    (m : Dict GraphNode) (n : GraphNode)
    → KeysDistinct m
    → Memᴰ n (values m)
    → (k : String) × (lookup k m ≡ some n)
lookup-mem [] n u h = absurd (Memᴰ.not-nil h)
lookup-mem ((k, v) ∷ m) n u (Memᴰ.head e) = (k, ground arith)
lookup-mem ((k, v) ∷ m) n u (Memᴰ.tail h) = let (j, e) = lookup-mem m n u.1 h in (j, ground arith)

-- The store afterwards, by what the loop does to the nodes downstream of the root.
pub invalidate_downstream-lookup :
    (g : GraphStore) (root : String)
    → KeysMatch g.nodes
    → KeysDistinct g.nodes
    → (g' : GraphStore) × (out : List String) × (hit : String → Bool) × (invalidate_downstream g
          root
        ≡ some (g', out))
      × ((x : String) → (hit x ≡ true) ↔ Downstream (get_all_nodes g) root x)
      × ((x : String) → get_node g' x ≡ Option.map (reset_if (hit x)) (get_node g x))
unfolding invalidate_downstream get_node get_all_nodes
invalidate_downstream-lookup g root keyed unique =
    let (result, e, d) = transitive_dependents_exact g root in
    (
      (reset_each result g []).0,
      (reset_each result g []).1,
      contains (ids result),
      rw (e, invalidate_downstream),
      d.exact,
      λ x. reset_each-lookup result g [] x d.distinct (stored result d.known),
    )
  where
    stored :
        (ns : List GraphNode)
        → ((n : GraphNode) → Memᴰ n ns → Memᴰ n (values g.nodes))
        → AreStored ns g
    stored ns known n m =
        let (k, e) = lookup-mem g.nodes n unique (known n m) in
        subst (λ j. lookup j g.nodes ≡ some n) (sym (keyed k n e)) e

-- The statuses that are reset, and those that stay.
abbrev pub IsOpen : NodeStatus → Type 0
IsOpen s = (s ≡ satisfied) ⊎ (s ≡ running) ⊎ (s ≡ pending) ⊎ (s ≡ failed) ⊎ (s ≡ blocked)

-- What is left of a node that is reset: its place in the graph, and nothing of its runs.
pub record IsCleared (n n' : GraphNode) : Type 0 where
  pub same_ir : n'.ir ≡ n.ir
  pub is_pending : n'.status ≡ pending
  pub no_evidence : n'.evidence ≡ none
  pub no_retries : n'.retry_count ≡ 0
  pub no_provider : n'.provider_id ≡ none
  pub no_run : n'.run_id ≡ none

-- A node before and after an invalidation that reaches it (`hit`) or not.
pub record Invalidated (hit : Bool) (n n' : GraphNode) : Type 0 where
  pub cleared : hit ≡ true → IsOpen n.status → IsCleared n n'
  pub closed : (IsOpen n.status → ⊥) → n' ≡ n
  pub missed : hit ≡ false → n' ≡ n

is_resettable-IsOpen : (n : GraphNode) → (is_resettable n ≡ true) ↔ IsOpen n.status
unfolding is_resettable node_status_eq
is_resettable-IsOpen n = ground arith

Invalidated-reset_if : (hit : Bool) (n : GraphNode) → Invalidated hit n (reset_if hit n)
Invalidated-reset_if false n = record {
  cleared = λ h. absurd (cc);
  closed = λ c. refl;
  missed = λ h. refl;
}
Invalidated-reset_if true n = elim (Bool-cases (is_resettable n)) [
  | inl is_open ↦
      rw (is_open, reset_if)
        (record {
          cleared = λ h s. record {
            same_ir = refl;
            is_pending = refl;
            no_evidence = refl;
            no_retries = refl;
            no_provider = refl;
            no_run = refl;
          };
          closed = λ c. absurd (c ((is_resettable-IsOpen n).0 is_open));
          missed = λ h. absurd (cc);
        })
  | inr shut ↦
      rw (shut, reset_if)
        (record {
          cleared = λ h s. absurd (let b = (is_resettable-IsOpen n).1 s in cc);
          closed = λ c. refl;
          missed = λ h. refl;
        })
]

-- In a store where each id stands once and is its node's own, invalidateDownstream returns. Afterwards
-- a node that was satisfied, running, pending, failed or blocked and is downstream of the root is
-- pending, with no evidence, run, provider or retries; a node of another status, or not downstream, is
-- as it was; and no id is added or lost.
pub invalidate_downstream_exact :
    (g : GraphStore) (root : String)
    → KeysMatch g.nodes
    → KeysDistinct g.nodes
    → (g' : GraphStore) × (out : List String) × (hit : String → Bool) × (invalidate_downstream g
          root
        ≡ some (g', out))
      × ((x : String) → (hit x ≡ true) ↔ Downstream (get_all_nodes g) root x)
      × ((x : String) (n : GraphNode)
          → get_node g x ≡ some n
          → (n' : GraphNode) × (get_node g' x ≡ some n') × Invalidated (hit x) n n')
      × ((x : String) → get_node g x ≡ none → get_node g' x ≡ none)
invalidate_downstream_exact g root keyed unique =
    let (g', out, hit, e, below, after) = invalidate_downstream-lookup g root keyed unique in
    (
      g',
      out,
      hit,
      e,
      below,
      λ x n here. (
        reset_if (hit x) n,
        after x ∙ ap (Option.map (reset_if (hit x))) here,
        Invalidated-reset_if (hit x) n,
      ),
      λ x absent. after x ∙ ap (Option.map (reset_if (hit x))) absent,
    )
