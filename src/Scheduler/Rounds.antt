-- ===== src/Scheduler/Rounds.antt =====
-- readyNodes of scheduler/scheduler.ts: what its rounds do to the store.
use mathlib.Core.List.Memᴰ
use evolve_loop.Base.{
  Distinct, String, ◌≡◌, refl, sym, ◌∙◌, inl, inr, Bool, true, false, ◌&&◌, Bool-cases, some, List,
  [], ◌∷◌, ◌++◌, ◌==◌, arith, contains, Dict, lookup, values, Memᴰ, string_eq, if◌then◌else◌,
}
use evolve_loop.Types.{GraphNode, ExecutionPolicy, node_status_eq, pending, skipped}
use evolve_loop.Graph.Store.{GraphStore, dependencies_satisfied, lookup-set_node_status}
use evolve_loop.Graph.Walk.Downstream.{ids}
use evolve_loop.Graph.Walk.Invalidate.{KeysMatch, KeysDistinct, mem-ids, lookup-mem}
use evolve_loop.Scheduler.{Scan, is_disabled_gate, scan_node, scan_nodes}

abbrev pub skipped_node : GraphNode → GraphNode
skipped_node n = record n { status = skipped }

pub ids-mem :
    (ns : List GraphNode) (id : String)
    → contains (ids ns) id ≡ true
    → (n : GraphNode) × Memᴰ n ns × (n.id ≡ id)
ids-mem [] id h = absurd (cc)
ids-mem (n ∷ ns) id h = elim (Bool-cases (n.id == id)) [
  | inl here ↦ (n, Memᴰ.head refl, ground arith)
  | inr other ↦ let (k, m, e) = ids-mem ns id (ground arith) in (k, Memᴰ.tail m, e)
]

KeysMatch-tail :
    (j : String) (n : GraphNode) (m : Dict GraphNode)
    → KeysDistinct ((j, n) ∷ m)
    → KeysMatch ((j, n) ∷ m)
    → KeysMatch m
KeysMatch-tail j n m d k i x h = elim (Bool-cases (j == i)) [
  | inl same ↦ absurd (let first = d.0 in ground arith)
  | inr other ↦ k i x (ground arith)
]

pub values-Distinct :
    (m : Dict GraphNode) → KeysMatch m → KeysDistinct m → Distinct (ids (values m))
values-Distinct [] k d = tt
values-Distinct ((j, n) ∷ m) k d =
    let rest = KeysMatch-tail j n m d k in
    (
      elim (Bool-cases (contains (ids (values m)) n.id)) [
        | inr absent ↦ absent
        | inl twice ↦
            let (p, mem, e) = ids-mem (values m) n.id twice in
            let (i, there) = lookup-mem m p d.1 mem in
            let own = rest i p there in
            let first = k j n (ground arith) in
            let unique = d.0 in absurd (let same : i ≡ j = sym own ∙ e ∙ first in ground arith)
      ],
      values-Distinct m rest d.1,
    )

-- The two parts of a list without repeated ids share none.
pub before-after :
    (xs ys : List GraphNode) (k : GraphNode)
    → Distinct (ids (xs ++ ys))
    → Memᴰ k xs
    → contains (ids ys) k.id ≡ false
before-after [] ys k d m = absurd (Memᴰ.not-nil m)
before-after (x ∷ xs) ys k d (Memᴰ.head e) = rw e (not_in xs ys x.id d.0)
  where
    not_in :
        (xs ys : List GraphNode) (id : String)
        → contains (ids (xs ++ ys)) id ≡ false
        → contains (ids ys) id ≡ false
    not_in [] ys id h = h
    not_in (x ∷ xs) ys id h = not_in xs ys id (ground arith)
before-after (x ∷ xs) ys k d (Memᴰ.tail m) = before-after xs ys k d.1 m

pub after-before :
    (xs ys : List GraphNode) (k : GraphNode)
    → Distinct (ids (xs ++ ys))
    → Memᴰ k ys
    → contains (ids xs) k.id ≡ false
after-before xs ys k d m = elim (Bool-cases (contains (ids xs) k.id)) [
  | inr absent ↦ absent
  | inl present ↦
      let (p, mem, e) = ids-mem xs k.id present in
      let away = before-after xs ys p d mem in absurd (let here = mem-ids ys k m in ground arith)
]

module _ (policy : ExecutionPolicy) (feature : String) where
  -- The round of the node skips it.
  abbrev pub is_skipped : GraphStore → GraphNode → Bool
  is_skipped g n = n.status == pending && dependencies_satisfied g n && is_disabled_gate policy n

  pub scan_node-other :
      (s : Scan) (n : GraphNode) (id : String)
      → (n.id == id) ≡ false
      → lookup id (scan_node policy feature s n).graph.nodes ≡ lookup id s.graph.nodes
  unfolding scan_node
  scan_node-other s n id h = ground (arith, lookup-set_node_status n.id id skipped s.graph)

  pub scan_node-own :
      (s : Scan) (n : GraphNode)
      → lookup n.id s.graph.nodes ≡ some n
      → lookup n.id (scan_node policy feature s n).graph.nodes
        ≡ some (if is_skipped s.graph n then skipped_node n else n)
  unfolding scan_node
  scan_node-own s n h = ground (arith, lookup-set_node_status n.id n.id skipped s.graph)

  pub scan_nodes-other :
      (ns : List GraphNode) (s : Scan) (id : String)
      → contains (ids ns) id ≡ false
      → lookup id (scan_nodes policy feature s ns).graph.nodes ≡ lookup id s.graph.nodes
  unfolding scan_nodes
  scan_nodes-other [] s id h = refl
  scan_nodes-other (n ∷ ns) s id h =
      scan_nodes-other ns _ id (ground arith) ∙ scan_node-other s n id (ground arith)

  pub scan_nodes-append :
      (xs ys : List GraphNode) (s : Scan)
      → scan_nodes policy feature s (xs ++ ys)
        ≡ scan_nodes policy feature (scan_nodes policy feature s xs) ys
  unfolding scan_nodes
  scan_nodes-append [] ys s = refl
  scan_nodes-append (x ∷ xs) ys s = scan_nodes-append xs ys (scan_node policy feature s x)

pub lookup-values :
    (m : Dict GraphNode) (id : String) (k : GraphNode) → lookup id m ≡ some k → Memᴰ k (values m)
lookup-values [] id k h = absurd (cc)
lookup-values ((j, n) ∷ m) id k h = elim (Bool-cases (j == id)) [
  | inl hit ↦ Memᴰ.head (let e = rw hit at h in cc)
  | inr miss ↦ Memᴰ.tail (lookup-values m id k (rw miss at h))
]
