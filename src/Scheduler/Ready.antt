-- ===== src/Scheduler/Ready.antt =====
-- readyNodes of scheduler/scheduler.ts: which nodes it hands out, and what it does to the graph.
use mathlib.Core.List.Memᴰ
use evolve_loop.Base.{
  String, ◌≡◌, refl, ◌⊎◌, inl, inr, Bool, true, false, Bool-cases, List, [], ◌∷◌, ◌++◌, ◌==◌, arith,
  mem-sort, sort-mem, ◌↔◌, ap, Memᴰ, string_eq,
}
use evolve_loop.Types.{
  GraphNode, ExecutionPolicy, node_status_eq, pending, execution_order_eq, priority_field,
}
use evolve_loop.Graph.Store.{GraphStore, dependencies_satisfied}
use evolve_loop.Scheduler.{
  Scan, is_disabled_gate, scan_node, scan_nodes, order_for_execution, after_priority,
  after_topological,
}

-- A node that may be handed out.
pub record IsReady (policy : ExecutionPolicy) (g : GraphStore) (n : GraphNode) : Type 0 where
  pub is_pending : n.status ≡ pending
  pub unblocked : dependencies_satisfied g n ≡ true
  pub enabled : is_disabled_gate policy n ≡ false

module _ (policy : ExecutionPolicy) (feature : String) where
  mem-snoc : (xs : List GraphNode) (x y : GraphNode) → Memᴰ y (xs ++ x ∷ []) → Memᴰ y xs ⊎ (y ≡ x)
  mem-snoc [] x y (Memᴰ.head e) = inr e
  mem-snoc [] x y (Memᴰ.tail m) = absurd (Memᴰ.not-nil m)
  mem-snoc (z ∷ zs) x y (Memᴰ.head e) = inl (Memᴰ.head e)
  mem-snoc (z ∷ zs) x y (Memᴰ.tail m) = elim (mem-snoc zs x y m) [
    | inl old ↦ inl (Memᴰ.tail old)
    | inr new ↦ inr new
  ]

  -- The new candidate of a round is ready.
  pub scan_node-candidate :
      (s : Scan) (n m : GraphNode)
      → Memᴰ m (scan_node policy feature s n).candidates
      → Memᴰ m s.candidates ⊎ (m ≡ n) × IsReady policy s.graph n
  unfolding scan_node
  scan_node-candidate s n m h = elim (Bool-cases (n.status == pending)) [
    | inr other ↦ inl (rw (other, scan_node) at h)
    | inl wait ↦ elim (Bool-cases (dependencies_satisfied s.graph n)) [
      | inr blocked ↦ inl (rw (wait, blocked) at h)
      | inl free ↦ elim (Bool-cases (is_disabled_gate policy n)) [
        | inl off ↦ inl (rw (wait, free, off) at h)
        | inr on ↦ elim (mem-snoc s.candidates n m (rw (wait, free, on) at h)) [
          | inl old ↦ inl old
          | inr new ↦
              inr (new, record { is_pending = ground arith; unblocked = free; enabled = on })
        ]
      ]
    ]
  ]

  snoc-mem : (xs : List GraphNode) (x y : GraphNode) → Memᴰ y xs → Memᴰ y (xs ++ x ∷ [])
  snoc-mem [] x y m = absurd (Memᴰ.not-nil m)
  snoc-mem (z ∷ zs) x y (Memᴰ.head e) = Memᴰ.head e
  snoc-mem (z ∷ zs) x y (Memᴰ.tail m) = Memᴰ.tail (snoc-mem zs x y m)

  snoc-last : (xs : List GraphNode) (x : GraphNode) → Memᴰ x (xs ++ x ∷ [])
  snoc-last [] x = Memᴰ.head refl
  snoc-last (z ∷ zs) x = Memᴰ.tail (snoc-last zs x)

  scan_node-keeps :
      (s : Scan) (n m : GraphNode)
      → Memᴰ m s.candidates
      → Memᴰ m (scan_node policy feature s n).candidates
  unfolding scan_node
  scan_node-keeps s n m h = elim (Bool-cases (n.status == pending)) [
    | inr other ↦ rw other h
    | inl wait ↦ elim (Bool-cases (dependencies_satisfied s.graph n)) [
      | inr blocked ↦ rw (wait, blocked) h
      | inl free ↦ elim (Bool-cases (is_disabled_gate policy n)) [
        | inl off ↦ rw (wait, free, off) h
        | inr on ↦ rw (wait, free, on) (snoc-mem s.candidates n m h)
      ]
    ]
  ]

  pub scan_nodes-keeps :
      (ns : List GraphNode) (s : Scan) (m : GraphNode)
      → Memᴰ m s.candidates
      → Memᴰ m (scan_nodes policy feature s ns).candidates
  unfolding scan_nodes
  scan_nodes-keeps [] s m h = h
  scan_nodes-keeps (n ∷ ns) s m h = scan_nodes-keeps ns _ m (scan_node-keeps s n m h)

  pub scan_node-adds :
      (s : Scan) (n : GraphNode)
      → IsReady policy s.graph n
      → Memᴰ n (scan_node policy feature s n).candidates
  unfolding scan_node node_status_eq
  scan_node-adds s n r =
      let wait = ap (λ t. t == pending) r.is_pending in
      rw (wait, r.unblocked, r.enabled) (snoc-last s.candidates n)

pub mem-order :
    (locale_after : String → String → Bool) (policy : ExecutionPolicy) (m : GraphNode)
    (ns : List GraphNode)
    → Memᴰ m (order_for_execution locale_after policy ns) ↔ Memᴰ m ns
unfolding order_for_execution
mem-order locale_after policy m ns =
    elim (Bool-cases (policy.spec.execution_order == priority_field)) [
      | inl e ↦ rw e (mem-sort after_priority m ns, sort-mem after_priority m ns)
      | inr e ↦ rw e (
        mem-sort (after_topological locale_after) m ns,
        sort-mem (after_topological locale_after) m ns,
      )
    ]
