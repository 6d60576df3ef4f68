-- ===== src/Scheduler/Exact/Once.antt =====
-- readyNodes of scheduler/scheduler.ts: no node is handed out twice.
use evolve_loop.Base.{
  Distinct, String, ◌≡◌, refl, sym, ap, ◌∙◌, subst, inl, inr, Bool, false, Bool-cases, List, [],
  ◌∷◌, ◌++◌, ◌==◌, arith, contains, sort, sort_insert, string_eq,
}
use evolve_loop.Types.{
  GraphNode, ExecutionPolicy, node_status_eq, pending, priority_field, execution_order_eq,
}
use evolve_loop.Graph.Store.{GraphStore, get_all_nodes, dependencies_satisfied}
use evolve_loop.Graph.Walk.Downstream.{ids}
use evolve_loop.Events.{Event}
use evolve_loop.Scheduler.{
  Scan, is_disabled_gate, scan_node, scan_nodes, ready_nodes, order_for_execution, after_priority,
  after_topological,
}

module _ (late : GraphNode → GraphNode → Bool) where
  sort_insert-ids :
      (x : GraphNode) (xs : List GraphNode) (id : String)
      → contains (ids (sort_insert late x xs)) id ≡ contains (ids (x ∷ xs)) id
  sort_insert-ids x [] id = refl
  sort_insert-ids x (y ∷ ys) id = ground (arith, sort_insert-ids x ys id)

  sort-ids :
      (xs : List GraphNode) (id : String) → contains (ids (sort late xs)) id ≡ contains (ids xs) id
  sort-ids [] id = refl
  sort-ids (x ∷ xs) id = sort_insert-ids x (sort late xs) id ∙ ground (arith, sort-ids xs id)

  sort_insert-Distinct :
      (x : GraphNode) (xs : List GraphNode)
      → Distinct (ids (x ∷ xs))
      → Distinct (ids (sort_insert late x xs))
  sort_insert-Distinct x [] d = d
  sort_insert-Distinct x (y ∷ ys) d = elim (Bool-cases (late x y)) [
    | inr early ↦ rw early d
    | inl after_y ↦
        let (new, (first, rest)) = d in
        rw after_y
          (sort_insert-ids x ys y.id ∙ ground arith, sort_insert-Distinct x ys (ground arith, rest))
  ]

  sort-Distinct : (xs : List GraphNode) → Distinct (ids xs) → Distinct (ids (sort late xs))
  sort-Distinct [] d = tt
  sort-Distinct (x ∷ xs) d =
      sort_insert-Distinct x (sort late xs) (sort-ids xs x.id ∙ d.0, sort-Distinct xs d.1)

drop_middle :
    (xs : List GraphNode) (n : GraphNode) (ns : List GraphNode)
    → Distinct (ids (xs ++ n ∷ ns))
    → Distinct (ids (xs ++ ns))
drop_middle [] n ns d = d.1
drop_middle (x ∷ xs) n ns d = (absent xs ns d.0, drop_middle xs n ns d.1)
  where
    absent :
        (ys zs : List GraphNode)
        → contains (ids (ys ++ n ∷ zs)) x.id ≡ false
        → contains (ids (ys ++ zs)) x.id ≡ false
    absent [] zs h = ground arith
    absent (y ∷ ys) zs h = ground (arith, absent ys zs)

append_one :
    (xs : List GraphNode) (n : GraphNode) (ns : List GraphNode)
    → (xs ++ n ∷ []) ++ ns ≡ xs ++ n ∷ ns
append_one [] n ns = refl
append_one (x ∷ xs) n ns = ap (λ l. x ∷ l) (append_one xs n ns)

append_none : (xs : List GraphNode) → xs ++ [] ≡ xs
append_none [] = refl
append_none (x ∷ xs) = ap (λ l. x ∷ l) (append_none xs)

module _ (policy : ExecutionPolicy) (feature : String) where
  scan_node-Distinct :
      (s : Scan) (n : GraphNode) (ns : List GraphNode)
      → Distinct (ids (s.candidates ++ n ∷ ns))
      → Distinct (ids ((scan_node policy feature s n).candidates ++ ns))
  unfolding scan_node
  scan_node-Distinct s n ns d =
      let dropped = drop_middle s.candidates n ns d in
      elim (Bool-cases (n.status == pending)) [
        | inr other ↦ rw other dropped
        | inl wait ↦ elim (Bool-cases (dependencies_satisfied s.graph n)) [
          | inr blocked ↦ rw (wait, blocked) dropped
          | inl free ↦ elim (Bool-cases (is_disabled_gate policy n)) [
            | inl off ↦ rw (wait, free, off) dropped
            | inr on ↦
                rw (wait, free, on)
                  (subst (λ l. Distinct (ids l)) (sym (append_one s.candidates n ns)) d)
          ]
        ]
      ]

  scan_nodes-Distinct :
      (ns : List GraphNode) (s : Scan)
      → Distinct (ids (s.candidates ++ ns))
      → Distinct (ids (scan_nodes policy feature s ns).candidates)
  unfolding scan_nodes
  scan_nodes-Distinct [] s d = subst (λ l. Distinct (ids l)) (append_none s.candidates) d
  scan_nodes-Distinct (n ∷ ns) s d =
      scan_nodes-Distinct ns (scan_node policy feature s n) (scan_node-Distinct s n ns d)

  pub ready_nodes-Distinct :
      (locale_after : String → String → Bool) (g : GraphStore) (log : List Event)
      → Distinct (ids (get_all_nodes g))
      → Distinct (ids (ready_nodes locale_after policy feature g log).candidates)
  unfolding ready_nodes order_for_execution
  ready_nodes-Distinct locale_after g log d =
      let scanned =
        scan_nodes-Distinct (get_all_nodes g) (record { graph = g; log = log; candidates = [] })
          d in
      elim (Bool-cases (policy.spec.execution_order == priority_field)) [
        | inl e ↦ rw e (sort-Distinct after_priority _ scanned)
        | inr e ↦ rw e (sort-Distinct (after_topological locale_after) _ scanned)
      ]
