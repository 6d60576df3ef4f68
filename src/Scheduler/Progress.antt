-- ===== src/Scheduler/Progress.antt =====
-- readyNodes of scheduler/scheduler.ts between two rounds, on a graph that ir/validator.ts accepts.
use mathlib.Core.List.Memᴰ
use evolve_loop.Base.{
  contradiction, Option, String, ◌≡◌, refl, ap, sym, ◌∙◌, subst, ◌⊎◌, inl, inr, Bool, true, false,
  Bool-cases, some, List, [], ◌∷◌, Memᴰ, contains, Distinct, all-cases, arith, string_eq,
}
use evolve_loop.Types.{IrNode, CapabilityIr, GraphNode, ExecutionPolicy, pending, node_status_eq}
use evolve_loop.Graph.Store.{
  GraphStore, get_node, get_all_nodes, done_at, is_done, dependencies_satisfied,
}
use evolve_loop.Ir.Search.{node_ids, targets, detect_cycle}
use evolve_loop.Ir.Cycle.Complete.{Safe, safe}
use evolve_loop.Ir.Cycle.Decides.{detect_cycle_decides, edges_of, targets-here, detect_cycle-Safe}
use evolve_loop.Ir.Validate.{Code, validate_ir, duplicate_id, dangling_edge, cycle_detected}
use evolve_loop.Ir.Validate.Codes.{has}
use evolve_loop.Ir.Validate.Exact.{validate_ir-Reports}
use evolve_loop.Events.{Event}
use evolve_loop.Scheduler.{is_disabled_gate, ready_nodes}
use evolve_loop.Graph.Valid.{IsValid}
use evolve_loop.Scheduler.Rounds.{skipped_node, lookup-values}
use evolve_loop.Scheduler.Exact.{ready_nodes_exact, IsUnblocked-now}
use evolve_loop.Scheduler.Exact.Positions.{Mem-position}
use evolve_loop.Scheduler.Exact.Turn.{is_disabled_gate-IsOff}

-- The graph has no fault of its dependencies.
pub record IsSound (ir : CapabilityIr) : Type 0 where
  pub acyclic : detect_cycle ir.nodes ≡ some false
  pub distinct : Distinct (node_ids ir.nodes)
  pub closed :
      (n : IrNode)
      → Memᴰ n ir.nodes
      → (dep : String) → contains n.dependencies dep ≡ true
      → contains (node_ids ir.nodes) dep ≡ true

IsSound-of_valid :
    (ir : CapabilityIr) (known : Option (List String)) → validate_ir ir known ≡ [] → IsSound ir
IsSound-of_valid ir known valid =
    let r = validate_ir-Reports ir known in
    let none_reported = λ (c : Code). ap (has c) valid in
    let (b, answer, (forth, back)) = detect_cycle_decides ir.nodes in
    record {
      acyclic = elim (Bool-cases b) [
        | inr no_cycle ↦ answer ∙ ap some no_cycle
        | inl found ↦
            absurd (contradiction (r.cyclic.1 (forth found)) (none_reported cycle_detected))
      ];
      distinct = r.duplicate.0 (none_reported duplicate_id);
      closed = r.dangling.0 (none_reported dangling_edge);
    }

-- The store holds the nodes of the graph, and each is pending or done: no run is under way and none
-- has failed.
pub record IsBetweenRuns (ir : CapabilityIr) (g : GraphStore) : Type 0 where
  pub from_ir :
      (id : String) (k : GraphNode) → get_node g id ≡ some k → Memᴰ k.ir ir.nodes × (k.id ≡ id)
  pub total :
      (id : String)
      → contains (node_ids ir.nodes) id ≡ true
      → (k : GraphNode) × (get_node g id ≡ some k)
  pub settled :
      (id : String) (k : GraphNode)
      → get_node g id ≡ some k
      → (k.status ≡ pending) ⊎ (is_done k.status ≡ true)

mem-contains : (xs : List String) (x : String) → Memᴰ x xs → contains xs x ≡ true
mem-contains [] x m = absurd (Memᴰ.not-nil m)
mem-contains (y ∷ xs) x (Memᴰ.head e) = ground arith
mem-contains (y ∷ xs) x (Memᴰ.tail m) = ground (arith, mem-contains xs x m)

done_at-some :
    (g : GraphStore) (id : String) (k : GraphNode)
    → get_node g id ≡ some k
    → done_at g id ≡ is_done k.status
unfolding get_node
done_at-some g id k h = rw (h, done_at) refl

-- A node that nothing keeps from running.
abbrev Unblocked : GraphStore → Type 0
Unblocked g =
    (id : String) × (k : GraphNode) × (get_node g id ≡ some k)
    × (k.status ≡ pending)
    × (dependencies_satisfied g k ≡ true)

module _ (ir : CapabilityIr) (g : GraphStore) (sound : IsSound ir)
    (between : IsBetweenRuns ir g) where
  -- Along the dependencies of a pending node there is one that can run.
  Unblocked-below :
      (id : String) (k : GraphNode)
      → Safe (edges_of ir.nodes) id
      → get_node g id ≡ some k
      → k.status ≡ pending
      → Unblocked g
  unfolding dependencies_satisfied
  Unblocked-below id k (safe below) here wait = elim (all-cases (done_at g) k.dependencies) [
    | inl free ↦ (id, k, here, wait, free)
    | inr (dep, mem, open_dep) ↦
        let (declared, own) = between.from_ir id k here in
        let named = mem-contains k.dependencies dep mem in
        let (d, there) = between.total dep (sound.closed k.ir declared dep named) in
        let same =
          ap (targets (edges_of ir.nodes)) (sym own)
          ∙ targets-here ir.nodes k.ir sound.distinct declared in
        let among = subst (λ l. contains l dep ≡ true) (sym same) named in
        elim (between.settled dep d there) [
          | inl waits ↦ Unblocked-below dep d (below dep among) there waits
          | inr done ↦ absurd (let e = done_at-some g dep d there in cc)
        ]
  ]

-- In a valid store of a graph in which validateIR finds no error, where every node is pending, satisfied
-- or skipped and some node is pending, readyNodes hands out a node or skips one: some pending node has all
-- its dependencies done and is a candidate, or is a gate that is skipped afterwards.
pub ready_nodes_progress :
    (locale_after : String → String → Bool) (policy : ExecutionPolicy) (feature : String)
    (log : List Event) (ir : CapabilityIr) (known_capabilities : Option (List String))
    (g : GraphStore) (id : String) (k : GraphNode)
    → validate_ir ir known_capabilities ≡ []
    → IsValid g
    → IsBetweenRuns ir g
    → get_node g id ≡ some k
    → k.status ≡ pending
    → (m : GraphNode) × Memᴰ m (get_all_nodes g)
      × (m.status ≡ pending)
      × (dependencies_satisfied g m ≡ true)
      × (Memᴰ m (ready_nodes locale_after policy feature g log).candidates
          ⊎ (m.type ≡ "gate")
            × (get_node (ready_nodes locale_after policy feature g log).graph m.id
                ≡ some (skipped_node m)))
unfolding get_node get_all_nodes
ready_nodes_progress locale_after policy feature log ir known_capabilities g id k valid whole
      between here wait =
    let sound = IsSound-of_valid ir known_capabilities valid in
    let (declared, own) = between.from_ir id k here in
    let known : contains (node_ids ir.nodes) id ≡ true =
      subst (λ x. contains (node_ids ir.nodes) x ≡ true) own
        (mem-node_ids ir.nodes k.ir declared) in
    let (j, m, there, waits, free) =
      Unblocked-below ir g sound between id k (detect_cycle-Safe ir.nodes sound.acyclic id known)
        here wait in
    let stored = lookup-values g.nodes j m there in
    let (before, after, split) = Mem-position (get_all_nodes g) m stored in
    let h =
      (ready_nodes_exact locale_after policy feature g log whole).handled before after m split in
    let u =
      IsUnblocked-now g (ready_nodes locale_after policy feature g log).graph before m waits free in
    (
      m,
      stored,
      waits,
      free,
      elim (Bool-cases (is_disabled_gate policy m)) [
        | inl off ↦
            let is_off = (is_disabled_gate-IsOff policy m).0 off in inr (is_off.0, h.skips u is_off)
        | inr on ↦
            inl (h.handed_out.1 (u, λ o. let off = (is_disabled_gate-IsOff policy m).1 o in cc))
      ],
    )
  where
    mem-node_ids : (ns : List IrNode) (n : IrNode) → Memᴰ n ns → contains (node_ids ns) n.id ≡ true
    mem-node_ids [] n m = absurd (Memᴰ.not-nil m)
    mem-node_ids (x ∷ ns) n (Memᴰ.head e) = rw e (ground arith)
    mem-node_ids (x ∷ ns) n (Memᴰ.tail m) = ground (arith, mem-node_ids ns n m)
