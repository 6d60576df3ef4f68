-- ===== src/Scheduler/Exact.antt =====
-- readyNodes of scheduler/scheduler.ts: which nodes are handed out, and which are skipped.
pub mod Once
pub mod Positions
pub mod Turn
use mathlib.Core.List.Memᴰ
use evolve_loop.Base.{
  Distinct, String, ◌≡◌, refl, sym, ap, ◌∙◌, subst, ◌≢◌, ◌⊎◌, inl, inr, ◌↔◌, Bool, true, false,
  ◌&&◌, ◌||◌, not, Bool-cases, Option-cases, some, none, List, [], ◌∷◌, ◌++◌, ◌==◌, arith, contains,
  all, all-contains, lookup, values, Memᴰ, none-not-some, string_eq, if◌then◌else◌,
}
use evolve_loop.Types.{GraphNode, ExecutionPolicy, node_status_eq, pending, satisfied, skipped}
use evolve_loop.Graph.Store.{
  GraphStore, get_node, get_all_nodes, is_done, done_at, dependencies_satisfied,
}
use evolve_loop.Graph.Valid.{IsValid}
use evolve_loop.Graph.Walk.Downstream.{ids}
use evolve_loop.Graph.Walk.Invalidate.{lookup-mem, mem-ids}
use evolve_loop.Policies.{gate_enabled}
use evolve_loop.Events.{Event}
use evolve_loop.Scheduler.{Scan, is_disabled_gate, scan_node, scan_nodes, ready_nodes}
use evolve_loop.Scheduler.Ready.{
  IsReady, mem-order, scan_node-adds, scan_nodes-keeps, scan_node-candidate,
}
use evolve_loop.Scheduler.Rounds.{
  ids-mem, lookup-values, skipped_node, values-Distinct, before-after, after-before, is_skipped,
  scan_node-own, scan_nodes-other, scan_nodes-append,
}
use evolve_loop.Scheduler.Exact.Once.{ready_nodes-Distinct}
use evolve_loop.Scheduler.Exact.Positions.{all-of}
use evolve_loop.Scheduler.Exact.Turn.{
  IsDone, IsUnblocked, IsOff, Handled, Dispatch, is_done-cases, turn, nodes, end, origin,
  Handled-end,
}

-- A node is handed out where it is pending, each dependency of it is done, and it is no gate that the
-- policy disables; such a gate is skipped instead, and every other node stays as it is. A dependency is
-- done that was satisfied or skipped at the call, or is a node that stands before and is skipped by this
-- call. No node is handed out twice, and none that is not of the store. The order of the policy makes no
-- difference to this.
pub ready_nodes_exact :
    (locale_after : String → String → Bool) (policy : ExecutionPolicy) (feature : String)
    (g : GraphStore) (log : List Event)
    → IsValid g
    → Dispatch policy g (ready_nodes locale_after policy feature g log)
unfolding ready_nodes get_all_nodes get_node
ready_nodes_exact locale_after policy feature g log v =
    let scanned = end policy feature g log v in
    record {
      handled = λ before after m split.
          let h = Handled-end policy feature g log v before after m split in
          record {
            handed_out = (
              λ c. h.handed_out.0 ((mem-order locale_after policy m scanned.candidates).0 c),
              λ r. (mem-order locale_after policy m scanned.candidates).1 (h.handed_out.1 r),
            );
            skips = h.skips;
            leaves = h.leaves;
          };
      known = λ m c.
          elim (origin policy feature g log v (values g.nodes) _ m
            ((mem-order locale_after policy m scanned.candidates).0 c)) [
              | inl nothing ↦ absurd (Memᴰ.not-nil nothing)
              | inr mem ↦ mem
            ];
      once =
          ready_nodes-Distinct policy feature locale_after g log
            (values-Distinct g.nodes v.keyed v.distinct);
      no_other = λ id absent.
          scan_nodes-other policy feature (values g.nodes) _ id (unknown id absent) ∙ absent;
    }
  where
    unknown : (id : String) → lookup id g.nodes ≡ none → contains (ids (values g.nodes)) id ≡ false
    unknown id absent = elim (Bool-cases (contains (ids (values g.nodes)) id)) [
      | inr fine ↦ fine
      | inl there ↦
          let (k, mem, e) = ids-mem (values g.nodes) id there in
          let (j, found) = lookup-mem g.nodes k v.distinct mem in
          let own = v.keyed j k found in
          absurd (
            none-not-some (sym absent ∙ subst (λ i. lookup i g.nodes ≡ some k) (sym own ∙ e) found))
    ]

-- A pending node whose dependencies are done at the call is unblocked when the loop comes to it.
pub IsUnblocked-now :
    (g result : GraphStore) (before : List GraphNode) (m : GraphNode)
    → m.status ≡ pending
    → dependencies_satisfied g m ≡ true
    → IsUnblocked g result before m
unfolding dependencies_satisfied get_node
IsUnblocked-now g result before m wait free = record {
  is_pending = wait;
  all_done = λ dep mem. now dep (all-of (done_at g) m.dependencies dep free mem);
}
  where
    now : (dep : String) → done_at g dep ≡ true → IsDone g result before dep
    now dep d = elim (Option-cases (lookup dep g.nodes)) [
      | inl absent ↦ absurd (let denied : done_at g dep ≡ false = rw (absent, done_at) refl in cc)
      | inr (k, here) ↦
          let same : done_at g dep ≡ is_done k.status = rw (here, done_at) refl in
          elim ((is_done-cases k).0 (sym same ∙ d)) [
            | inl sat ↦ (k, here, inl sat)
            | inr skip ↦ (k, here, inr (inl skip))
          ]
    ]
