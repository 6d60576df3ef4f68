-- ===== src/Scheduler/Exact/Turn.antt =====
-- readyNodes of scheduler/scheduler.ts: what its loop does with a node when it comes to it.
use mathlib.Core.List.Memᴰ
use evolve_loop.Base.{
  Distinct, String, ◌≡◌, refl, sym, ap, ◌∙◌, subst, ◌⊎◌, inl, inr, ◌↔◌, true, false, Bool-cases,
  Option-cases, some, none, List, [], ◌∷◌, ◌++◌, ◌==◌, arith, contains, lookup, values, Memᴰ,
  none-not-some, string_eq, if◌then◌else◌,
}
use evolve_loop.Types.{GraphNode, ExecutionPolicy, node_status_eq, pending, satisfied, skipped}
use evolve_loop.Graph.Store.{
  GraphStore, get_node, get_all_nodes, is_done, done_at, dependencies_satisfied,
}
use evolve_loop.Graph.Valid.{IsValid}
use evolve_loop.Graph.Walk.Downstream.{ids}
use evolve_loop.Graph.Walk.Invalidate.{lookup-mem, mem-ids}
use evolve_loop.Policies.{gate_enabled}
use evolve_loop.Events.{Event}
use evolve_loop.Scheduler.{Scan, is_disabled_gate, scan_node, scan_nodes}
use evolve_loop.Scheduler.Ready.{IsReady, scan_node-adds, scan_nodes-keeps, scan_node-candidate}
use evolve_loop.Scheduler.Rounds.{
  ids-mem, lookup-values, skipped_node, values-Distinct, before-after, after-before, is_skipped,
  scan_node-own, scan_nodes-other, scan_nodes-append,
}
use evolve_loop.Scheduler.Exact.Positions.{
  Mem-split, Mem-left, Mem-middle, suffix-Distinct, Mem-position, all-of, of-all,
}

-- When the loop comes to a node, after the nodes `before`, a dependency is done that was satisfied or
-- skipped at the call, or that is among the nodes before and was skipped by the loop.
abbrev pub IsDone : (g result : GraphStore) → (before : List GraphNode) → (dep : String) → Type 0
IsDone g result before dep =
    (k : GraphNode) × (get_node g dep ≡ some k)
    × ((k.status ≡ satisfied)
        ⊎ (k.status ≡ skipped)
        ⊎ Memᴰ k before × (get_node result dep ≡ some (skipped_node k)))

-- The node waits, and all that it depends on is done.
pub record IsUnblocked (g result : GraphStore) (before : List GraphNode) (m : GraphNode)
    : Type 0 where
  pub is_pending : m.status ≡ pending
  pub all_done : (dep : String) → contains m.dependencies dep ≡ true → IsDone g result before dep

abbrev pub IsOff : ExecutionPolicy → GraphNode → Type 0
IsOff policy m = (m.type ≡ "gate") × (gate_enabled policy m.capability ≡ false)

-- What the loop does with a node, by what stands before it.
pub record Handled (policy : ExecutionPolicy) (g : GraphStore) (r : Scan) (before : List GraphNode)
    (m : GraphNode) : Type 0 where
  pub handed_out : Memᴰ m r.candidates ↔ IsUnblocked g r.graph before m × (IsOff policy m → ⊥)
  pub skips :
      IsUnblocked g r.graph before m
      → IsOff policy m
      → get_node r.graph m.id ≡ some (skipped_node m)
  pub leaves :
      (IsUnblocked g r.graph before m × IsOff policy m → ⊥) → get_node r.graph m.id ≡ some m

pub record Dispatch (policy : ExecutionPolicy) (g : GraphStore) (r : Scan) : Type 0 where
  pub handled :
      (before after : List GraphNode) (m : GraphNode)
      → get_all_nodes g ≡ before ++ m ∷ after
      → Handled policy g r before m
  pub known : (m : GraphNode) → Memᴰ m r.candidates → Memᴰ m (get_all_nodes g)
  pub once : Distinct (ids r.candidates)
  pub no_other : (id : String) → get_node g id ≡ none → get_node r.graph id ≡ none

pub is_disabled_gate-IsOff :
    (policy : ExecutionPolicy) (m : GraphNode) → (is_disabled_gate policy m ≡ true) ↔ IsOff policy m
is_disabled_gate-IsOff policy m = ground arith

pub is_done-cases :
    (k : GraphNode) → (is_done k.status ≡ true) ↔ (k.status ≡ satisfied) ⊎ (k.status ≡ skipped)
unfolding node_status_eq
is_done-cases k = ground arith

module _ (policy : ExecutionPolicy) (feature : String) (g : GraphStore) (log : List Event)
    (v : IsValid g) where
  abbrev pub turn : List GraphNode → Scan
  turn before = scan_nodes policy feature (record { graph = g; log = log; candidates = [] }) before

  abbrev pub nodes : List GraphNode
  nodes = values g.nodes

  abbrev pub end : Scan
  end = turn nodes

  distinct : Distinct (ids nodes)
  distinct = values-Distinct g.nodes v.keyed v.distinct

  stored : (k : GraphNode) → Memᴰ k nodes → lookup k.id g.nodes ≡ some k
  stored k m =
      let (j, e) = lookup-mem g.nodes k v.distinct m in
      subst (λ i. lookup i g.nodes ≡ some k) (sym (v.keyed j k e)) e

  pub origin :
      (ns : List GraphNode) (s : Scan) (m : GraphNode)
      → Memᴰ m (scan_nodes policy feature s ns).candidates
      → Memᴰ m s.candidates ⊎ Memᴰ m ns
  unfolding scan_nodes
  origin [] s m h = inl h
  origin (n ∷ ns) s m h = elim (origin ns _ m h) [
    | inr later ↦ inr (Memᴰ.tail later)
    | inl old ↦ elim (scan_node-candidate policy feature s n m old) [
      | inl older ↦ inl older
      | inr (e, ready) ↦ inr (Memᴰ.head e)
    ]
  ]

  module _ (before after : List GraphNode) (m : GraphNode)
      (split : nodes ≡ before ++ m ∷ after) where
    apart : Distinct (ids (before ++ m ∷ after))
    apart = subst (λ l. Distinct (ids l)) split distinct

    is_node : Memᴰ m nodes
    is_node = subst (Memᴰ m) (sym split) (Mem-middle before m after)

    end-turn : end ≡ scan_nodes policy feature (turn before) (m ∷ after)
    end-turn = ap turn split ∙ scan_nodes-append policy feature before (m ∷ after) _

    not_again : contains (ids after) m.id ≡ false
    not_again = (suffix-Distinct before (m ∷ after) apart).0

    -- Nodes that come later are as they were.
    turn-later :
        (id : String)
        → contains (ids before) id ≡ false
        → lookup id (turn before).graph.nodes ≡ lookup id g.nodes
    turn-later id h = scan_nodes-other policy feature before _ id h

    -- The nodes before are as they stay.
    end-before :
        (k : GraphNode)
        → Memᴰ k before
        → lookup k.id end.graph.nodes ≡ lookup k.id (turn before).graph.nodes
    end-before k mem =
        ap (λ s. lookup k.id s.graph.nodes) end-turn
        ∙ scan_nodes-other policy feature (m ∷ after) _ k.id
            (before-after before (m ∷ after) k apart mem)

    end-own :
        lookup m.id end.graph.nodes
        ≡ some (if is_skipped policy feature (turn before).graph m then skipped_node m else m)
    unfolding scan_nodes
    end-own =
        ap (λ s. lookup m.id s.graph.nodes) end-turn
        ∙ scan_nodes-other policy feature after _ m.id not_again
        ∙ scan_node-own policy feature (turn before) m (
            turn-later m.id (after-before before (m ∷ after) m apart (Memᴰ.head refl))
            ∙ stored m is_node)

    candidate_iff : Memᴰ m end.candidates ↔ IsReady policy (turn before).graph m
    unfolding scan_nodes
    candidate_iff = (
      λ h.
          elim (origin after (scan_node policy feature (turn before) m) m
            (subst (λ s. Memᴰ m s.candidates) end-turn h)) [
              | inr later ↦ absurd (let twice = mem-ids after m later in let once = not_again in cc)
              | inl now ↦ elim (scan_node-candidate policy feature (turn before) m m now) [
                | inr (e, ready) ↦ ready
                | inl early ↦ elim (origin before _ m early) [
                  | inl nothing ↦ absurd (Memᴰ.not-nil nothing)
                  | inr mem ↦ absurd (
                      let twice = mem-ids (m ∷ after) m (Memᴰ.head refl) in
                      let once = before-after before (m ∷ after) m apart mem in cc)
                ]
              ]
            ],
      λ r.
          subst (λ s. Memᴰ m s.candidates) (sym end-turn)
            (scan_nodes-keeps policy feature after _ m
              (scan_node-adds policy feature (turn before) m r)),
    )

  -- A node is left as it was, or skipped.
  end-cases :
      (k : GraphNode)
      → Memᴰ k nodes
      → (lookup k.id end.graph.nodes ≡ some k)
        ⊎ (lookup k.id end.graph.nodes ≡ some (skipped_node k))
  end-cases k mem =
      let (before, after, split) = Mem-position nodes k mem in
      let own = end-own before after k split in
      elim (Bool-cases (is_skipped policy feature (turn before).graph k)) [
        | inl off ↦ inr (rw off at own)
        | inr on ↦ inl (rw on at own)
      ]

  module _ (before after : List GraphNode) (m : GraphNode)
      (split : nodes ≡ before ++ m ∷ after) where
    -- What stands at an id when the loop comes to the node.
    turn-cases :
        (id : String) (k : GraphNode)
        → lookup id g.nodes ≡ some k
        → (lookup id (turn before).graph.nodes ≡ some k)
          ⊎ Memᴰ k before
            × (lookup id (turn before).graph.nodes ≡ some (skipped_node k))
            × (lookup id end.graph.nodes ≡ some (skipped_node k))
    turn-cases id k here =
        let mem = lookup-values g.nodes id k here in
        let own = v.keyed id k here in
        elim (Mem-split before k m after (subst (Memᴰ k) split mem)) [
          | inr later ↦ inl (
              turn-later before after m split id (
                subst (λ i. contains (ids before) i ≡ false) own
                  (after-before before (m ∷ after) k (apart before after m split) later))
              ∙ here)
          | inl early ↦
              let kept =
                subst (λ i. lookup i end.graph.nodes ≡ lookup i (turn before).graph.nodes) own
                  (end-before before after m split k early) in
              elim (end-cases k mem) [
                | inl same ↦
                    inl (sym kept ∙ subst (λ i. lookup i end.graph.nodes ≡ some k) own same)
                | inr off ↦
                    let off' =
                      subst (λ i. lookup i end.graph.nodes ≡ some (skipped_node k)) own off in
                    inr (early, sym kept ∙ off', off')
              ]
        ]

    IsDone-turn :
        (dep : String) → done_at (turn before).graph dep ≡ true → IsDone g end.graph before dep
    unfolding get_node
    IsDone-turn dep d = elim (Option-cases (lookup dep g.nodes)) [
      | inl absent ↦ absurd (
          let nothing = turn-later before after m split dep (unknown dep absent) ∙ absent in
          let denied : done_at (turn before).graph dep ≡ false = rw (nothing, done_at) refl in cc)
      | inr (k, here) ↦ elim (turn-cases dep k here) [
        | inr (early, now, stays) ↦ (k, here, inr (inr (early, stays)))
        | inl now ↦
            let same : done_at (turn before).graph dep ≡ is_done k.status =
              rw (now, done_at) refl in
            elim ((is_done-cases k).0 (sym same ∙ d)) [
              | inl sat ↦ (k, here, inl sat)
              | inr skip ↦ (k, here, inr (inl skip))
            ]
      ]
    ]
      where
        unknown : (id : String) → lookup id g.nodes ≡ none → contains (ids before) id ≡ false
        unknown id absent = elim (Bool-cases (contains (ids before) id)) [
          | inr fine ↦ fine
          | inl there ↦
              let (k, mem, e) = ids-mem before id there in
              let in_all = subst (Memᴰ k) (sym split) (Mem-left before (m ∷ after) k mem) in
              let found = subst (λ i. lookup i g.nodes ≡ some k) e (stored k in_all) in
              absurd (none-not-some (sym absent ∙ found))
        ]

    done_at-IsDone :
        (dep : String) → IsDone g end.graph before dep → done_at (turn before).graph dep ≡ true
    unfolding get_node node_status_eq
    done_at-IsDone dep (k, here, why) = elim (turn-cases dep k here) [
      | inr (early, now, stays) ↦ rw (now, done_at) refl
      | inl now ↦
          let same : done_at (turn before).graph dep ≡ is_done k.status = rw (now, done_at) refl in
          elim why [
            | inl sat ↦ same ∙ (is_done-cases k).1 (inl sat)
            | inr (inl skip) ↦ same ∙ (is_done-cases k).1 (inr skip)
            | inr (inr (early, stays)) ↦
                let own = v.keyed dep k here in
                let kept =
                  subst (λ i. lookup i end.graph.nodes ≡ lookup i (turn before).graph.nodes) own
                    (end-before before after m split k early) in
                let off : lookup dep (turn before).graph.nodes ≡ some (skipped_node k) =
                  sym kept ∙ stays in
                rw (off, done_at) refl
          ]
    ]

    unblocked :
        (m.status ≡ pending) × (dependencies_satisfied (turn before).graph m ≡ true)
        ↔ IsUnblocked g end.graph before m
    unfolding dependencies_satisfied
    unblocked = (
      λ (wait, free). record {
        is_pending = wait;
        all_done = λ dep mem.
            IsDone-turn dep (all-of (done_at (turn before).graph) m.dependencies dep free mem);
      },
      λ u. (
        u.is_pending,
        of-all (done_at (turn before).graph) m.dependencies
            (λ dep mem. done_at-IsDone dep (u.all_done dep mem)),
      ),
    )

    is_skipped_iff :
        (is_skipped policy feature (turn before).graph m ≡ true)
        ↔ IsUnblocked g end.graph before m × IsOff policy m
    unfolding node_status_eq
    is_skipped_iff =
        let (forth, back) = unblocked in
        let (off, on) = is_disabled_gate-IsOff policy m in
        (
          λ h. (forth (ground arith, ground arith), off (ground arith)),
          λ (u, o).
              let (wait, free) = back u in
              let is_off = on o in let waits = ap (λ s. s == pending) wait in ground arith,
        )

    pub Handled-end : Handled policy g end before m
    unfolding get_node
    Handled-end = record {
      handed_out = (
        λ h.
            let r = (candidate_iff before after m split).0 h in
            (
              unblocked.0 (r.is_pending, r.unblocked),
              λ o. let off = (is_disabled_gate-IsOff policy m).1 o in let on = r.enabled in cc,
            ),
        λ (u, enabled).
            let (wait, free) = unblocked.1 u in
            (candidate_iff before after m split).1 (record {
              is_pending = wait;
              unblocked = free;
              enabled = elim (Bool-cases (is_disabled_gate policy m)) [
                | inr on ↦ on
                | inl off ↦ absurd (enabled ((is_disabled_gate-IsOff policy m).0 off))
              ];
            }),
      );
      skips = λ u o.
          let own = end-own before after m split in
          let off = is_skipped_iff.1 (u, o) in rw off at own;
      leaves = λ h.
          let own = end-own before after m split in
          elim (Bool-cases (is_skipped policy feature (turn before).graph m)) [
            | inr on ↦ rw on at own
            | inl off ↦ absurd (h (is_skipped_iff.0 off))
          ];
    }
