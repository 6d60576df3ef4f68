-- ===== src/Engine/Backing/Scan.antt =====
-- readyNodes of scheduler/scheduler.ts: the gates that it skips are disabled ones.
use mathlib.Core.Option
use evolve_loop.Base.{
  String, ◌≡◌, refl, sym, ap, ◌∙◌, subst, Bool, true, not, ◌&&◌, if◌then◌else◌, Bool-cases,
  Option-cases, inl, inr, none, some, get_or, some_injective, none-not-some, ◌⊎◌, List, [], ◌∷◌,
  ◌==◌, Memᴰ, lookup, string_eq, arith,
}
use evolve_loop.Types.{GraphNode, ExecutionPolicy, skipped, pending, node_status_eq}
use evolve_loop.Graph.Store.{
  GraphStore, get_all_nodes, set_node_status, dependencies_satisfied, lookup-set_node_status,
}
use evolve_loop.Graph.Valid.{IsValid}
use evolve_loop.Graph.Walk.Invalidate.{lookup-mem}
use evolve_loop.Policies.{gate_enabled}
use evolve_loop.Events.{Event}
use evolve_loop.Scheduler.{Scan, is_disabled_gate, skip_gate, scan_node, scan_nodes, ready_nodes}
use evolve_loop.Engine.Backing.{IsBacked, IsBacked-with_node}

-- Each listed node is declared as the store's node under its id.
abbrev pub DeclaredAlike : List GraphNode → GraphStore → Type 0
DeclaredAlike ns g = (n k : GraphNode) → Memᴰ n ns → lookup n.id g.nodes ≡ some k → k.ir ≡ n.ir

pub DeclaredAlike-all : (g : GraphStore) → IsValid g → DeclaredAlike (get_all_nodes g) g
unfolding get_all_nodes
DeclaredAlike-all g v n k m h =
    let (j, found) = lookup-mem g.nodes n v.distinct m in
    let here : lookup n.id g.nodes ≡ some n =
      subst (λ i. lookup i g.nodes ≡ some n) (sym (v.keyed j n found)) found in
    ap (λ i. i.ir) (some_injective (sym h ∙ here))

module _ (policy : ExecutionPolicy) (feature : String) where
  DeclaredAlike-skip_gate :
      (n : GraphNode) (ns : List GraphNode) (s : Scan)
      → DeclaredAlike ns s.graph
      → DeclaredAlike ns (skip_gate feature n s).graph
  DeclaredAlike-skip_gate n ns s alike m k mem h =
      let before = lookup-set_node_status n.id m.id skipped s.graph in
      split (Option-cases (lookup m.id s.graph.nodes)) (sym before ∙ h)
    where
      split :
          (lookup m.id s.graph.nodes ≡ none)
            ⊎ ((i : GraphNode) × (lookup m.id s.graph.nodes ≡ some i))
          → (if n.id == m.id
              then Option.map {A = GraphNode}
                  (λ i. record i { status = skipped })
                  (lookup m.id s.graph.nodes)
              else lookup m.id s.graph.nodes)
            ≡ some k
          → k.ir ≡ m.ir
      split (inl absent) e = elim (Bool-cases (n.id == m.id)) [
        | inl same ↦ absurd (none-not-some (rw (same, absent) at e))
        | inr other ↦ absurd (none-not-some (rw (other, absent) at e))
      ]
      split (inr (i, found)) e = elim (Bool-cases (n.id == m.id)) [
        | inl same ↦
            sym (ap (λ (j : GraphNode). j.ir) (some_injective (rw (same, found) at e)))
            ∙ alike m i mem found
        | inr other ↦
            sym (ap (λ (j : GraphNode). j.ir) (some_injective (rw (other, found) at e)))
            ∙ alike m i mem found
      ]

  skip_gate-IsBacked :
      (n : GraphNode) (s : Scan)
      → ((k : GraphNode) → lookup n.id s.graph.nodes ≡ some k → k.ir ≡ n.ir)
      → is_disabled_gate policy n ≡ true
      → IsBacked policy s.graph
      → IsBacked policy (skip_gate feature n s).graph
  unfolding set_node_status node_status_eq
  skip_gate-IsBacked n s alike off b = elim (Option-cases (set_node_status n.id skipped s.graph)) [
    | inl threw ↦ rw (threw, get_or) b
    | inr (g, gave) ↦
        rw (gave, get_or)
          (IsBacked-with_node policy n.id (λ k. record k { status = skipped }) s.graph g (λ k. refl)
            (λ k found. record {
              proven = λ p. absurd (ground arith);
              disabled = λ p.
                  subst (λ i. (i.type == "gate" && not (gate_enabled policy i.capability)) ≡ true)
                    (sym (alike k found)) off;
            })
            gave b)
  ]

  abbrev Ok : List GraphNode → Scan → Type 0
  Ok ns s = DeclaredAlike ns s.graph × IsBacked policy s.graph

  scan_node-Ok :
      (n : GraphNode) (ns : List GraphNode) (s : Scan)
      → Ok (n ∷ ns) s
      → Ok ns (scan_node policy feature s n)
  unfolding scan_node
  scan_node-Ok n ns s (alike, b) =
      let alike' : DeclaredAlike ns s.graph = λ m k mem. alike m k (Memᴰ.tail mem) in
      elim (Bool-cases (n.status == pending)) [
        | inr other ↦ rw (other, scan_node) (alike', b)
        | inl free ↦ elim (Bool-cases (dependencies_satisfied s.graph n)) [
          | inr early ↦ rw (free, early, scan_node) (alike', b)
          | inl due ↦ elim (Bool-cases (is_disabled_gate policy n)) [
            | inr on ↦ rw (free, due, on, scan_node) (alike', b)
            | inl off ↦
                rw (free, due, off, scan_node)
                  (
                    DeclaredAlike-skip_gate n ns s alike',
                    skip_gate-IsBacked n s (λ k. alike n k (Memᴰ.head refl)) off b,
                  )
          ]
        ]
      ]

  scan_nodes-IsBacked :
      (ns : List GraphNode) (s : Scan)
      → Ok ns s
      → IsBacked policy (scan_nodes policy feature s ns).graph
  unfolding scan_nodes
  scan_nodes-IsBacked [] s ok = ok.1
  scan_nodes-IsBacked (n ∷ ns) s ok =
      scan_nodes-IsBacked ns (scan_node policy feature s n) (scan_node-Ok n ns s ok)

  -- Looking for ready nodes keeps the store backed.
  pub ready_nodes-IsBacked :
      (locale_after : String → String → Bool) (g : GraphStore) (log : List Event)
      → IsBacked policy g
      → IsBacked policy (ready_nodes locale_after policy feature g log).graph
  unfolding ready_nodes
  ready_nodes-IsBacked locale_after g log b =
      scan_nodes-IsBacked (get_all_nodes g) _ (DeclaredAlike-all g b.valid, b)
