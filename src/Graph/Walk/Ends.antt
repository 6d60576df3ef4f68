-- ===== src/Graph/Walk/Ends.antt =====
-- transitiveDependents of graph/graph-store.ts: the nodes left to visit, as a bound on the recursion.
use mathlib.Core.List.Memᴰ
use evolve_loop.Base.{
  ℕ, zero, suc, ◌≤◌, ◌<◌, String, ◌≡◌, refl, inl, inr, false, Option, some, List, [], ◌∷◌, Memᴰ,
  arith, contains, length, if◌then◌else◌, Bool-cases, string_eq,
}
use evolve_loop.Types.{GraphNode}
use evolve_loop.Graph.Walk.{Walk, push, is_new, visit_each, visit}
use evolve_loop.Graph.Walk.Contract.{
  Visited, Contract, Visited-push, Visited-push_self, visit-Contract,
}

module _ (nodes : List GraphNode) where
  -- The nodes that a walk has not visited.
  abbrev pub unvisited : List GraphNode → Walk → ℕ
  unvisited [] w = 0
  unvisited (n ∷ ns) w =
      let rest = unvisited ns w in if contains w.visited n.id then rest else suc rest

  unvisited_mono :
      (ns : List GraphNode) (w v : Walk)
      → ((x : String) → Visited nodes w x → Visited nodes v x)
      → unvisited ns v ≤ unvisited ns w
  unvisited_mono [] w v h = omega arith
  unvisited_mono (n ∷ ns) w v h = ground (arith, h n.id, unvisited_mono ns w v h)

  unvisited-push :
      (ns : List GraphNode) (n : GraphNode) (w : Walk)
      → Memᴰ n ns
      → contains w.visited n.id ≡ false
      → unvisited ns (push n w) < unvisited ns w
  unvisited-push [] n w m h = absurd (Memᴰ.not-nil m)
  unvisited-push (k ∷ ns) n w (Memᴰ.head e) h = ground (
    arith,
    Visited-push_self nodes n w,
    unvisited_mono ns w (push n w) (λ x p. Visited-push nodes n w x p),
  )
  unvisited-push (k ∷ ns) n w (Memᴰ.tail m) h =
      ground (arith, Visited-push nodes n w k.id, unvisited-push ns n w m h)

  pub unvisited-le-length : (ns : List GraphNode) (w : Walk) → unvisited ns w ≤ length ns
  unvisited-le-length [] w = omega arith
  unvisited-le-length (n ∷ ns) w = ground (arith, unvisited-le-length ns w)

  visit_each_total :
      (go : String → Walk → Option Walk)
      → Contract nodes go
      → (bound : ℕ)
      → ((id : String) (w : Walk) → unvisited nodes w < bound → (v : Walk) × (go id w ≡ some v))
      → (id : String) (ns : List GraphNode) → ((n : GraphNode) → Memᴰ n ns → Memᴰ n nodes)
      → (w : Walk) → unvisited nodes w ≤ bound
      → (v : Walk) × (visit_each go id ns w ≡ some v)
  unfolding visit_each
  visit_each_total go spec bound ends id [] sub w h = (w, refl)
  visit_each_total go spec bound ends id (n ∷ ns) sub w h = elim (Bool-cases (is_new id w n)) [
    | inr old ↦
        let (v, e) = visit_each_total go spec bound ends id ns (λ k m. sub k (Memᴰ.tail m)) w h in
        (v, rw old e)
    | inl new ↦
        let less = unvisited-push nodes n w (sub n (Memᴰ.head refl)) (ground arith) in
        let (u, e) = ends n.id (push n w) (omega arith) in
        let grows = λ (x : String) (p : Visited nodes w x).
          (spec n.id (push n w) u e).0.extends x (Visited-push nodes n w x p) in
        let (v, e') =
          visit_each_total go spec bound ends id ns (λ k m. sub k (Memᴰ.tail m)) u
            (omega (arith, unvisited_mono nodes w u grows)) in
        (v, rw (new, e) e')
  ]

  pub visit_total :
      (fuel : ℕ) (id : String) (w : Walk)
      → unvisited nodes w < fuel
      → (v : Walk) × (visit fuel nodes id w ≡ some v)
  unfolding visit
  visit_total zero id w h = elim h [ ]
  visit_total (suc fuel) id w h =
      visit_each_total (visit fuel nodes) (visit-Contract nodes fuel) fuel (visit_total fuel) id
        nodes (λ n m. m) w (omega arith)
