-- ===== src/Graph/Walk/Downstream.antt =====
-- transitiveDependents of graph/graph-store.ts: which nodes it finds, and that it returns.
use mathlib.Core.List.Memᴰ
use mathlib.Core.List.{map-append}
use evolve_loop.Base.{
  Distinct, Distinct-snoc, ℕ, zero, suc, String, ◌≡◌, refl, subst, ap, Dict, values, ◌⊎◌, inl, inr,
  ◌↔◌, true, false, Option, some, List, [], ◌∷◌, ◌++◌, map, Memᴰ, arith, contains, length,
  Bool-cases, string_eq,
}
use evolve_loop.Types.{GraphNode}
use evolve_loop.Graph.Store.{GraphStore, get_all_nodes}
use evolve_loop.Graph.Walk.{
  transitive_dependents, walk_fuel, Walk, start, push, is_new, visit_each, visit,
}
use evolve_loop.Graph.Walk.Contract.{
  Downstream, direct, through, Visited, Closed, visit-Contract, >>=-eq-some,
}
use evolve_loop.Graph.Walk.Ends.{visit_total, unvisited-le-length}

module _ (nodes : List GraphNode) where
  Closed-Downstream :
      (root : String) (v : Walk)
      → Closed nodes nodes root v
      → ((x : String) → Visited nodes v x → Closed nodes nodes x v)
      → (x : String) → Downstream nodes root x
      → Visited nodes v x
  Closed-Downstream root v own all_closed x (direct n m d) = own n m d
  Closed-Downstream root v own all_closed x (through n {x = y} p m d) =
      all_closed y (Closed-Downstream root v own all_closed y p) n m d

  -- What `push` keeps at a new node, the whole walk keeps.
  step_ind :
      (P : Walk → Type 0)
      → ((n : GraphNode) (w : Walk)
          → Memᴰ n nodes
          → contains w.visited n.id ≡ false
          → P w
          → P (push n w))
      → (go : String → Walk → Option Walk)
      → ((id : String) (w v : Walk) → go id w ≡ some v → P w → P v)
      → (id : String) (n : GraphNode) (w u : Walk) → Memᴰ n nodes
      → elim (is_new id w n) [ true ↦ go n.id (push n w) | false ↦ some w ] ≡ some u
      → P w
      → P u
  step_ind P keep go goes id n w u m h p = elim (Bool-cases (is_new id w n)) [
    | inl new ↦ goes n.id (push n w) u (rw new at h) (keep n w m (ground arith) p)
    | inr old ↦ let h' = rw old at h in let e : w ≡ u = cc in subst P e p
  ]

  visit_each_ind :
      (P : Walk → Type 0)
      → ((n : GraphNode) (w : Walk)
          → Memᴰ n nodes
          → contains w.visited n.id ≡ false
          → P w
          → P (push n w))
      → (go : String → Walk → Option Walk)
      → ((id : String) (w v : Walk) → go id w ≡ some v → P w → P v)
      → (id : String) (ns : List GraphNode) → ((n : GraphNode) → Memᴰ n ns → Memᴰ n nodes)
      → (w v : Walk) → visit_each go id ns w ≡ some v
      → P w
      → P v
  unfolding visit_each
  visit_each_ind P keep go goes id [] sub w v h p = let e : w ≡ v = cc in subst P e p
  visit_each_ind P keep go goes id (n ∷ ns) sub w v h p =
      let (u, first, rest) = >>=-eq-some nodes _ _ h in
      visit_each_ind P keep go goes id ns (λ k m. sub k (Memᴰ.tail m)) u v rest
        (step_ind P keep go goes id n w u (sub n (Memᴰ.head refl)) first p)

  visit_ind :
      (P : Walk → Type 0)
      → ((n : GraphNode) (w : Walk)
          → Memᴰ n nodes
          → contains w.visited n.id ≡ false
          → P w
          → P (push n w))
      → (fuel : ℕ) (id : String) (w v : Walk) → visit fuel nodes id w ≡ some v
      → P w
      → P v
  unfolding visit
  visit_ind P keep zero id w v h p = cc
  visit_ind P keep (suc fuel) id w v h p =
      visit_each_ind P keep (visit fuel nodes) (visit_ind P keep fuel) id nodes (λ n m. m) w v h p

abbrev pub ids : List GraphNode → List String
ids ns = map (λ n. n.id) ns

-- What holds of the two fields of a walk at any time.
record Tracks (nodes : List GraphNode) (w : Walk) : Type 0 where
  same : ids w.result ≡ w.visited
  distinct : Distinct w.visited
  known : (n : GraphNode) → Memᴰ n w.result → Memᴰ n nodes

push-Tracks :
    (nodes : List GraphNode) (n : GraphNode) (w : Walk)
    → Memᴰ n nodes
    → contains w.visited n.id ≡ false
    → Tracks nodes w
    → Tracks nodes (push n w)
push-Tracks nodes n w m new t = record {
  same = rw (map-append, t.same);
  distinct = Distinct-snoc w.visited n.id t.distinct new;
  known = λ k h. known_snoc w.result t.known k h;
}
  where
    known_snoc :
        (ns : List GraphNode)
        → ((k : GraphNode) → Memᴰ k ns → Memᴰ k nodes)
        → (k : GraphNode) → Memᴰ k (ns ++ n ∷ [])
        → Memᴰ k nodes
    known_snoc [] sub k (Memᴰ.head e) = rw e m
    known_snoc [] sub k (Memᴰ.tail h) = absurd (Memᴰ.not-nil h)
    known_snoc (y ∷ ys) sub k (Memᴰ.head e) = sub k (Memᴰ.head e)
    known_snoc (y ∷ ys) sub k (Memᴰ.tail h) = known_snoc ys (λ j q. sub j (Memᴰ.tail q)) k h

-- `transitiveDependents` at `root` returned `result`.
pub record Dependents (g : GraphStore) (root : String) (result : List GraphNode) : Type 0 where
  pub exact : (x : String) → (contains (ids result) x ≡ true) ↔ Downstream (get_all_nodes g) root x
  pub distinct : Distinct (ids result)
  pub known : (n : GraphNode) → Memᴰ n result → Memᴰ n (get_all_nodes g)

length-values : (m : Dict GraphNode) → length (values m) ≡ length m
length-values [] = refl
length-values (e ∷ m) = ap suc (length-values m)

-- transitiveDependents always ends with a list of nodes of the store, in which an id stands if and
-- only if it is the id of a node that depends on the root directly or through other nodes, and no
-- id stands twice; the graph may have cycles.
pub transitive_dependents_exact :
    (g : GraphStore) (root : String)
    → (result : List GraphNode) × (transitive_dependents g root ≡ some result)
      × Dependents g root result
unfolding transitive_dependents get_all_nodes
transitive_dependents_exact g root =
    let nodes = values g.nodes in
    let (v, e) =
      visit_total nodes (walk_fuel g) root start
        (omega (arith, unvisited-le-length nodes nodes start, length-values g.nodes)) in
    let (p, own) = visit-Contract nodes (walk_fuel g) root start v e in
    let t =
      visit_ind nodes (Tracks nodes) (push-Tracks nodes) (walk_fuel g) root start v e
        (record { same = refl; distinct = tt; known = λ n m. absurd (Memᴰ.not-nil m) }) in
    let closed = λ (x : String) (h : contains v.visited x ≡ true). or_new x v (p.closed x h) in
    (
      v.result,
      rw (e, transitive_dependents),
      record {
        exact = λ x. (
          λ h. downstream x v (p.sound x (rw t.same at h)),
          λ d. rw t.same (Closed-Downstream nodes root v own closed x d),
        );
        distinct = rw t.same t.distinct;
        known = t.known;
      },
    )
  where
    downstream :
        (x : String) (v : Walk)
        → (contains {A = String} [] x ≡ true) ⊎ Downstream (values g.nodes) root x
        → Downstream (values g.nodes) root x
    downstream x v (inl old) = cc
    downstream x v (inr d) = d

    or_new :
        (x : String) (v : Walk)
        → (contains {A = String} [] x ≡ true) ⊎ Closed (values g.nodes) (values g.nodes) x v
        → Closed (values g.nodes) (values g.nodes) x v
    or_new x v (inl old) = cc
    or_new x v (inr c) = c
