-- ===== src/Graph/Walk/Contract.antt =====
-- What one call of `visit` does to the walk, transitiveDependents of graph/graph-store.ts.
use mathlib.Core.List.Memᴰ
use evolve_loop.Base.{
  ℕ, zero, suc, String, ◌≡◌, refl, subst, ◌⊎◌, inl, inr, true, false, Option, none, some, List, [],
  ◌∷◌, Memᴰ, arith, contains, contains-snoc, Bool-cases, string_eq,
}
use evolve_loop.Types.{GraphNode}
use evolve_loop.Graph.Walk.{Walk, push, is_new, ◌>>=◌, visit_each, visit}

module _ (nodes : List GraphNode) where
  -- The ids of the nodes that depend on `root`, directly or through other nodes.
  pub data Downstream (root : String) : String → Type 0 where
    direct :
        (n : GraphNode) → Memᴰ n nodes → contains n.dependencies root ≡ true → Downstream root n.id
    through :
        (n : GraphNode) {x : String}
        → Downstream root x
        → Memᴰ n nodes
        → contains n.dependencies x ≡ true
        → Downstream root n.id

  abbrev pub Visited : Walk → String → Type 0
  Visited w x = contains w.visited x ≡ true

  -- Every node of `ns` that depends on `x` is visited.
  abbrev pub Closed : List GraphNode → String → Walk → Type 0
  Closed ns x w = (n : GraphNode) → Memᴰ n ns → contains n.dependencies x ≡ true → Visited w n.id

  Downstream-trans : {a b c : String} → Downstream a b → Downstream b c → Downstream a c
  Downstream-trans p (direct n m d) = through n p m d
  Downstream-trans p (through n q m d) = through n (Downstream-trans p q) m d

  -- What a call of `visit` at `id` does to the walk.
  pub record Visits (id : String) (w v : Walk) : Type 0 where
    pub extends : (x : String) → Visited w x → Visited v x
    pub sound : (x : String) → Visited v x → Visited w x ⊎ Downstream id x
    pub closed : (x : String) → Visited v x → Visited w x ⊎ Closed nodes x v

  abbrev pub Contract : (String → Walk → Option Walk) → Type 0
  Contract go = (id : String) (w v : Walk) → go id w ≡ some v → Visits id w v × Closed nodes id v

  pub Visits-refl : (id : String) (w : Walk) → Visits id w w
  Visits-refl id w = record { extends = λ x h. h; sound = λ x h. inl h; closed = λ x h. inl h }

  Visits-trans : {id : String} {u w v : Walk} → Visits id u w → Visits id w v → Visits id u v
  Visits-trans {id} {u} {w} {v} p q = record {
    extends = λ x h. q.extends x (p.extends x h);
    sound = λ x h. elim (q.sound x h) [ inl old ↦ p.sound x old | inr d ↦ inr d ];
    closed = λ x h. elim (q.closed x h) [
      | inr c ↦ inr c
      | inl old ↦ elim (p.closed x old) [
        | inl older ↦ inl older
        | inr c ↦ inr (λ n m d. q.extends n.id (c n m d))
      ]
    ];
  }

  pub push-Visited :
      (n : GraphNode) (w : Walk) (x : String) → Visited (push n w) x → Visited w x ⊎ (x ≡ n.id)
  push-Visited n w x h = ground (arith, contains-snoc w.visited n.id x)

  pub Visited-push : (n : GraphNode) (w : Walk) (x : String) → Visited w x → Visited (push n w) x
  Visited-push n w x h = ground (arith, contains-snoc w.visited n.id x)

  pub Visited-push_self : (n : GraphNode) (w : Walk) → Visited (push n w) n.id
  Visited-push_self n w = ground (arith, contains-snoc w.visited n.id n.id)

  -- Going into a node that depends on `id` is a visit on behalf of `id`.
  enter-Visits :
      (id : String) (n : GraphNode) (w v : Walk)
      → Memᴰ n nodes
      → contains n.dependencies id ≡ true
      → Visits n.id (push n w) v
      → Closed nodes n.id v
      → Visits id w v
  enter-Visits id n w v m d p own = record {
    extends = λ x h. p.extends x (Visited-push n w x h);
    sound = λ x h. elim (p.sound x h) [
      | inr below ↦ inr (Downstream-trans (direct n m d) below)
      | inl old ↦ elim (push-Visited n w x old) [
        | inl older ↦ inl older
        | inr e ↦ inr (rw e (direct n m d))
      ]
    ];
    closed = λ x h. elim (p.closed x h) [
      | inr c ↦ inr c
      | inl old ↦ elim (push-Visited n w x old) [ inl older ↦ inl older | inr e ↦ inr (rw e own) ]
    ];
  }

  pub >>=-eq-some :
      (m : Option Walk) (f : Walk → Option Walk) {v : Walk}
      → (m >>= f) ≡ some v
      → (u : Walk) × (m ≡ some u) × (f u ≡ some v)
  >>=-eq-some none f h = cc
  >>=-eq-some (some u) f h = (u, refl, h)

  Closed-cons :
      (n : GraphNode) (ns : List GraphNode) (x : String) (w : Walk)
      → (contains n.dependencies x ≡ true → Visited w n.id)
      → Closed ns x w
      → Closed (n ∷ ns) x w
  Closed-cons n ns x w here rest k (Memᴰ.head e) d = rw e (here (rw e at d))
  Closed-cons n ns x w here rest k (Memᴰ.tail m) d = rest k m d

  -- The step of the loop: into a new node, or past it.
  enter_or_pass :
      (go : String → Walk → Option Walk)
      → Contract go
      → (id : String) (n : GraphNode) (w u : Walk) → Memᴰ n nodes
      → elim (is_new id w n) [ true ↦ go n.id (push n w) | false ↦ some w ] ≡ some u
      → Visits id w u × (contains n.dependencies id ≡ true → Visited u n.id)
  enter_or_pass go spec id n w u m h = elim (Bool-cases (is_new id w n)) [
    | inl new ↦
        let (p, own) = spec n.id (push n w) u (rw new at h) in
        (enter-Visits id n w u m (ground arith) p own, λ d. p.extends n.id (Visited-push_self n w))
    | inr old ↦
        let e : w ≡ u = let h' = rw old at h in cc in
        (
          subst (Visits id w) e (Visits-refl id w),
          λ d. subst (λ t. Visited t n.id) e (ground arith),
        )
  ]

  pub visit_each-Visits :
      (go : String → Walk → Option Walk)
      → Contract go
      → (id : String) (ns : List GraphNode) → ((n : GraphNode) → Memᴰ n ns → Memᴰ n nodes)
      → (w v : Walk) → visit_each go id ns w ≡ some v
      → Visits id w v × Closed ns id v
  unfolding visit_each
  visit_each-Visits go spec id [] sub w v h =
      let e : w ≡ v = cc in
      (subst (Visits id w) e (Visits-refl id w), λ n m d. absurd (Memᴰ.not-nil m))
  visit_each-Visits go spec id (n ∷ ns) sub w v h =
      let (u, first, rest) = >>=-eq-some _ _ h in
      let (p, here) = enter_or_pass go spec id n w u (sub n (Memᴰ.head refl)) first in
      let (q, there) = visit_each-Visits go spec id ns (λ k m. sub k (Memᴰ.tail m)) u v rest in
      (Visits-trans p q, Closed-cons n ns id v (λ d. q.extends n.id (here d)) there)

  pub visit-Contract : (fuel : ℕ) → Contract (visit fuel nodes)
  unfolding visit
  visit-Contract zero id w v h = cc
  visit-Contract (suc fuel) id w v h =
      visit_each-Visits (visit fuel nodes) (visit-Contract fuel) id nodes (λ n m. m) w v h
