-- ===== src/Engine/Steps.antt =====
-- engine/execution-engine.ts: one call of the store after another, when the node is there.
use mathlib.Core.List.Memᴰ
use evolve_loop.Base.{
  String, ◌≡◌, refl, sym, ap, ◌∙◌, subst, ◌≢◌, true, Bool-cases, contains, Dict, values, Memᴰ, [],
  ◌∷◌, Option, some, lookup, arith, ◌==◌, string_eq, string_cases, inl, inr,
}
use evolve_loop.Types.{GraphNode}
use evolve_loop.Graph.Store.{GraphStore, with_node, adjust, lookup-adjust}
use evolve_loop.Graph.Walk.Contract.{Downstream, direct, through}
use evolve_loop.Graph.Valid.{IsValid, adjusted, with_node-some, lookup-adjusted, adjusted-IsValid}
use evolve_loop.Engine.State.{EngineState, ◌>>=◌, on_graph}

-- The code returns, and the state it returns satisfies `P`.
abbrev pub Gives : Option EngineState → (EngineState → Type 0) → Type 0
Gives o P = (e : EngineState) × (o ≡ some e) × P e

pub gives_then :
    {P Q : EngineState → Type 0} (o : Option EngineState) (k : EngineState → Option EngineState)
    → Gives o P
    → ((e : EngineState) → P e → Gives (k e) Q)
    → Gives (o >>= k) Q
gives_then o k (e, returns, p) next =
    let (e', returns', q) = next e p in (e', rw (returns, ◌>>=◌) returns', q)

-- The declared part of each node of `h` is that of a node of `g`.
abbrev pub SameShape : GraphStore → GraphStore → Type 0
SameShape h g =
    (k : GraphNode)
    → Memᴰ k (values h.nodes)
    → (m : GraphNode) × Memᴰ m (values g.nodes) × (m.ir ≡ k.ir)

pub SameShape-refl : (g : GraphStore) → SameShape g g
SameShape-refl g k m = (k, m, refl)

adjust-shape :
    (id : String) (f : GraphNode → GraphNode) (m : Dict GraphNode) (k : GraphNode)
    → ((n : GraphNode) → (f n).ir ≡ n.ir)
    → Memᴰ k (values (adjust id f m))
    → (n : GraphNode) × Memᴰ n (values m) × (n.ir ≡ k.ir)
adjust-shape id f [] k same h = absurd (Memᴰ.not-nil h)
adjust-shape id f ((j, n) ∷ m) k same h = elim (Bool-cases (j == id)) [
  | inl hit ↦ at_hit (rw (hit, adjust) at h)
  | inr miss ↦ at_miss (adjust-shape id f m k same) (rw (miss, adjust) at h)
]
  where
    at_hit : Memᴰ k (f n ∷ values m) → (i : GraphNode) × Memᴰ i (n ∷ values m) × (i.ir ≡ k.ir)
    at_hit (Memᴰ.head e) = (n, Memᴰ.head refl, sym (same n) ∙ sym (ap (λ i. i.ir) e))
    at_hit (Memᴰ.tail t) = (k, Memᴰ.tail t, refl)

    at_miss :
        (Memᴰ k (values (adjust id f m)) → (i : GraphNode) × Memᴰ i (values m) × (i.ir ≡ k.ir))
        → Memᴰ k (n ∷ values (adjust id f m))
        → (i : GraphNode) × Memᴰ i (n ∷ values m) × (i.ir ≡ k.ir)
    at_miss rest (Memᴰ.head e) = (n, Memᴰ.head refl, sym (ap (λ i. i.ir) e))
    at_miss rest (Memᴰ.tail t) = let (i, mem, same_ir) = rest t in (i, Memᴰ.tail mem, same_ir)

-- What is downstream in the changed store was so before.
pub Downstream-shape :
    (g h : GraphStore) (root x : String)
    → SameShape h g
    → Downstream (values h.nodes) root x
    → Downstream (values g.nodes) root x
Downstream-shape g h root x shape (direct n m d) =
    let (k, mem, same) = shape n m in
    subst (Downstream (values g.nodes) root) (ap (λ i. i.id) same)
      (direct k mem (subst (λ i. contains i.dependencies root ≡ true) (sym same) d))
Downstream-shape g h root x shape (through n {x = y} below m d) =
    let (k, mem, same) = shape n m in
    subst (Downstream (values g.nodes) root) (ap (λ i. i.id) same) (
      through k (Downstream-shape g h root y shape below) mem
        (subst (λ i. contains i.dependencies y ≡ true) (sym same) d))

-- In the state, the node at `id` is `n`, the store is valid, and the nodes at all other ids are those
-- of `g`; nothing is blocked but for `reason`.
pub record Landed (id : String) (g : GraphStore) (reason : Option String) (n : GraphNode)
    (e : EngineState) : Type 0 where
  pub at : lookup id e.graph.nodes ≡ some n
  pub others : (j : String) → id ≢ j → lookup j e.graph.nodes ≡ lookup j g.nodes
  pub shape : SameShape e.graph g
  pub valid : IsValid e.graph
  pub blocked : e.blocked_reason ≡ reason

module _ (id : String) (g : GraphStore) (reason : Option String) (n : GraphNode)
    (e : EngineState) where
  pub gives_change :
      (f : GraphNode → GraphNode)
      → ((k : GraphNode) → (f k).ir ≡ k.ir)
      → Landed id g reason n e
      → Gives (on_graph (with_node id f) e) (Landed id g reason (f n))
  gives_change f same l = (
    record e { graph = adjusted id f e.graph },
    rw (with_node-some id f e.graph n l.at, on_graph) refl,
    record {
      at = lookup-adjusted id f e.graph n l.at;
      others = λ j other. others_kept j other (l.others j other);
      shape = λ k m. shaped k (adjust-shape id f e.graph.nodes k same m);
      valid = adjusted-IsValid id f e.graph (λ k. ap (λ i. i.id) (same k)) l.valid;
      blocked = l.blocked;
    },
  )
    where
      shaped :
          (k : GraphNode)
          → (i : GraphNode) × Memᴰ i (values e.graph.nodes) × (i.ir ≡ k.ir)
          → (i : GraphNode) × Memᴰ i (values g.nodes) × (i.ir ≡ k.ir)
      shaped k (i, mem, same_ir) = let (j, mem', q) = l.shape i mem in (j, mem', q ∙ same_ir)

      others_kept :
          (j : String)
          → id ≢ j
          → lookup j e.graph.nodes ≡ lookup j g.nodes
          → lookup j (adjusted id f e.graph).nodes ≡ lookup j g.nodes
      others_kept j other kept =
          ground (arith, lookup-adjust id j f e.graph.nodes, string_cases id j)

  -- A change of the state that leaves the store alone.
  pub Landed-same_graph :
      (reason' : Option String) (e' : EngineState)
      → e'.graph ≡ e.graph
      → e'.blocked_reason ≡ reason'
      → Landed id g reason n e
      → Landed id g reason' n e'
  Landed-same_graph reason' e' same blocked l = record {
    at = ap (λ h. lookup id h.nodes) same ∙ l.at;
    others = λ j other. ap (λ h. lookup j h.nodes) same ∙ l.others j other;
    shape = subst (λ h. SameShape h g) (sym same) l.shape;
    valid = subst IsValid (sym same) l.valid;
    blocked = blocked;
  }
