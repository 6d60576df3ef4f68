-- ===== src/Samples/Between.antt =====
-- The sample graph before its first run.
use evolve_loop.Base.{
  none, String, ◌≡◌, refl, subst, inl, inr, true, some, [], ◌∷◌, Memᴰ, Dict, lookup, keys, contains,
  All, arith, string_eq, string_cases,
}
use evolve_loop.Types.{GraphNode, pending, node_status_eq}
use evolve_loop.Graph.Store.{get_node, new_store}
use evolve_loop.Scheduler.Progress.{IsBetweenRuns}
use evolve_loop.Ir.Validate.{validate_ir}
use evolve_loop.Samples.{pipeline, store}

lookup-All :
    (P : String → GraphNode → Type 0) (m : Dict GraphNode) (id : String) (k : GraphNode)
    → All (λ e. P e.0 e.1) m
    → lookup id m ≡ some k
    → P id k
lookup-All P [] id k all h = absurd (cc)
lookup-All P ((j, n) ∷ m) id k all h = elim (string_cases j id) [
  | inl same ↦
      subst (λ i. P i k) same (subst (P j) (found n k (let e = same in ground arith)) all.0)
  | inr other ↦ lookup-All P m id k all.1 (ground arith)
]
  where
    found : (n k : GraphNode) → some n ≡ some k → n ≡ k
    found n k e = cc

lookup_known :
    (m : Dict GraphNode) (id : String)
    → contains (keys m) id ≡ true
    → (k : GraphNode) × (lookup id m ≡ some k)
lookup_known [] id h = absurd (cc)
lookup_known ((j, n) ∷ m) id h = elim (string_cases j id) [
  | inl same ↦ (n, ground arith)
  | inr other ↦ let (k, e) = lookup_known m id (ground arith) in (k, ground arith)
]

abbrev Fresh : String → GraphNode → Type 0
Fresh id n = Memᴰ n.ir pipeline.nodes × (n.id ≡ id) × (n.status ≡ pending)

store-Fresh : All (λ e. Fresh e.0 e.1) store.nodes
unfolding new_store string_eq
store-Fresh = (
  (Memᴰ.head refl, refl, refl),
  (
    (Memᴰ.tail (Memᴰ.head refl), refl, refl),
    ((Memᴰ.tail (Memᴰ.tail (Memᴰ.head refl)), refl, refl), tt),
  ),
)

same_keys :
    (id : String)
    → contains ("build" ∷ "test" ∷ "ship" ∷ []) id ≡ true
    → contains (keys store.nodes) id ≡ true
unfolding new_store string_eq
same_keys id h = h

pub pipeline-IsBetweenRuns : IsBetweenRuns pipeline store
unfolding get_node
pipeline-IsBetweenRuns = record {
  from_ir = λ id k h. let (m, e, p) = lookup-All Fresh store.nodes id k store-Fresh h in (m, e);
  total = λ id h. lookup_known store.nodes id (same_keys id h);
  settled = λ id k h. let (m, e, p) = lookup-All Fresh store.nodes id k store-Fresh h in inl p;
}

pub pipeline_valid : validate_ir pipeline none ≡ []
unfolding validate_ir string_eq
pipeline_valid = refl
