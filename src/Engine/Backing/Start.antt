-- ===== src/Engine/Backing/Start.antt =====
-- graph/graph-store.ts: the stores with which a run may start, a new one and that of a checkpoint.
use evolve_loop.Base.{
  String, ◌≡◌, refl, sym, ◌∙◌, subst, Bool-cases, inl, inr, some, some_injective, none-not-some,
  List, [], ◌∷◌, map, Memᴰ, ◌==◌, Dict, lookup, insert, lookup-insert, arith, string_eq,
}
use evolve_loop.Types.{CapabilityIr, GraphNode, GraphSnapshot, ExecutionPolicy, node_status_eq}
use evolve_loop.Graph.Store.{initial_node, from_entries, new_store, from_snapshot}
use evolve_loop.Graph.Valid.{new_store-IsValid, from_snapshot-IsValid}
use evolve_loop.Engine.Backing.{Earned, IsBacked, Earned-open}

-- What holds of each node of a dictionary.
abbrev EachNode : (GraphNode → Type 0) → Dict GraphNode → Type 0
EachNode P m = (j : String) (n : GraphNode) → lookup j m ≡ some n → P n

module _ (P : GraphNode → Type 0) where
  EachNode-insert :
      (k : String) (n : GraphNode) (m : Dict GraphNode)
      → P n
      → EachNode P m
      → EachNode P (insert k n m)
  EachNode-insert k n m p each j i h =
      let e = lookup-insert k j n m in
      elim (Bool-cases (k == j)) [
        | inl same ↦ subst P (some_injective (sym (rw same at e) ∙ h)) p
        | inr other ↦ each j i (sym (rw other at e) ∙ h)
      ]

  EachNode-from_entries :
      {A : Type 0} (entry : A → GraphNode) (xs : List A) (m : Dict GraphNode)
      → ((x : A) → Memᴰ x xs → P (entry x))
      → EachNode P m
      → EachNode P (from_entries m (map {B = String × GraphNode} (λ x. ((entry x).id, entry x)) xs))
  EachNode-from_entries entry [] m all each = each
  EachNode-from_entries entry (x ∷ xs) m all each =
      EachNode-from_entries entry xs (insert (entry x).id (entry x) m)
        (λ y mem. all y (Memᴰ.tail mem))
        (EachNode-insert (entry x).id (entry x) m (all x (Memᴰ.head refl)) each)

no_nodes : (P : GraphNode → Type 0) → EachNode P []
no_nodes P j n h = absurd (none-not-some h)

module _ (policy : ExecutionPolicy) where
  -- Nothing is satisfied or skipped in a new store.
  pub new_store-IsBacked : (ir : CapabilityIr) → IsBacked policy (new_store ir)
  unfolding new_store node_status_eq
  new_store-IsBacked ir = record {
    valid = new_store-IsValid ir;
    earned =
        EachNode-from_entries (Earned policy) initial_node ir.nodes []
          (λ n mem. Earned-open policy (initial_node n) (λ p. ground arith) (λ p. ground arith))
          (no_nodes (Earned policy));
  }

  -- The store of a checkpoint whose nodes have earned their status.
  pub from_snapshot-IsBacked :
      (s : GraphSnapshot)
      → ((n : GraphNode) → Memᴰ n s.nodes → Earned policy n)
      → IsBacked policy (from_snapshot s)
  unfolding from_snapshot
  from_snapshot-IsBacked s all = record {
    valid = from_snapshot-IsValid s;
    earned =
        EachNode-from_entries (Earned policy) (λ n. n) s.nodes [] all (no_nodes (Earned policy));
  }
