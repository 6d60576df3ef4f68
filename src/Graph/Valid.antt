-- ===== src/Graph/Valid.antt =====
-- graph/graph-store.ts: what holds of every store that the program builds, and a checkpoint's round trip.
use evolve_loop.Base.{
  String, ◌≡◌, refl, sym, ap, ◌∙◌, subst, Option-cases, inl, inr, none, some, List, [], ◌∷◌, ◌++◌,
  map, Dict, lookup, insert, lookup-insert, values, arith, string_eq, string_cases,
}
use evolve_loop.Types.{IrNode, CapabilityIr, GraphNode, GraphSnapshot}
use evolve_loop.Graph.Store.{
  GraphStore, initial_node, from_entries, new_store, from_snapshot, snapshot, get_all_nodes, adjust,
  with_node, lookup-adjust,
}
use evolve_loop.Graph.Walk.Invalidate.{KeysMatch, KeysDistinct}

-- Every node stands under its own id, and no id stands twice.
pub record IsValid (g : GraphStore) : Type 0 where
  pub keyed : KeysMatch g.nodes
  pub distinct : KeysDistinct g.nodes

-- A change of the node at `id`, where there is one.
abbrev pub adjusted : String → (GraphNode → GraphNode) → GraphStore → GraphStore
adjusted id f g = record g { nodes = adjust id f g.nodes }

pub with_node-some :
    (id : String) (f : GraphNode → GraphNode) (g : GraphStore) (n : GraphNode)
    → lookup id g.nodes ≡ some n
    → with_node id f g ≡ some (adjusted id f g)
with_node-some id f g n h = rw (h, with_node) refl

pub lookup-adjusted :
    (id : String) (f : GraphNode → GraphNode) (g : GraphStore) (n : GraphNode)
    → lookup id g.nodes ≡ some n
    → lookup id (adjusted id f g).nodes ≡ some (f n)
lookup-adjusted id f g n h = ground (arith, lookup-adjust id id f g.nodes)

KeysMatch-adjust :
    (id : String) (f : GraphNode → GraphNode) (m : Dict GraphNode)
    → ((n : GraphNode) → (f n).id ≡ n.id)
    → KeysMatch m
    → KeysMatch (adjust id f m)
KeysMatch-adjust id f m same keyed j n h = elim (Option-cases (lookup j m)) [
  | inl absent ↦ absurd (ground (arith, lookup-adjust id j f m))
  | inr (k, e) ↦
      let here = keyed j k e in let kept = same k in ground (arith, lookup-adjust id j f m)
]

KeysDistinct-adjust :
    (id : String) (f : GraphNode → GraphNode) (m : Dict GraphNode)
    → KeysDistinct m
    → KeysDistinct (adjust id f m)
KeysDistinct-adjust id f [] d = d
KeysDistinct-adjust id f ((k, n) ∷ m) d =
    let absent = lookup-adjust id k f m in
    let rest = KeysDistinct-adjust id f m d.1 in ground (arith, d.0, d.1)

KeysMatch-insert : (n : GraphNode) (m : Dict GraphNode) → KeysMatch m → KeysMatch (insert n.id n m)
KeysMatch-insert n m keyed j k h =
    let old = keyed j k in ground (arith, lookup-insert n.id j n m, string_cases n.id j)

KeysDistinct-insert :
    (k : String) (n : GraphNode) (m : Dict GraphNode) → KeysDistinct m → KeysDistinct (insert k n m)
KeysDistinct-insert k n [] d = ground arith
KeysDistinct-insert k n ((j, w) ∷ m) d =
    let absent = lookup-insert k j n m in
    let rest = KeysDistinct-insert k n m d.1 in ground (arith, d.0, d.1)

from_entries-valid :
    (ns : List GraphNode) (m : Dict GraphNode)
    → KeysMatch m
    → KeysDistinct m
    → KeysMatch (from_entries m (map (λ n. (n.id, n)) ns))
      × KeysDistinct (from_entries m (map (λ n. (n.id, n)) ns))
from_entries-valid [] m k d = (k, d)
from_entries-valid (n ∷ ns) m k d =
    from_entries-valid ns (insert n.id n m) (KeysMatch-insert n m k)
      (KeysDistinct-insert n.id n m d)

map_initial :
    (ns : List IrNode)
    → map {B = String × GraphNode} (λ n. (n.id, initial_node n)) ns
      ≡ map {B = String × GraphNode} (λ n. (n.id, n)) (map initial_node ns)
map_initial [] = refl
map_initial (n ∷ ns) = ap (λ es. (n.id, initial_node n) ∷ es) (map_initial ns)

no_keys : KeysMatch []
no_keys id n h = absurd (cc)

-- Whatever graph the constructor is given, even one in which ids stand twice, each node of the store
-- stands under its own id and no id stands twice.
pub new_store-IsValid : (ir : CapabilityIr) → IsValid (new_store ir)
unfolding new_store
new_store-IsValid ir =
    let (k, d) = from_entries-valid (map initial_node ir.nodes) [] no_keys tt in
    let same = sym (map_initial ir.nodes) in
    record {
      keyed = subst (λ es. KeysMatch (from_entries [] es)) same k;
      distinct = subst (λ es. KeysDistinct (from_entries [] es)) same d;
    }

-- So is the store of any checkpoint.
pub from_snapshot-IsValid : (s : GraphSnapshot) → IsValid (from_snapshot s)
unfolding from_snapshot
from_snapshot-IsValid s =
    let (k, d) = from_entries-valid s.nodes [] no_keys tt in record { keyed = k; distinct = d }

pub adjusted-IsValid :
    (id : String) (f : GraphNode → GraphNode) (g : GraphStore)
    → ((n : GraphNode) → (f n).id ≡ n.id)
    → IsValid g
    → IsValid (adjusted id f g)
adjusted-IsValid id f g same v = record {
  keyed = KeysMatch-adjust id f g.nodes same v.keyed;
  distinct = KeysDistinct-adjust id f g.nodes v.distinct;
}

insert-append :
    (k : String) (n : GraphNode) (m : Dict GraphNode)
    → lookup k m ≡ none
    → insert k n m ≡ m ++ (k, n) ∷ []
insert-append k n [] h = refl
insert-append k n ((j, w) ∷ m) h = ground (arith, insert-append k n m)

append_nil : (m : Dict GraphNode) → m ++ [] ≡ m
append_nil [] = refl
append_nil (x ∷ m) = ap (λ l. x ∷ l) (append_nil m)

append_assoc : (xs ys zs : Dict GraphNode) → (xs ++ ys) ++ zs ≡ xs ++ (ys ++ zs)
append_assoc [] ys zs = refl
append_assoc (x ∷ xs) ys zs = ap (λ l. x ∷ l) (append_assoc xs ys zs)

lookup-middle :
    (m rest : Dict GraphNode) (k : String) (n : GraphNode)
    → KeysDistinct (m ++ (k, n) ∷ rest)
    → (lookup k m ≡ none) × (lookup k (m ++ (k, n) ∷ rest) ≡ some n)
lookup-middle [] rest k n d = ground arith
lookup-middle ((j, w) ∷ m) rest k n d =
    let (absent, found) = lookup-middle m rest k n d.1 in
    let first = d.0 in
    elim (string_cases j k) [ inl same ↦ absurd (ground arith) | inr other ↦ ground arith ]

-- Entries that are set one by one under distinct keys stand in their order.
from_entries-append : (es m : Dict GraphNode) → KeysDistinct (m ++ es) → from_entries m es ≡ m ++ es
from_entries-append [] m d = sym (append_nil m)
from_entries-append ((k, n) ∷ es) m d =
    let (absent, found) = lookup-middle m es k n d in
    let shift = append_assoc m ((k, n) ∷ []) es in
    ap (λ l. from_entries l es) (insert-append k n m absent)
    ∙ from_entries-append es (m ++ (k, n) ∷ []) (subst KeysDistinct (sym shift) d)
    ∙ shift

entries-of_values :
    (m : Dict GraphNode) → KeysMatch m → KeysDistinct m → map (λ n. (n.id, n)) (values m) ≡ m
entries-of_values [] k d = refl
entries-of_values ((j, n) ∷ m) k d =
    let first = k j n (ground arith) in
    let rest = entries-of_values m (later j n m k d) d.1 in rw (first, rest) refl
  where
    later :
        (j : String) (n : GraphNode) (m : Dict GraphNode)
        → KeysMatch ((j, n) ∷ m)
        → KeysDistinct ((j, n) ∷ m)
        → KeysMatch m
    later j n m k d i x h =
        let all_keys = k i x in
        let first = d.0 in
        elim (string_cases j i) [
          | inl same ↦ absurd (ground arith)
          | inr other ↦ all_keys (ground arith)
        ]

-- A checkpoint loses nothing: restoring the snapshot of a store in which each id stands once, for its
-- own node, gives the store back, with its nodes in their order.
pub from_snapshot-snapshot : (g : GraphStore) → IsValid g → from_snapshot (snapshot g) ≡ g
unfolding from_snapshot snapshot get_all_nodes
from_snapshot-snapshot g v =
    let entries = entries-of_values g.nodes v.keyed v.distinct in
    ap (λ m. record g { nodes = m })
      (ap (from_entries []) entries ∙ from_entries-append g.nodes [] v.distinct)
