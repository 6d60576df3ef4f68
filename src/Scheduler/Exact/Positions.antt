-- ===== src/Scheduler/Exact/Positions.antt =====
-- Where a node stands among the nodes of a graph, for the loop of readyNodes of scheduler/scheduler.ts.
use mathlib.Core.List.Memᴰ
use evolve_loop.Base.{
  Distinct, String, ◌≡◌, refl, sym, ap, ◌⊎◌, inl, inr, Bool, true, Bool-cases, List, [], ◌∷◌, ◌++◌,
  ◌==◌, arith, contains, all, Memᴰ, string_eq,
}
use evolve_loop.Types.{GraphNode, node_status_eq}
use evolve_loop.Graph.Walk.Downstream.{ids}

pub Mem-split :
    (xs : List GraphNode) (k m : GraphNode) (ys : List GraphNode)
    → Memᴰ k (xs ++ m ∷ ys)
    → Memᴰ k xs ⊎ Memᴰ k (m ∷ ys)
Mem-split [] k m ys h = inr h
Mem-split (x ∷ xs) k m ys (Memᴰ.head e) = inl (Memᴰ.head e)
Mem-split (x ∷ xs) k m ys (Memᴰ.tail t) = elim (Mem-split xs k m ys t) [
  | inl l ↦ inl (Memᴰ.tail l)
  | inr r ↦ inr r
]

pub Mem-left : (xs ys : List GraphNode) (k : GraphNode) → Memᴰ k xs → Memᴰ k (xs ++ ys)
Mem-left [] ys k h = absurd (Memᴰ.not-nil h)
Mem-left (x ∷ xs) ys k (Memᴰ.head e) = Memᴰ.head e
Mem-left (x ∷ xs) ys k (Memᴰ.tail t) = Memᴰ.tail (Mem-left xs ys k t)

pub Mem-middle : (xs : List GraphNode) (m : GraphNode) (ys : List GraphNode) → Memᴰ m (xs ++ m ∷ ys)
Mem-middle [] m ys = Memᴰ.head refl
Mem-middle (x ∷ xs) m ys = Memᴰ.tail (Mem-middle xs m ys)

pub suffix-Distinct : (xs ys : List GraphNode) → Distinct (ids (xs ++ ys)) → Distinct (ids ys)
suffix-Distinct [] ys d = d
suffix-Distinct (x ∷ xs) ys d = suffix-Distinct xs ys d.1

pub Mem-position :
    (xs : List GraphNode) (k : GraphNode)
    → Memᴰ k xs
    → (before : List GraphNode) × (after : List GraphNode) × (xs ≡ before ++ k ∷ after)
Mem-position [] k h = absurd (Memᴰ.not-nil h)
Mem-position (x ∷ xs) k (Memᴰ.head e) = ([], xs, ap (λ y. y ∷ xs) (sym e))
Mem-position (x ∷ xs) k (Memᴰ.tail t) =
    let (before, after, e) = Mem-position xs k t in (x ∷ before, after, ap (λ l. x ∷ l) e)

pub all-of :
    (p : String → Bool) (deps : List String) (dep : String)
    → all p deps ≡ true
    → contains deps dep ≡ true
    → p dep ≡ true
all-of p [] dep h m = absurd (cc)
all-of p (x ∷ deps) dep h m = elim (Bool-cases (x == dep)) [
  | inl here ↦ ground arith
  | inr other ↦ all-of p deps dep (ground arith) (ground arith)
]

pub of-all :
    (p : String → Bool) (deps : List String)
    → ((dep : String) → contains deps dep ≡ true → p dep ≡ true)
    → all p deps ≡ true
of-all p [] h = refl
of-all p (x ∷ deps) h =
    let first = h x (ground arith) in
    let rest = of-all p deps (λ dep m. h dep (ground arith)) in ground arith
