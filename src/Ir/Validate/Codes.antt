-- ===== src/Ir/Validate/Codes.antt =====
-- Which error codes validateIR of ir/validator.ts reports.
use evolve_loop.Base.{
  String, ◌≡◌, refl, Bool, true, false, not, ◌&&◌, ◌||◌, Option, none, some, List, [], ◌∷◌, ◌++◌,
  contains, ◌==◌, arith, any, all, ◌<>◌, string_eq,
}
use evolve_loop.Types.{IrNode}
use evolve_loop.Ir.Validate.{
  Code, invalid_kind, duplicate_id, missing_capability, invalid_type, unknown_capability,
  dangling_edge, code_eq, ValidationError, report, check_node, check_nodes, check_edges,
  check_dependencies,
}

-- Some error has the code.
abbrev pub has : Code → List ValidationError → Bool
has c [] = false
has c (e ∷ es) = e.code == c || has c es

pub has-append :
    (c : Code) (xs ys : List ValidationError) → has c (xs ++ ys) ≡ (has c xs || has c ys)
has-append c [] ys = refl
has-append c (x ∷ xs) ys = ground (arith, has-append c xs ys)

pub has-report :
    (c d : Code) (test : Bool) (m : String) (i : Option String)
    → has c (report test d m i) ≡ (test && (d == c))
has-report c d true m i = ground arith
has-report c d false m i = refl

abbrev pub is_unknown : Option (List String) → IrNode → Bool
is_unknown none n = false
is_unknown (some set) n = not (contains set n.capability)

has-check_node :
    (c : Code) (known : Option (List String)) (ids : List String) (n : IrNode)
    → has c (check_node known ids n) ≡ (
        (contains ids n.id && duplicate_id == c)
        || ((n.capability == "") && missing_capability == c)
        || ((not (n.type == "worker") && not (n.type == "gate")) && invalid_type == c)
        || (is_unknown known n && unknown_capability == c))
unfolding check_node
has-check_node c none ids n = simp (has-append, has-report)
has-check_node c (some set) ids n = simp (has-append, has-report)

-- An id of `ns` stands in `ids` or earlier in `ns`.
abbrev pub repeats : List String → List IrNode → Bool
repeats ids [] = false
repeats ids (n ∷ ns) = contains ids n.id || repeats (n.id ∷ ids) ns

abbrev pub lacks_capability : IrNode → Bool
lacks_capability n = n.capability == ""

abbrev pub has_other_type : IrNode → Bool
has_other_type n = not (n.type == "worker") && not (n.type == "gate")

-- What the checks on a node look for, by the code.
abbrev pub violates : Code → Option (List String) → List String → List IrNode → Bool
violates duplicate_id known ids ns = repeats ids ns
violates missing_capability known ids ns = any lacks_capability ns
violates invalid_type known ids ns = any has_other_type ns
violates unknown_capability known ids ns = any (is_unknown known) ns
violates _ known ids ns = false

pub has-check_nodes :
    (c : Code) (known : Option (List String)) (ids : List String) (ns : List IrNode)
    → has c (check_nodes known ids ns) ≡ violates c known ids ns
unfolding check_nodes code_eq
has-check_nodes invalid_kind known ids [] = refl
has-check_nodes _ known ids [] = refl
has-check_nodes invalid_kind known ids (n ∷ ns) =
    rw
      (
        has-append invalid_kind (check_node known ids n) (check_nodes known (n.id ∷ ids) ns),
        has-check_node invalid_kind known ids n,
        has-check_nodes invalid_kind known (n.id ∷ ids) ns,
      )
      (ground arith)
has-check_nodes c known ids (n ∷ ns) =
    rw
      (
        has-append c (check_node known ids n) (check_nodes known (n.id ∷ ids) ns),
        has-check_node c known ids n,
        has-check_nodes c known (n.id ∷ ids) ns,
      )
      (ground arith)

has-check_edges :
    (c : Code) (ids : List String) (n : IrNode) (deps : List String)
    → has c (check_edges ids n deps) ≡ (not (all (contains ids) deps) && (dangling_edge == c))
unfolding check_edges
has-check_edges c ids n [] = refl
has-check_edges c ids n (dep ∷ deps) =
    rw
      (has-append c
        (report (not (contains ids dep)) dangling_edge
          ("Node " <> n.id <> " depends on unknown " <> dep) (some n.id))
        (check_edges ids n deps))
      (ground (arith, has-check_edges c ids n deps))

pub has-check_dependencies :
    (c : Code) (ids : List String) (ns : List IrNode)
    → has c (check_dependencies ids ns)
      ≡ (not (all (λ n. all (contains ids) n.dependencies) ns) && (dangling_edge == c))
unfolding check_dependencies
has-check_dependencies c ids [] = refl
has-check_dependencies c ids (n ∷ ns) =
    rw (has-append c (check_edges ids n n.dependencies) (check_dependencies ids ns))
      (ground (arith, has-check_edges c ids n n.dependencies, has-check_dependencies c ids ns))
