-- ===== src/Ir/Validate/Exact.antt =====
-- validateIR of ir/validator.ts: the faults of a graph and the error codes.
use evolve_loop.Base.{
  String, ◌≡◌, refl, subst, ◌↔◌, Bool, true, false, not, ◌&&◌, ◌||◌, Option, none, some, List, [],
  ◌∷◌, contains, ◌==◌, arith, all, all-mem, all-contains, all_intro, any-false, string_eq, Memᴰ,
  Distinct,
}
use evolve_loop.Types.{IrNode, CapabilityIr}
use evolve_loop.Ir.Search.{detect_cycle, node_ids}
use evolve_loop.Ir.Cycle.Sound.{Cyclic}
use evolve_loop.Ir.Cycle.Decides.{edges_of, detect_cycle_decides}
use evolve_loop.Ir.Validate.{
  Code, invalid_api_version, invalid_kind, duplicate_id, missing_capability, invalid_type,
  unknown_capability, dangling_edge, cycle_detected, code_eq, check_cycle, validate_ir,
}
use evolve_loop.Ir.Validate.Codes.{
  has, has-append, has-report, violates, repeats, lacks_capability, has_other_type, is_unknown,
  has-check_nodes, has-check_dependencies,
}

abbrev finds_cycle : Option Bool → Bool
finds_cycle (some true) = true
finds_cycle _ = false

has-check_cycle :
    (c : Code) (o : Option Bool) → has c (check_cycle o) ≡ (finds_cycle o && (cycle_detected == c))
has-check_cycle c none = refl
has-check_cycle c (some true) = ground arith
has-check_cycle c (some false) = refl

abbrev all_known : CapabilityIr → Bool
all_known ir = all (λ n. all (contains (node_ids ir.nodes)) n.dependencies) ir.nodes

has-validate_ir :
    (c : Code) (ir : CapabilityIr) (known : Option (List String))
    → has c (validate_ir ir known) ≡ (
        ((not (ir.api_version == "capability-orchestrator.io/v2") && (invalid_api_version == c))
          || (not (ir.kind == "CapabilityGraph") && (invalid_kind == c)))
        || violates c known [] ir.nodes
        || (not (all_known ir) && (dangling_edge == c))
        || (finds_cycle (detect_cycle ir.nodes) && (cycle_detected == c)))
unfolding validate_ir
has-validate_ir c ir known =
    simp (has-append, has-report, has-check_nodes, has-check_dependencies, has-check_cycle)

repeats-Distinct :
    (ids : List String) (ns : List IrNode)
    → (repeats ids ns ≡ false) ↔ (
        Distinct (node_ids ns)
        × ((x : String) → contains ids x ≡ true → contains (node_ids ns) x ≡ false))
repeats-Distinct ids [] = (λ h. (tt, λ x m. refl), λ h. refl)
repeats-Distinct ids (n ∷ ns) =
    let (forth, back) = repeats-Distinct (n.id ∷ ids) ns in
    (
      λ h.
          let (d, away) = forth (ground arith) in
          ((away n.id (ground arith), d), λ x m. ground (arith, away x)),
      λ h. ground (arith, h.1 n.id, back (h.0.1, λ x m. ground (arith, h.1 x))),
    )

-- What each code stands for.
pub record Reports (ir : CapabilityIr) (known : Option (List String)) : Type 0 where
  pub api_version :
      (has invalid_api_version (validate_ir ir known) ≡ false)
      ↔ (ir.api_version ≡ "capability-orchestrator.io/v2")
  pub kind : (has invalid_kind (validate_ir ir known) ≡ false) ↔ (ir.kind ≡ "CapabilityGraph")
  pub duplicate : (has duplicate_id (validate_ir ir known) ≡ false) ↔ Distinct (node_ids ir.nodes)
  pub capability :
      (has missing_capability (validate_ir ir known) ≡ false)
      ↔ ((n : IrNode) → Memᴰ n ir.nodes → (n.capability == "") ≡ false)
  pub known_capability : (has unknown_capability (validate_ir ir known) ≡ false) ↔ (
      (set : List String)
      → known ≡ some set
      → (n : IrNode) → Memᴰ n ir.nodes
      → contains set n.capability ≡ true)
  pub type : (has invalid_type (validate_ir ir known) ≡ false) ↔ (
      (n : IrNode) → Memᴰ n ir.nodes → (not (n.type == "worker") && not (n.type == "gate")) ≡ false)
  pub dangling : (has dangling_edge (validate_ir ir known) ≡ false) ↔ (
      (n : IrNode)
      → Memᴰ n ir.nodes
      → (dep : String) → contains n.dependencies dep ≡ true
      → contains (node_ids ir.nodes) dep ≡ true)
  pub cyclic : (has cycle_detected (validate_ir ir known) ≡ true) ↔ Cyclic (edges_of ir.nodes)

finds_cycle-some : (b : Bool) → finds_cycle (some b) ≡ b
finds_cycle-some true = refl
finds_cycle-some false = refl

all-known :
    (ir : CapabilityIr)
    → (all_known ir ≡ true) ↔ (
        (n : IrNode)
        → Memᴰ n ir.nodes
        → (dep : String) → contains n.dependencies dep ≡ true
        → contains (node_ids ir.nodes) dep ≡ true)
all-known ir = (
  λ h n m dep d.
      (all-contains (node_ids ir.nodes) n.dependencies).0
        (all-mem (λ k. all (contains (node_ids ir.nodes)) k.dependencies) ir.nodes n h m) dep d,
  λ h.
      all_intro (λ k. all (contains (node_ids ir.nodes)) k.dependencies) ir.nodes
        (λ n m. (all-contains (node_ids ir.nodes) n.dependencies).1 (h n m)),
)

module _ (ir : CapabilityIr) (known : Option (List String)) where
  Reports-duplicate :
      (has duplicate_id (validate_ir ir known) ≡ false) ↔ Distinct (node_ids ir.nodes)
  unfolding code_eq
  Reports-duplicate =
      let (forth, back) = repeats-Distinct [] ir.nodes in
      rw (has-validate_ir duplicate_id ir known)
        (λ h. (forth (ground arith)).0, λ d. let e = back (d, λ x m. cc) in ground arith)

  Reports-cyclic : (has cycle_detected (validate_ir ir known) ≡ true) ↔ Cyclic (edges_of ir.nodes)
  unfolding code_eq
  Reports-cyclic =
      let (b, e, (forth, back)) = detect_cycle_decides ir.nodes in
      rw (has-validate_ir cycle_detected ir known, e, finds_cycle-some b)
        (λ h. forth (ground arith), λ c. let f = back c in ground arith)

  Reports-dangling : (has dangling_edge (validate_ir ir known) ≡ false) ↔ (
      (n : IrNode)
      → Memᴰ n ir.nodes
      → (dep : String) → contains n.dependencies dep ≡ true
      → contains (node_ids ir.nodes) dep ≡ true)
  unfolding code_eq
  Reports-dangling =
      let (forth, back) = all-known ir in
      rw (has-validate_ir dangling_edge ir known)
        (λ h. forth (ground arith), λ k. let e = back k in ground arith)

  Reports-capability :
      (has missing_capability (validate_ir ir known) ≡ false)
      ↔ ((n : IrNode) → Memᴰ n ir.nodes → (n.capability == "") ≡ false)
  unfolding code_eq
  Reports-capability =
      let (forth, back) = any-false lacks_capability ir.nodes in
      rw (has-validate_ir missing_capability ir known)
        (λ h. forth (ground arith), λ k. let e = back k in ground arith)

  Reports-known_capability : (has unknown_capability (validate_ir ir known) ≡ false) ↔ (
      (set : List String)
      → known ≡ some set
      → (n : IrNode) → Memᴰ n ir.nodes
      → contains set n.capability ≡ true)
  unfolding code_eq
  Reports-known_capability =
      let (forth, back) = any-false (is_unknown known) ir.nodes in
      rw (has-validate_ir unknown_capability ir known) (
        λ h set e n m.
            let fine = forth (ground arith) n m in
            not_unknown set n (subst (λ k. is_unknown k n ≡ false) e fine),
        λ k. let e = back (λ n m. recognized known n (λ set e. k set e n m)) in ground arith,
      )
    where
      not_unknown :
          (set : List String) (n : IrNode)
          → is_unknown (some set) n ≡ false
          → contains set n.capability ≡ true
      not_unknown set n h = ground arith

      recognized :
          (o : Option (List String)) (n : IrNode)
          → ((set : List String) → o ≡ some set → contains set n.capability ≡ true)
          → is_unknown o n ≡ false
      recognized none n h = refl
      recognized (some set) n h = let c = h set refl in ground arith

  Reports-type : (has invalid_type (validate_ir ir known) ≡ false) ↔ (
      (n : IrNode) → Memᴰ n ir.nodes → (not (n.type == "worker") && not (n.type == "gate")) ≡ false)
  unfolding code_eq
  Reports-type =
      let (forth, back) = any-false has_other_type ir.nodes in
      rw (has-validate_ir invalid_type ir known)
        (λ h. forth (ground arith), λ k. let e = back k in ground arith)

  Reports-api_version :
      (has invalid_api_version (validate_ir ir known) ≡ false)
      ↔ (ir.api_version ≡ "capability-orchestrator.io/v2")
  unfolding code_eq
  Reports-api_version =
      rw (has-validate_ir invalid_api_version ir known) (λ h. ground arith, λ k. ground arith)

  Reports-kind : (has invalid_kind (validate_ir ir known) ≡ false) ↔ (ir.kind ≡ "CapabilityGraph")
  unfolding code_eq
  Reports-kind = rw (has-validate_ir invalid_kind ir known) (λ h. ground arith, λ k. ground arith)

-- validateIR reports a wrong API version, a wrong kind, a repeated id, an empty capability, a
-- capability that is not among the known ones where these are given, a node type other than worker and
-- gate, a dependency on an id that no node has, and a cycle (some id that
-- depends on itself directly or through others), each exactly when the graph has that fault.
pub validate_ir-Reports : (ir : CapabilityIr) (known : Option (List String)) → Reports ir known
validate_ir-Reports ir known = record {
  api_version = Reports-api_version ir known;
  kind = Reports-kind ir known;
  duplicate = Reports-duplicate ir known;
  capability = Reports-capability ir known;
  known_capability = Reports-known_capability ir known;
  type = Reports-type ir known;
  dangling = Reports-dangling ir known;
  cyclic = Reports-cyclic ir known;
}
