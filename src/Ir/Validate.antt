-- ===== src/Ir/Validate.antt =====
-- ir/validator.ts: validateIR.
pub mod Codes
pub mod Exact
use evolve_loop.Base.{
  ℕ, String, ◌<>◌, Bool, true, false, not, ◌&&◌, ◌||◌, Option, none, some, List, [], ◌∷◌, ◌++◌, Eq,
  contains, ◌==◌, if◌then◌else◌, string_eq,
}
use evolve_loop.Types.{IrNode, CapabilityIr}
use evolve_loop.Ir.Search.{detect_cycle, node_ids}

pub data Code : Type 0 where
  invalid_api_version invalid_kind duplicate_id missing_capability invalid_type : Code
  unknown_capability dangling_edge cycle_detected : Code

instance unfoldable pub code_eq : Eq Code
code_eq = record { dec = hlevel }

pub record ValidationError : Type 0 where
  pub code : Code
  pub message : String
  pub node_id : Option String

-- `if (test) errors.push(error)`
abbrev pub report : Bool → Code → String → Option String → List ValidationError
report test code message node_id =
    if test then record { code = code; message = message; node_id = node_id } ∷ [] else []

-- The checks on one node. `ids` holds the ids of the nodes above it.
unfoldable pub check_node : Option (List String) → List String → IrNode → List ValidationError
check_node known ids n =
    report (contains ids n.id) duplicate_id ("Duplicate node id: " <> n.id) (some n.id)
    ++ report (n.capability == "") missing_capability ("Node " <> n.id <> " missing capability")
        (some n.id)
    ++ report (not (n.type == "worker") && not (n.type == "gate")) invalid_type
        ("Node " <> n.id <> " invalid type") (some n.id)
    ++ elim known [
      | none ↦ []
      | some set ↦
          report (not (contains set n.capability)) unknown_capability
            ("Unknown capability: " <> n.capability) (some n.id)
    ]

unfoldable pub check_nodes : Option (List String) → List String → List IrNode → List ValidationError
unfolding check_node
check_nodes known ids [] = []
check_nodes known ids (n ∷ ns) = check_node known ids n ++ check_nodes known (n.id ∷ ids) ns

unfoldable pub check_edges : List String → IrNode → List String → List ValidationError
check_edges ids n [] = []
check_edges ids n (dep ∷ deps) =
    report (not (contains ids dep)) dangling_edge ("Node " <> n.id <> " depends on unknown " <> dep)
      (some n.id)
    ++ check_edges ids n deps

unfoldable pub check_dependencies : List String → List IrNode → List ValidationError
unfolding check_edges
check_dependencies ids [] = []
check_dependencies ids (n ∷ ns) = check_edges ids n n.dependencies ++ check_dependencies ids ns

unfoldable pub check_header : CapabilityIr → List ValidationError
check_header ir =
    report (not (ir.api_version == "capability-orchestrator.io/v2")) invalid_api_version
      ("Expected v2, got " <> ir.api_version) none
    ++ report (not (ir.kind == "CapabilityGraph")) invalid_kind
        ("Expected CapabilityGraph, got " <> ir.kind) none

abbrev pub check_cycle : Option Bool → List ValidationError
check_cycle (some true) = report true cycle_detected "Cycle detected in dependency graph" none
check_cycle _ = []

unfoldable pub validate_ir : CapabilityIr → Option (List String) → List ValidationError
unfolding check_header check_nodes check_dependencies detect_cycle
validate_ir ir known =
    check_header ir
    ++ check_nodes known [] ir.nodes
    ++ check_dependencies (node_ids ir.nodes) ir.nodes
    ++ check_cycle (detect_cycle ir.nodes)
