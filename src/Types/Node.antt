-- ===== src/Types/Node.antt =====
-- types/index.ts: the capability graph. A node's type is the text that stands in the file, since
-- validateIR tests for others than "worker" and "gate". Of `constraints` the code reads `stack`, of
-- `metadata` it reads `priority`. The fields outputs, gate, edges and the global ones are left out.
use evolve_loop.Base.{ℕ, String, Option, List, Eq, ℤ}
use evolve_loop.Types.EvidenceRecord.{DoDCheck, Evidence}

pub data NodeStatus : Type 0 where
  pending ready running waiting satisfied failed blocked skipped cancelled : NodeStatus

instance unfoldable pub node_status_eq : Eq NodeStatus
node_status_eq = record { dec = hlevel }

pub record IrInput : Type 0 where
  pub ref : String
  pub schema : Option String

pub record IrNode : Type 0 where
  pub id : String
  pub capability : String
  pub capability_version : Option String
  pub type : String
  pub inputs : Option (List IrInput)
  pub dependencies : List String
  pub definition_of_done : List DoDCheck
  pub stack : Option (List String)
  pub priority : Option ℤ

pub record CapabilityIr : Type 0 where
  pub api_version : String
  pub kind : String
  pub id : String
  pub policy_ref : Option String
  pub nodes : List IrNode

pub record GraphNode : Type 0 where
  pub ir : IrNode
  pub open ir use *
  pub status : NodeStatus
  pub retry_count : ℕ
  pub provider_id : Option String
  pub run_id : Option String
  pub evidence : Option Evidence

pub record GraphSnapshot : Type 0 where
  pub feature_id : String
  pub nodes : List GraphNode
