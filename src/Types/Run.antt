-- ===== src/Types/Run.antt =====
-- types/index.ts: runs, providers, requests and results.
use evolve_loop.Base.{ℕ, ℤ, Bool, String, Option, List}
use evolve_loop.Types.EvidenceRecord.{DoDCheck, Evidence}
use evolve_loop.Types.Node.{IrInput, GraphNode}

pub data FeatureRunState : Type 0 where
  created active blocked completed cancelled : FeatureRunState

pub data OrchestratorDecision : Type 0 where
  continuar corrigir replan : OrchestratorDecision

pub record RunError : Type 0 where
  pub code : String
  pub message : String

pub record MemoryEntry : Type 0 where
  pub timestamp : String
  pub source : String
  pub type : String
  pub content : String

pub record KnowledgeEntry : Type 0 where
  pub id : String
  pub kind : String
  pub content : String
  pub tags : Option (List String)
  pub capabilities : Option (List String)
  pub confidence : Option ℕ

pub record ProposedKnowledgeEntry : Type 0 where
  pub kind : String
  pub content : String
  pub tags : Option (List String)
  pub capabilities : Option (List String)
  pub confidence : Option ℕ
  pub source_node : Option String

pub record ExecuteRequest : Type 0 where
  pub run_id : String
  pub node_id : String
  pub capability : String
  pub inputs : List IrInput
  pub definition_of_done : List DoDCheck
  pub retries_remaining : ℤ
  pub timeout_ms : Option ℕ
  pub provider_id : String
  pub executor_type : Option String
  pub memory_scope : String
  pub knowledge_hits : List KnowledgeEntry
  pub briefing : String
  pub node : GraphNode

pub record ExecuteResult : Type 0 where
  pub run_id : String
  pub success : Bool
  pub evidence : Option Evidence
  pub error : Option RunError
  pub contextual_learnings : List MemoryEntry
  pub durable_learnings : List ProposedKnowledgeEntry
  pub duration_ms : ℕ
  pub provider_id : String
