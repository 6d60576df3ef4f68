-- ===== src/Types/Policy.antt =====
-- types/index.ts: the execution policy. `memory`, `cost_budget` and the unread timeouts are left out.
use evolve_loop.Base.{ℕ, Bool, String, Option, List, Dict, Eq}

pub data ProviderStrategy : Type 0 where
  stable highest_quality fastest cheapest experimental priority : ProviderStrategy

pub data OnGateReject : Type 0 where
  orchestrator auto_retry fail_fast : OnGateReject

pub data OnEvidenceMissing : Type 0 where
  fail retry : OnEvidenceMissing

pub data ExecutionOrder : Type 0 where
  topological priority_field : ExecutionOrder

pub data GateDepth : Type 0 where
  fast standard deep : GateDepth

instance unfoldable pub on_gate_reject_eq : Eq OnGateReject
on_gate_reject_eq = record { dec = hlevel }

instance unfoldable pub on_evidence_missing_eq : Eq OnEvidenceMissing
on_evidence_missing_eq = record { dec = hlevel }

instance unfoldable pub execution_order_eq : Eq ExecutionOrder
execution_order_eq = record { dec = hlevel }

instance unfoldable pub provider_strategy_eq : Eq ProviderStrategy
provider_strategy_eq = record { dec = hlevel }

pub record Retries : Type 0 where
  pub default : ℕ
  pub by_capability : Option (Dict ℕ)
  pub by_type : Option (Dict ℕ)

pub record Gates : Type 0 where
  pub required : List String
  pub optional : Option (List String)
  pub skipped : Option (List String)

pub record Parallelism : Type 0 where
  pub max_parallel : ℕ
  pub mode : String

pub record ExecutionPolicySpec : Type 0 where
  pub retries : Retries
  pub gates : Gates
  pub provider_strategy : ProviderStrategy
  pub parallelism : Parallelism
  pub step_timeout : Option String
  pub on_gate_reject : OnGateReject
  pub on_evidence_missing : OnEvidenceMissing
  pub fail_fast : Bool
  pub execution_order : ExecutionOrder
  pub gate_depth : Option GateDepth
  pub min_confidence : Option ℕ
  pub consult_before_schedule : Option Bool
  pub phase_mapping : Option (Dict ℕ)

pub record ExecutionPolicy : Type 0 where
  pub id : String
  pub version : String
  pub description : Option String
  pub spec : ExecutionPolicySpec
