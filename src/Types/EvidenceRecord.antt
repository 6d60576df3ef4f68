-- ===== src/Types/EvidenceRecord.antt =====
-- types/index.ts: evidence. A number between 0 and 1 (confidence, coverage) is a count of
-- thousandths: the code writes one-digit decimals and compares them. Optional fields are `Option`.
use evolve_loop.Base.{ℕ, Bool, String, Option, List, Eq}

pub data EvidenceEmitter : Type 0 where
  planner scheduler registry worker gate executor : EvidenceEmitter

pub record DoDCheck : Type 0 where
  pub id : String
  pub check : String
  pub verification : String

pub data CheckResult : Type 0 where
  pass fail skip manual : CheckResult

pub record EvidenceCheck : Type 0 where
  pub dod_id : String
  pub result : CheckResult
  pub verification : Option String
  pub details : Option String

-- `info` is written by buildPlanningEvidence and is not in the declared union.
pub data Severity : Type 0 where
  critical major minor info : Severity

pub record EvidenceFinding : Type 0 where
  pub id : String
  pub severity : Severity
  pub description : String

pub data Verdict : Type 0 where
  passed rejected conditional : Verdict

pub data EvidenceStatus : Type 0 where
  complete partial failed : EvidenceStatus

pub data Authority : Type 0 where
  allow deny confirm : Authority

pub record Rejection : Type 0 where
  pub id : String
  pub reason : String

-- The union of payloads. The planning and selection payloads are not modelled.
pub data EvidencePayload : Type 0 where
  scheduling :
      (selected_provider : String) (rejected_providers : List Rejection) (strategy : String)
      (ready_batch : List String) (parallelism : ℕ)
      → EvidencePayload
  worker :
      (checks : List EvidenceCheck) (files_created files_modified commands_run : List String)
      → EvidencePayload
  gate : (verdict : Verdict) (findings : List EvidenceFinding) → EvidencePayload
  execution : (duration_ms : ℕ) (timeout_hit cancelled : Bool) → EvidencePayload
  authority :
      (decision : Authority) (reason capability : String) (handler_error : Option String)
      → EvidencePayload
  retrieval :
      (query retrieval_method : String) (hit_count : ℕ) (degraded : Option String) → EvidencePayload

pub record EvidenceMetadata : Type 0 where
  pub node_id : String
  pub run_id : String
  pub emitter : EvidenceEmitter
  pub provider_id : String
  pub capability : String
  pub submitted_at : String

pub record EvidenceSpec : Type 0 where
  pub status : EvidenceStatus
  pub confidence : Option ℕ
  pub coverage : Option ℕ
  pub assumptions : List String
  pub known_gaps : Option (List EvidenceFinding)
  pub verdict : Option Verdict
  pub checks : List EvidenceCheck
  pub findings : Option (List EvidenceFinding)
  pub duration_ms : Option ℕ
  pub payload : Option EvidencePayload

pub record Evidence : Type 0 where
  pub metadata : EvidenceMetadata
  pub spec : EvidenceSpec

instance unfoldable pub check_result_eq : Eq CheckResult
check_result_eq = record { dec = hlevel }

instance unfoldable pub severity_eq : Eq Severity
severity_eq = record { dec = hlevel }

instance unfoldable pub verdict_eq : Eq Verdict
verdict_eq = record { dec = hlevel }

instance unfoldable pub evidence_status_eq : Eq EvidenceStatus
evidence_status_eq = record { dec = hlevel }

instance unfoldable pub authority_eq : Eq Authority
authority_eq = record { dec = hlevel }
