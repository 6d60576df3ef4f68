-- ===== src/Evidence/Builders.antt =====
-- evidence/builders.ts and evidence/validator.ts: the evidence that the parts of the engine emit.
-- `at` is the time of the call, `new Date().toISOString()`. The planning and selection builders are
-- not modelled. Confidence and coverage are in thousandths.
use evolve_loop.Base.{
  ℕ, String, ◌<>◌, Bool, true, false, ◌||◌, Option, none, some, get_or, List, [], ◌∷◌, map, ◌==◌,
  ltb, if◌then◌else◌, string_eq,
}
use evolve_loop.Types.{
  DoDCheck, Evidence, EvidenceMetadata, EvidenceEmitter, EvidencePayload, EvidenceCheck,
  EvidenceFinding, Verdict, Authority, GraphNode, complete, failed, pass, fail, passed, rejected,
  allow, verdict_eq, authority_eq,
}

base_evidence :
    (node_id run_id : String)
    → EvidenceEmitter
    → (capability provider_id at : String) → EvidenceMetadata
base_evidence node_id run_id emitter capability provider_id at = record {
  node_id = node_id;
  run_id = run_id;
  emitter = emitter;
  provider_id = provider_id;
  capability = capability;
  submitted_at = at;
}

unfoldable pub build_scheduling_evidence : (node_id run_id at : String) → EvidencePayload → Evidence
unfolding base_evidence
build_scheduling_evidence node_id run_id at payload = record {
  metadata = base_evidence node_id run_id EvidenceEmitter.scheduler "scheduling" "scheduler" at;
  spec = record {
    status = complete;
    confidence = some 1000;
    coverage = some 1000;
    assumptions = [];
    known_gaps = some [];
    verdict = none;
    checks = [];
    findings = none;
    duration_ms = none;
    payload = some payload;
  };
}

abbrev pub worker_check : DoDCheck → EvidenceCheck
worker_check dod = record {
  dod_id = dod.id;
  result = pass;
  verification = some dod.verification;
  details = some dod.check;
}

unfoldable pub build_worker_evidence :
    GraphNode
    → (run_id provider_id at : String) → (duration_ms : ℕ)
    → (files_created files_modified commands_run : List String) → Evidence
unfolding base_evidence
build_worker_evidence node run_id provider_id at duration_ms created modified commands = record {
  metadata = base_evidence node.id run_id EvidenceEmitter.worker node.capability provider_id at;
  spec = record {
    status = complete;
    confidence = some 900;
    coverage = some 1000;
    assumptions = [];
    known_gaps = some [];
    verdict = none;
    checks = map worker_check node.definition_of_done;
    findings = none;
    duration_ms = some duration_ms;
    payload = some (
        EvidencePayload.worker (map worker_check node.definition_of_done) created modified
          commands);
  };
}

abbrev pub gate_check : Verdict → DoDCheck → EvidenceCheck
gate_check verdict dod = record {
  dod_id = dod.id;
  result = if verdict == passed then pass else fail;
  verification = some dod.verification;
  details = none;
}

unfoldable pub build_gate_evidence :
    GraphNode
    → (run_id provider_id at : String) → Verdict
    → (confidence : ℕ) → Option (List EvidenceFinding)
    → Evidence
unfolding base_evidence
build_gate_evidence node run_id provider_id at verdict confidence findings = record {
  metadata = base_evidence node.id run_id EvidenceEmitter.gate node.capability provider_id at;
  spec = record {
    status = complete;
    confidence = some confidence;
    coverage = some (if verdict == passed then 1000 else 500);
    assumptions = [];
    known_gaps = some [];
    verdict = some verdict;
    checks = map (gate_check verdict) node.definition_of_done;
    findings = findings;
    duration_ms = none;
    payload = some (EvidencePayload.gate verdict (get_or findings []));
  };
}

-- The payload is one of an execution: its duration and its two flags.
unfoldable pub build_execution_evidence :
    (node_id run_id provider_id capability at : String)
    → (duration_ms : ℕ) → (timeout_hit cancelled : Bool) → Evidence
unfolding base_evidence
build_execution_evidence node_id run_id provider_id capability at duration_ms timeout_hit
      cancelled =
    record {
      metadata = base_evidence node_id run_id EvidenceEmitter.executor capability provider_id at;
      spec = record {
        status = complete;
        confidence = some (if timeout_hit || cancelled then 500 else 1000);
        coverage = some 1000;
        assumptions = [];
        known_gaps = some [];
        verdict = none;
        checks = [];
        findings = none;
        duration_ms = some duration_ms;
        payload = some (EvidencePayload.execution duration_ms timeout_hit cancelled);
      };
    }

-- `extra` of buildAuthorityEvidence: an object, or a status.
pub data Extra : Type 0 where
  error_object : Option String → Extra
  is_complete is_failed : Extra

pub record AuthorityInput : Type 0 where
  pub decision : Authority
  pub reason : String
  pub handler_error : Option String
  pub capability : Option String

unfoldable pub build_authority_evidence :
    (node_id run_id capability at : String) → AuthorityInput → Option Extra → Evidence
unfolding base_evidence
build_authority_evidence node_id run_id capability at auth extra = record {
  metadata =
      base_evidence node_id run_id EvidenceEmitter.scheduler capability "capability-authority" at;
  spec = record {
    status = elim extra [
      | some is_complete ↦ complete
      | some is_failed ↦ failed
      | _ ↦ if auth.decision == allow then complete else failed
    ];
    confidence = some (if auth.decision == allow then 1000 else 500);
    coverage = some 1000;
    assumptions = [];
    known_gaps = some [];
    verdict = none;
    checks = [];
    findings = none;
    duration_ms = none;
    payload = some (
        EvidencePayload.authority auth.decision auth.reason (get_or auth.capability capability)
          (elim extra [ some (error_object e) ↦ e | _ ↦ auth.handler_error ]));
  };
}

-- A string is truthy if it is not empty.
abbrev pub truthy : Option String → Bool
truthy none = false
truthy (some s) = if s == "" then false else true

unfoldable pub build_retrieval_evidence :
    (node_id run_id provider_id at query retrieval_method : String)
    → (hit_count : ℕ) → Option String
    → Evidence
unfolding base_evidence
build_retrieval_evidence node_id run_id provider_id at query retrieval_method hit_count degraded =
    record {
      metadata =
          base_evidence node_id run_id EvidenceEmitter.worker "knowledge.search" provider_id at;
      spec = record {
        status = complete;
        confidence = some (if truthy degraded then 600 else 900);
        coverage = some (if ltb 0 hit_count then 1000 else 300);
        assumptions = if truthy degraded then ("degraded:" <> get_or degraded "") ∷ [] else [];
        known_gaps = some [];
        verdict = none;
        checks = [];
        findings = none;
        duration_ms = none;
        payload = some (EvidencePayload.retrieval query retrieval_method hit_count degraded);
      };
    }

unfoldable pub build_success_evidence : GraphNode → (run_id provider_id at : String) → ℕ → Evidence
unfolding build_gate_evidence build_worker_evidence
build_success_evidence node run_id provider_id at duration_ms =
    if node.type == "gate"
    then build_gate_evidence node run_id provider_id at passed 900 none
    else build_worker_evidence node run_id provider_id at duration_ms [] [] []

unfoldable pub build_rejected_gate_evidence :
    GraphNode → (run_id provider_id at : String) → Option (List EvidenceFinding) → Evidence
unfolding build_gate_evidence
build_rejected_gate_evidence node run_id provider_id at findings =
    build_gate_evidence node run_id provider_id at rejected 800 findings
