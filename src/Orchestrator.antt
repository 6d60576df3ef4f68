-- ===== src/Orchestrator.antt =====
-- orchestrator/orchestrator.ts: what to do about a blocked run.
use evolve_loop.Base.{String, ◌||◌, ◌==◌, if◌then◌else◌, string_eq}
use evolve_loop.Types.{OrchestratorDecision, continuar, corrigir, replan}
use text.Mathlib.Text.{starts_with}

unfoldable pub decide : String → OrchestratorDecision
decide reason =
    if reason == "contract_version_mismatch" || reason == "unrecoverable_failure"
    then replan
    else if reason == "gate_rejected"
        || starts_with reason "dod_failed:"
        || reason == "gate_rejected"
    then corrigir
    else if reason == "deadlock_or_waiting_external" || reason == "awaiting_external_jobs"
    then continuar
    else corrigir
