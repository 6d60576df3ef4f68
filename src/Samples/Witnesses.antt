-- ===== src/Samples/Witnesses.antt =====
-- The theorems at the samples.
use evolve_loop.Base.{
  String, ◌≡◌, refl, ◌↔◌, ◌⊎◌, inl, Bool, true, false, ◌||◌, ◌+◌, none, some, List, [], ◌∷◌,
  contains, any, arith, get_or, Memᴰ, leb, string_eq, ap, ◌==◌, ◌≢◌,
}
use evolve_loop.Types.{
  pending, Evidence, GraphNode, FeatureRunState, satisfied, skipped, allow, authority_eq,
}
use evolve_loop.Graph.Store.{
  dependencies_satisfied, GraphStore, get_node, get_all_nodes, new_store, snapshot, from_snapshot,
}
use evolve_loop.Graph.Valid.{new_store-IsValid, from_snapshot-snapshot}
use evolve_loop.Graph.Built.{Holds, new_store-Holds}
use evolve_loop.Graph.Walk.{transitive_dependents, invalidate_downstream}
use evolve_loop.Graph.Walk.Contract.{Downstream}
use evolve_loop.Graph.Walk.Downstream.{Dependents, transitive_dependents_exact}
use evolve_loop.Graph.Walk.Invalidate.{Invalidated, invalidate_downstream_exact}
use evolve_loop.Ir.Search.{detect_cycle}
use evolve_loop.Ir.Cycle.Sound.{Cyclic}
use evolve_loop.Ir.Cycle.Decides.{edges_of, detect_cycle_decides}
use evolve_loop.Ir.Validate.Exact.{Reports, validate_ir-Reports}
use evolve_loop.Policies.Builtin.{high_reliability}
use evolve_loop.Policies.{min_confidence, retries_for}
use evolve_loop.Evidence.Builders.{build_success_evidence}
use evolve_loop.Evidence.Validator.{validate_evidence}
use evolve_loop.Evidence.Validator.Exact.{Suffices, validate_evidence_exact}
use evolve_loop.Evidence.Validator.Built.{build_success_evidence-valid}
use evolve_loop.RunState.{derive_run_state}
use evolve_loop.RunState.Laws.{Steps, Steps-final, derive_run_state-completed}
use evolve_loop.Scheduler.{ready_nodes}
use evolve_loop.Scheduler.Progress.{ready_nodes_progress}
use evolve_loop.Samples.Between.{pipeline_valid, pipeline-IsBetweenRuns}
use evolve_loop.Scheduler.Rounds.{skipped_node}
use evolve_loop.Scheduler.Exact.{ready_nodes_exact}
use evolve_loop.Scheduler.Exact.Turn.{Dispatch}
use evolve_loop.Learning.{ingest}
use evolve_loop.Learning.Counts.{count_at, failures_at, ingest-counts}
use evolve_loop.Telemetry.{new_metrics}
use evolve_loop.Telemetry.Rework.{record_all, redoes, record_all-reworked}
use evolve_loop.Authority.{authorize, path_escapes_workspace}
use evolve_loop.Authority.Permits.{permits, authorize-allow}
use evolve_loop.Engine.Results.{error_code, process_run_result, failure_reason}
use evolve_loop.Engine.Steps.{Gives}
use evolve_loop.Engine.Branches.{Decided}
use evolve_loop.Engine.Settled.{Settled}
use evolve_loop.Engine.Outcome.{process_run_result_settles, process_run_result-failure}
use evolve_loop.Jobs.{job_result_to_execute_result}
use evolve_loop.Jobs.Resume.{IsSatisfied, job_result_satisfies}
use evolve_loop.SkillGates.{
  GateStatus, absent, exempt, evaluate_grill_me_required, evaluate_grill_me_transition,
}
use evolve_loop.SkillGates.Transitions.{grill_me_fails_closed}
use evolve_loop.Samples.{
  product_task, job, job_result, no_file, unit_tests, pipeline, knot, store, build_node, gate_node,
  context, engine, good_evidence, good_run, bad_run, failure_event, retry_events, write_request,
  resolve_plain, resolve_absolute,
}

process_run_result_settles_example :
    Gives
      (process_run_result context good_run "build" engine)
      (Settled context good_run "build" store build_node)
unfolding get_node new_store string_eq
process_run_result_settles_example =
    process_run_result_settles context good_run "build" build_node engine refl
      (new_store-IsValid pipeline)

times_out : error_code bad_run.error ≢ "JOB_PENDING"
unfolding string_eq
times_out e = let f : false ≡ true = ap (λ s. s == "JOB_PENDING") e in cc

process_run_result-failure_example : Gives (process_run_result context bad_run "build" engine) (
    Decided context bad_run "build" store none build_node
      (leb (build_node.retry_count + 1) (retries_for high_reliability build_node))
      (failure_reason bad_run.error))
unfolding get_node new_store string_eq
process_run_result-failure_example =
    process_run_result-failure context bad_run "build" build_node engine refl
      (new_store-IsValid pipeline) refl times_out

invalidate_downstream_exact_example :
    (g' : GraphStore) × (out : List String) × (hit : String → Bool) × (invalidate_downstream store
        "test"
      ≡ some (g', out))
    × ((x : String) → (hit x ≡ true) ↔ Downstream (get_all_nodes store) "test" x)
    × ((x : String) (n : GraphNode)
        → get_node store x ≡ some n
        → (n' : GraphNode) × (get_node g' x ≡ some n') × Invalidated (hit x) n n')
    × ((x : String) → get_node store x ≡ none → get_node g' x ≡ none)
invalidate_downstream_exact_example =
    invalidate_downstream_exact store "test" (new_store-IsValid pipeline).keyed
      (new_store-IsValid pipeline).distinct

transitive_dependents_exact_example :
    (result : List GraphNode) × (transitive_dependents store "build" ≡ some result)
    × Dependents store "build" result
transitive_dependents_exact_example = transitive_dependents_exact store "build"

detect_cycle_decides_example :
    (b : Bool) × (detect_cycle knot ≡ some b) × ((b ≡ true) ↔ Cyclic (edges_of knot))
detect_cycle_decides_example = detect_cycle_decides knot

validate_ir-Reports_example : Reports pipeline (some ("testing" ∷ []))
validate_ir-Reports_example = validate_ir-Reports pipeline (some ("testing" ∷ []))

validate_evidence_exact_example :
    ((validate_evidence (some good_evidence) (unit_tests ∷ []) build_node 800).valid ≡ true)
    ↔ ((e : Evidence) × (some good_evidence ≡ some e) × Suffices e (unit_tests ∷ []) build_node 800)
validate_evidence_exact_example =
    validate_evidence_exact (some good_evidence) (unit_tests ∷ []) build_node 800

build_success_evidence-valid_example :
    (validate_evidence
      (some (build_success_evidence gate_node "run-2" "cursor" "2026-01-01" 5))
      gate_node.definition_of_done
      gate_node
      700).valid
    ≡ true
build_success_evidence-valid_example =
    build_success_evidence-valid gate_node "run-2" "cursor" "2026-01-01" 5 700 (ground arith)

ready_nodes_exact_example :
    Dispatch high_reliability store (ready_nodes (λ a b. false) high_reliability "feature" store [])
ready_nodes_exact_example =
    ready_nodes_exact (λ a b. false) high_reliability "feature" store []
      (new_store-IsValid pipeline)

from_snapshot-snapshot_example : from_snapshot (snapshot store) ≡ store
from_snapshot-snapshot_example = from_snapshot-snapshot store (new_store-IsValid pipeline)

new_store-Holds_example : Holds pipeline (new_store pipeline)
new_store-Holds_example = new_store-Holds pipeline

Steps-final_example : satisfied ≡ satisfied
Steps-final_example = Steps-final {s = satisfied} {t = satisfied} (inl refl) Steps.here

derive_run_state-completed_example :
    (derive_run_state (build_node ∷ []) none ≡ FeatureRunState.completed) ↔ (
      ((build_node ∷ []) ≢ [])
      × ((n : GraphNode)
          → Memᴰ n (build_node ∷ [])
          → (n.status ≡ satisfied) ⊎ (n.status ≡ skipped)))
derive_run_state-completed_example = derive_run_state-completed (build_node ∷ [])

ingest-counts_example :
    count_at "frontend:cursor:too slow" (ingest (("2026-01-01", failure_event) ∷ []) [])
    ≡ count_at "frontend:cursor:too slow" []
      + failures_at "frontend:cursor:too slow" (("2026-01-01", failure_event) ∷ [])
ingest-counts_example =
    ingest-counts "frontend:cursor:too slow" (("2026-01-01", failure_event) ∷ []) []

record_all-reworked_example :
    contains (record_all retry_events new_metrics).reworked_nodes "build"
    ≡ (contains {A = String} [] "build" || any (redoes "build") retry_events)
record_all-reworked_example = record_all-reworked retry_events new_metrics "build"

authorize-allow_example :
    ((authorize resolve_plain resolve_absolute write_request).decision ≡ allow) ↔ (
      (path_escapes_workspace resolve_plain resolve_absolute write_request.target_path
          write_request.context.workspace_root
        ≡ false)
      × (permits write_request ≡ true))
authorize-allow_example = authorize-allow resolve_plain resolve_absolute write_request

job_result_satisfies_example :
    Gives
      (process_run_result context
        (job_result_to_execute_result no_file "2026-01-01" job job_result build_node)
        "build"
        engine)
      (IsSatisfied "build")
unfolding get_node new_store string_eq min_confidence high_reliability
job_result_satisfies_example =
    job_result_satisfies no_file "2026-01-01" job job_result context "build" build_node engine refl
      refl (ground arith) refl (new_store-IsValid pipeline)

grill_me_fails_closed_example :
    (((evaluate_grill_me_transition product_task).allow_transition ≡ true) ↔ (
      (evaluate_grill_me_required product_task ≡ false)
      ⊎ (get_or product_task.evidence_status absent ≡ GateStatus.satisfied)
      ⊎ (get_or product_task.evidence_status absent ≡ exempt)))
    × ((product_task.explicit_exempt || product_task.trivial_non_design
            || product_task.fully_specified_execution)
          ≡ true
        → evaluate_grill_me_required product_task ≡ false)
grill_me_fails_closed_example = grill_me_fails_closed product_task

ready_nodes_progress_example :
    (m : GraphNode) × Memᴰ m (get_all_nodes store)
    × (m.status ≡ pending)
    × (dependencies_satisfied store m ≡ true)
    × (Memᴰ m (ready_nodes (λ a b. false) high_reliability "feature" store []).candidates
        ⊎ (m.type ≡ "gate")
          × (get_node (ready_nodes (λ a b. false) high_reliability "feature" store []).graph m.id
              ≡ some (skipped_node m)))
unfolding get_node new_store string_eq
ready_nodes_progress_example =
    ready_nodes_progress (λ a b. false) high_reliability "feature" [] pipeline none store "build"
      build_node pipeline_valid (new_store-IsValid pipeline) pipeline-IsBetweenRuns refl refl
