-- ===== src/Jobs.antt =====
-- jobs/job-resume.ts: the result of an external job as the result of a run. `load` reads an evidence
-- file and is `none` where loadEvidenceFile throws; `at` is the time of the call.
pub mod Resume
use evolve_loop.Base.{
  String, Bool, true, false, Option, none, some, get_or, [], ◌==◌, if◌then◌else◌, string_eq,
}
use evolve_loop.Types.{Evidence, GraphNode, ExecuteResult}
use evolve_loop.Evidence.Builders.{build_success_evidence}

-- The fields of a job and of its result that the code reads.
pub record SkillJob : Type 0 where
  pub run_id : String
  pub provider_id : String

pub record SkillJobResult : Type 0 where
  pub success : Bool
  pub evidence_path : Option String
  pub error : Option String

-- The evidence of the file, and that of a success where there is no file or it cannot be read.
unfoldable pub job_evidence :
    (String → Option Evidence) → (at : String) → SkillJob → Option String → GraphNode → Evidence
unfolding build_success_evidence
job_evidence load at job none node = build_success_evidence node job.run_id job.provider_id at 0
job_evidence load at job (some path) node =
    let made = build_success_evidence node job.run_id job.provider_id at 0 in
    if path == "" then made else get_or (load path) made

unfoldable pub job_result_to_execute_result :
    (String → Option Evidence)
    → (at : String) → SkillJob
    → SkillJobResult
    → GraphNode
    → ExecuteResult
unfolding job_evidence
job_result_to_execute_result load at job result node = record {
  run_id = job.run_id;
  success = result.success;
  evidence =
      if result.success then some (job_evidence load at job result.evidence_path node) else none;
  error =
      if result.success
      then none
      else some
          (record { code = "JOB_FAILED"; message = get_or result.error "External job failed" });
  contextual_learnings = [];
  durable_learnings = [];
  duration_ms = 0;
  provider_id = job.provider_id;
}
