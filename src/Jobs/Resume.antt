-- ===== src/Jobs/Resume.antt =====
-- jobs/job-resume.ts with processRunResult of engine/execution-engine.ts: what a job's result does to the
-- node that waited for it.
use evolve_loop.Base.{
  ◌≤◌, String, ◌≡◌, refl, ap, ◌∙◌, true, Bool-cases, inl, inr, Option, none, some, ◌==◌, string_eq,
}
use evolve_loop.Types.{Evidence, GraphNode, satisfied}
use evolve_loop.Graph.Store.{get_node}
use evolve_loop.Graph.Valid.{IsValid}
use evolve_loop.Policies.{min_confidence}
use evolve_loop.Evidence.Builders.{build_success_evidence}
use evolve_loop.Evidence.Validator.{validate_evidence}
use evolve_loop.Evidence.Validator.Exact.{validate_evidence_exact}
use evolve_loop.Evidence.Validator.Built.{build_success_evidence-valid}
use evolve_loop.Engine.State.{RunContext, EngineState}
use evolve_loop.Engine.Results.{process_run_result}
use evolve_loop.Engine.Steps.{Gives}
use evolve_loop.Engine.Outcome.{process_run_result_settles, gives_map}
use evolve_loop.Jobs.{SkillJob, SkillJobResult, job_evidence, job_result_to_execute_result}

-- The job names no evidence file that can be read.
abbrev pub Unreadable : (String → Option Evidence) → Option String → Type 0
Unreadable load none = Unit
Unreadable load (some path) = load path ≡ none

job_evidence-made :
    (load : String → Option Evidence) (at : String) (job : SkillJob) (path : Option String)
    (n : GraphNode)
    → Unreadable load path
    → job_evidence load at job path n ≡ build_success_evidence n job.run_id job.provider_id at 0
unfolding job_evidence
job_evidence-made load at job none n u = refl
job_evidence-made load at job (some path) n u = elim (Bool-cases (path == "")) [
  | inl empty ↦ rw (empty, job_evidence) refl
  | inr named ↦ rw (named, u, job_evidence) refl
]

-- The node is satisfied in the state.
abbrev pub IsSatisfied : String → EngineState → Type 0
IsSatisfied id e = (m : GraphNode) × (get_node e.graph id ≡ some m) × (m.status ≡ satisfied)

-- A job that reports success without an evidence file that can be read satisfies the node that waited
-- for it, in every valid store and under every policy that asks for a confidence of at most 0.9:
-- whatever the node's definition of done, processRunResult accepts the evidence that the resumption
-- makes up.
pub job_result_satisfies :
    (load : String → Option Evidence) (at : String) (job : SkillJob) (result : SkillJobResult)
    (c : RunContext) (id : String) (n : GraphNode) (e : EngineState)
    → result.success ≡ true
    → Unreadable load result.evidence_path
    → min_confidence c.policy ≤ 900
    → get_node e.graph id ≡ some n
    → IsValid e.graph
    → Gives
        (process_run_result c (job_result_to_execute_result load at job result n) id e)
        (IsSatisfied id)
unfolding job_result_to_execute_result
job_result_satisfies load at job result c id n e ok unreadable enough here v =
    let run = job_result_to_execute_result load at job result n in
    let made = job_evidence-made load at job result.evidence_path n unreadable in
    let accepted =
      build_success_evidence-valid n job.run_id job.provider_id at 0 (min_confidence c.policy)
        enough in
    let evidence : run.evidence ≡ some (build_success_evidence n job.run_id job.provider_id at 0) =
      rw ok (ap some made) in
    let proof =
      (validate_evidence_exact run.evidence n.definition_of_done n (min_confidence c.policy)).0 (
        ap (λ o. (validate_evidence o n.definition_of_done n (min_confidence c.policy)).valid)
          evidence
        ∙ accepted) in
    gives_map (process_run_result c run id e) (process_run_result_settles c run id n e here v)
      (λ e' s. (s.node, s.at, s.satisfied_exact.1 (ok, proof)))
