-- ===== src/Samples/Loops.antt =====
-- Runs of the sample graph, and the theorems about the loop at them.
use evolve_loop.Base.{◌≡◌, refl, ◌≢◌, Bool, true, false, none, some, [], ◌<>◌, string_eq, nat_eq}
use evolve_loop.Types.{
  node_status_eq, execution_order_eq, evidence_status_eq, check_result_eq, verdict_eq,
}
use evolve_loop.Graph.Store.{dependencies_satisfied}
use evolve_loop.Policies.{gate_enabled}
use evolve_loop.Evidence.Builders.{build_success_evidence}
use evolve_loop.Policies.Builtin.{high_reliability}
use evolve_loop.Scheduler.{Selected}
use evolve_loop.Engine.Loop.State.{Answers, RunSetup, new_engine}
use evolve_loop.Engine.Loop.Run.{
  run, RunOutcome, RunResult, finished_run, run_threw, run_out_of_rounds, conclude, start_run,
}
use evolve_loop.Engine.Loop.Sound.{AllEarned, run-AllEarned}
use evolve_loop.Engine.Loop.Ends.Bound.{run-ends}
use evolve_loop.Samples.{pipeline, context, good_run, good_evidence}

abbrev chosen : Selected
chosen = record {
  provider_id = "cursor";
  plugin = none;
  strategy = "best";
  rejected = [];
  selection_evidence = good_evidence;
}

-- The provider succeeds at once.
abbrev answer : Answers
answer = record {
  calls = [];
  select = λ n. some chosen;
  draw = λ n. record {
    run_id = "run-" <> n.id;
    evidence_run_id = "sched-" <> n.id;
    at = "2026-01-01";
  };
  execute = λ request. some (record good_run {
    run_id = request.run_id;
    evidence = some (build_success_evidence request.node request.run_id "cursor" "2026-01-01" 20);
  });
  completed_job = λ id. none;
  load_evidence = λ path. none;
  may_wait = false;
}

abbrev setup : RunSetup
setup = record {
  context = context;
  jobs_dir = false;
  knowledge = [];
  locale_after = λ a b. false;
  leftover = new_engine;
}

abbrev outcome : RunOutcome
outcome = run setup (λ k. answer) 10 pipeline none

abbrev result_or : RunResult → RunOutcome → RunResult
result_or r (finished_run q) = q
result_or r run_threw = r
result_or r run_out_of_rounds = r

abbrev first_result : RunResult
first_result = result_or (conclude setup (start_run setup pipeline none)) outcome

abbrev has_result : RunOutcome → Bool
has_result (finished_run q) = true
has_result run_threw = false
has_result run_out_of_rounds = false

finished-result_or :
    (d : RunResult) (o : RunOutcome) → has_result o ≡ true → o ≡ finished_run (result_or d o)
finished-result_or d (finished_run q) h = refl
finished-result_or d run_threw h = absurd (cc)
finished-result_or d run_out_of_rounds h = absurd (cc)

outcome-has_result : has_result outcome ≡ true
unfolding run string_eq nat_eq node_status_eq execution_order_eq high_reliability
    dependencies_satisfied evidence_status_eq check_result_eq gate_enabled verdict_eq
outcome-has_result = refl

outcome_finished : outcome ≡ finished_run first_result
outcome_finished =
    finished-result_or (conclude setup (start_run setup pipeline none)) outcome outcome-has_result

outcome_succeeds : first_result.success ≡ true
unfolding run string_eq nat_eq node_status_eq execution_order_eq high_reliability
    dependencies_satisfied evidence_status_eq check_result_eq gate_enabled verdict_eq
outcome_succeeds = refl

run-AllEarned_example : AllEarned high_reliability first_result
run-AllEarned_example =
    run-AllEarned setup (λ k. answer) 10 pipeline none first_result tt outcome_finished

run-ends_example : run setup (λ k. answer) 501 pipeline none ≢ run_out_of_rounds
run-ends_example = run-ends setup (λ k. answer) 0 pipeline none (λ k late. refl)
