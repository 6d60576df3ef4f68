-- ===== src/Samples/Evolution.antt =====
-- Sample observations, and the theorems about the observer at them.
use evolve_loop.Base.{
  String, ◌≡◌, refl, true, false, none, some, List, [], ◌∷◌, All, string_eq, nat_eq, none-not-some,
}
use evolve_loop.Evolve.Signal.{RawObservation, SignalType, scope_kind_eq, scope_class_eq}
use evolve_loop.Evolve.Need.{level_eq, need_status_eq, candidate_type_eq, requested_action_eq}
use evolve_loop.Evolve.Host.{Host}
use evolve_loop.Evolve.Miner.{mine}
use evolve_loop.Evolve.Miner.Once.{Mined, mine-Mined, mine-twice}
use evolve_loop.Evolve.Patterns.{detect_patterns}
use evolve_loop.Evolve.Patterns.Recurrent.{RestsOn, detect_patterns-RestsOn}
use evolve_loop.Evolve.Controller.{Memory, run_pass}
use evolve_loop.Evolve.Judge.{PassOptions}
use evolve_loop.Evolve.Recurring.{Orderly, run_pass-Orderly}

-- A digest that keeps the text, a time that is always known, and an order in which all texts are equal.
abbrev pub host : Host
host = record { digest = λ n s. s; parse_time = λ s. some 1000; text_after = λ a b. false }

abbrev pub observation : String → RawObservation
observation execution = record {
  id = "obs";
  timestamp = "2026-01-01";
  source = "telemetry";
  synthetic = none;
  execution_id = some execution;
  feature_id = none;
  user_id = some "ana";
  project_id = none;
  domain = some "frontend";
  task_class = some "build";
  kind = SignalType.capability_unavailable;
  severity = none;
  metadata = none;
  evidence_refs = none;
}

-- The third is the first again.
abbrev pub observations : List RawObservation
observations = observation "e1" ∷ observation "e2" ∷ observation "e1" ∷ observation "e3" ∷ []

abbrev pub empty_memory : Memory
empty_memory = record { signals = []; needs = []; candidates = [] }

abbrev pub options : PassOptions
options = record { depth = 0; now = 2000; now_text = "2026-01-01"; handoff = true }

one_submission : (run_pass host options empty_memory observations).0.tally.submitted ≡ 1
unfolding run_pass string_eq nat_eq scope_kind_eq scope_class_eq level_eq need_status_eq
    candidate_type_eq requested_action_eq
one_submission = refl

run_pass-Orderly_example :
    Orderly
      (run_pass host options empty_memory observations).0
      (run_pass host options empty_memory observations).1
run_pass-Orderly_example =
    run_pass-Orderly host options empty_memory observations (λ k n h. absurd (none-not-some h))

mine-Mined_example :
    Mined host [] observations (mine host [] observations).0 (mine host [] observations).1
mine-Mined_example = mine-Mined host [] observations

mine-twice_example :
    mine host (mine host [] observations).1 observations ≡ ([], (mine host [] observations).1)
mine-twice_example = mine-twice host [] observations

detect_patterns-RestsOn_example :
    All
      (RestsOn host 3 168 2000 (mine host [] observations).0)
      (detect_patterns host 3 168 2000 (mine host [] observations).0)
detect_patterns-RestsOn_example =
    detect_patterns-RestsOn host 3 168 2000 (mine host [] observations).0
