-- ===== src/Engine/Loop/Ends/Bound.antt =====
-- engine/execution-engine.ts: how many iterations the loop of run() makes.
use evolve_loop.Base.{
  ℕ, zero, suc, ◌+◌, ◌≤◌, ◌≡◌, refl, ◌≢◌, ◌<◌, true, false, Bool-cases, inl, inr, List, [], ◌∷◌,
  any, ltb, arith, Option, none,
}
use evolve_loop.Types.{CapabilityIr, GraphSnapshot}
use evolve_loop.Graph.Store.{is_finished}
use evolve_loop.Ir.Validate.{validate_ir}
use evolve_loop.Engine.Loop.State.{
  LoopState, Call, pause, resume, abort, request_replan, Answers, RunSetup, Turn, go_on, leave,
  throws, take_call, take_calls,
}
use evolve_loop.Engine.Loop.Round.{round}
use evolve_loop.Engine.Loop.Run.{
  Ending, ended, threw, out_of_rounds, counted, goes_on, run_loop, start_run, stops_run,
  run_out_of_rounds, outcome_of, run,
}
use evolve_loop.Engine.Loop.Backed.Rounds.{After}
use evolve_loop.Engine.Loop.Ends.{Counts, round-Counts}

take_calls-iterations :
    (cs : List Call) (s : LoopState) → (take_calls cs s).iterations ≡ s.iterations
take_calls-iterations [] s = refl
take_calls-iterations (pause ∷ cs) s = take_calls-iterations cs (take_call pause s)
take_calls-iterations (resume ∷ cs) s = take_calls-iterations cs (take_call resume s)
take_calls-iterations (abort ∷ cs) s = take_calls-iterations cs (take_call abort s)
take_calls-iterations (request_replan ir ∷ cs) s =
    take_calls-iterations cs (take_call (request_replan ir) s)

-- The loop goes on only while less than 500 iterations are counted, and counts one more.
goes_on-counted :
    (s : LoopState)
    → goes_on s ≡ true
    → (s.iterations < 500) × ((counted s).iterations ≡ s.iterations + 1)
goes_on-counted s on = elim (Bool-cases (is_finished s.engine.graph)) [
  | inl done ↦ absurd (ground arith)
  | inr more ↦ (ground arith, rw (more, counted) refl)
]

turn_ends :
    (P : LoopState → Type 0) (next : LoopState → Ending) (t : Turn)
    → After P t
    → ((s : LoopState) → P s → next s ≢ out_of_rounds)
    → elim t [ throws ↦ threw | leave s ↦ ended s | go_on s ↦ next s ] ≢ out_of_rounds
turn_ends P next (go_on s) p rounds = rounds s p
turn_ends P next (leave s) p rounds = λ e. cc
turn_ends P next throws p rounds = λ e. cc

After-anything : (t : Turn) → After (λ s. Unit) t
After-anything (go_on s) = tt
After-anything (leave s) = tt
After-anything throws = tt

module _ (setup : RunSetup) (answers : ℕ → Answers) (w : ℕ)
    (over : (k : ℕ) → w ≤ k → (answers k).may_wait ≡ false) where
  -- Where the time to wait is over, each iteration is counted.
  counted_rounds-end :
      (fuel k : ℕ) (s : LoopState)
      → w ≤ k
      → 1 ≤ fuel
      → 501 ≤ fuel + s.iterations
      → run_loop setup answers fuel k s ≢ out_of_rounds
  unfolding run_loop
  counted_rounds-end zero k s late some_fuel enough = absurd (omega arith)
  counted_rounds-end (suc fuel) k s late some_fuel enough =
      let s' = take_calls (answers k).calls s in
      let same = take_calls-iterations (answers k).calls s in
      elim (Bool-cases (goes_on s')) [
        | inr stop ↦ rw (stop, run_loop) (λ e. cc)
        | inl on ↦
            let (below, one_more) = goes_on-counted s' on in
            let i = (counted s').iterations in
            rw (on, run_loop)
              (turn_ends (Counts i) _ (round setup (answers k) (counted s'))
                (round-Counts setup (answers k) i (over k late) (counted s') refl)
                (λ t c.
                  counted_rounds-end fuel (suc k) t (omega arith) (omega arith) (omega arith)))
      ]

  all_rounds-end :
      (fuel k : ℕ) (s : LoopState)
      → k ≤ w
      → w + 501 ≤ fuel + k
      → run_loop setup answers fuel k s ≢ out_of_rounds
  unfolding run_loop
  all_rounds-end zero k s early enough = absurd (omega arith)
  all_rounds-end (suc fuel) k s early enough = elim (Bool-cases (ltb k w)) [
    | inr now ↦ counted_rounds-end (suc fuel) k s (ground arith) (omega arith) (ground arith)
    | inl before ↦
        let s' = take_calls (answers k).calls s in
        elim (Bool-cases (goes_on s')) [
          | inr stop ↦ rw (stop, run_loop) (λ e. cc)
          | inl on ↦
              rw (on, run_loop)
                (turn_ends (λ t. Unit) _ (round setup (answers k) (counted s'))
                  (After-anything (round setup (answers k) (counted s')))
                  (λ t u. all_rounds-end fuel (suc k) t (ground arith) (omega arith)))
        ]
  ]

outcome_of-ends :
    (setup : RunSetup) (o : Ending) → o ≢ out_of_rounds → outcome_of setup o ≢ run_out_of_rounds
outcome_of-ends setup (ended s) n = λ e. cc
outcome_of-ends setup threw n = λ e. cc
outcome_of-ends setup out_of_rounds n = λ e. n refl

-- Every run ends, with a result or an exception: if from iteration `w` on the time to wait for jobs is
-- over, `w + 501` iterations are enough, whatever else the environment answers.
pub run-ends :
    (setup : RunSetup) (answers : ℕ → Answers) (w : ℕ) (ir : CapabilityIr)
    (checkpoint : Option GraphSnapshot)
    → ((k : ℕ) → w ≤ k → (answers k).may_wait ≡ false)
    → run setup answers (w + 501) ir checkpoint ≢ run_out_of_rounds
unfolding run start_run
run-ends setup answers w ir checkpoint over =
    elim (Bool-cases (any stops_run (validate_ir ir none))) [
      | inl stopped ↦ rw (stopped, run) (λ e. cc)
      | inr valid ↦
          rw (valid, run)
            (outcome_of-ends setup _ (
              all_rounds-end setup answers w over (w + 501) 0 (start_run setup ir checkpoint)
                (omega arith) (omega arith)))
    ]
