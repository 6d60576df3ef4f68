-- ===== src/Evolve/Controller.antt =====
-- evolveloop/controller.ts, with submitEvolutionRequest of evolveloop/handoff/evolution-request.ts: one
-- pass from observations to requests. The files that are written are kept as the list `handed`.
use evolve_loop.Base.{
  ℕ, String, ◌<>◌, Bool, Option, none, some, List, [], ◌∷◌, ◌++◌, Dict, map, keep, find, any,
  length, ltb, ◌==◌, if◌then◌else◌, string_eq, insert,
}
use evolve_loop.Evolve.Signal.{RawObservation, NeedSignal, DetectedPattern}
use evolve_loop.Evolve.Need.{
  NeedStatus, need_status_eq, NeedCandidate, RootCauseAnalysis, EvolutionCandidate,
  requested_action_eq,
}
use evolve_loop.Evolve.Judge.{Phase, PassOptions, Tally, judge_all}
use evolve_loop.Evolve.Host.{Host, join}
use evolve_loop.Evolve.Miner.{mine}
use evolve_loop.Evolve.Patterns.{detect_patterns}
use evolve_loop.Evolve.Needs.{detect_needs, analyze}
use evolve_loop.Evolve.Candidates.{generate}

-- What the parts of a controller remember.
pub record Memory : Type 0 where
  pub signals : Dict NeedSignal
  pub needs : Dict NeedCandidate
  pub candidates : Dict EvolutionCandidate

abbrev pub max_loop_depth : ℕ
max_loop_depth = 2

abbrev pub min_pattern_frequency : ℕ
min_pattern_frequency = 3

abbrev pub pattern_window_hours : ℕ
pattern_window_hours = 168

abbrev pub generate_for :
    Host
    → Dict EvolutionCandidate
    → NeedCandidate
    → Option RootCauseAnalysis
    → List EvolutionCandidate × Dict EvolutionCandidate
generate_for h emitted n none = ([], emitted)
generate_for h emitted n (some rca) = generate h emitted n rca

-- The candidates of all needs, in their order.
unfoldable pub generate_all :
    Host
    → List RootCauseAnalysis
    → Dict EvolutionCandidate
    → List NeedCandidate
    → List EvolutionCandidate × Dict EvolutionCandidate
unfolding generate
generate_all h causes emitted [] = ([], emitted)
generate_all h causes emitted (n ∷ ns) =
    let (cs, emitted') =
      generate_for h emitted n (find (λ (r : RootCauseAnalysis). r.need_id == n.id) causes) in
    let (more, last) = generate_all h causes emitted' ns in (cs ++ more, last)

abbrev pub is_candidate : NeedCandidate → Bool
is_candidate n = n.status == NeedStatus.candidate

abbrev pub first_phase : List NeedCandidate → (candidates : ℕ) → Phase
first_phase needs candidates =
    if ltb 0 candidates
    then Phase.candidate_generated
    else if any is_candidate needs
    then Phase.root_cause_analysis
    else if any (λ (n : NeedCandidate). n.status == NeedStatus.insufficient_evidence) needs
    then Phase.insufficient_evidence
    else Phase.observing

abbrev pub first_notes : List NeedCandidate → List String
first_notes needs =
    if any is_candidate needs then [] else "no_need_candidate_or_insufficient_evidence" ∷ []

pub record PassResult : Type 0 where
  pub evolve_run_id : String
  pub need_count : ℕ
  pub signals : List NeedSignal
  pub patterns : List DetectedPattern
  pub needs : List NeedCandidate
  pub root_causes : List RootCauseAnalysis
  pub tally : Tally

-- The sources of the signals by their ids.
abbrev pub source_map : Dict String → List NeedSignal → Dict String
source_map m [] = m
source_map m (s ∷ ss) = source_map (insert s.id s.source m) ss

abbrev pub empty_tally : Tally
empty_tally = record {
  phase = Phase.blocked;
  blocked = 1;
  submitted = 0;
  validated = [];
  requests = [];
  handed = [];
  notes = "max_loop_depth_exceeded" ∷ [];
}

abbrev pub empty_result : PassResult
empty_result = record {
  evolve_run_id = "evolve-blocked";
  need_count = 0;
  signals = [];
  patterns = [];
  needs = [];
  root_causes = [];
  tally = empty_tally;
}

-- The body of `run`, below the greatest depth.
unfoldable pub pass : Host → PassOptions → Memory → List RawObservation → PassResult × Memory
unfolding mine detect_patterns detect_needs analyze generate_all judge_all
pass h o m observations =
    let (signals, seen) = mine h m.signals observations in
    let patterns = detect_patterns h min_pattern_frequency pattern_window_hours o.now signals in
    let (needs, known) = detect_needs h (source_map [] signals) m.needs patterns in
    let causes = map (λ (n : NeedCandidate). analyze n patterns) needs in
    let (candidates, emitted) = generate_all h causes m.candidates needs in
    let start : Tally = record {
      phase = first_phase needs (length candidates);
      blocked = 0;
      submitted = 0;
      validated = [];
      requests = [];
      handed = [];
      notes = first_notes needs;
    } in
    (
      record {
        evolve_run_id =
            "evolve-" <> h.digest 12 (join "," (map (λ (s : NeedSignal). s.id) signals));
        need_count = length (keep is_candidate needs);
        signals = signals;
        patterns = patterns;
        needs = needs;
        root_causes = causes;
        tally = judge_all o needs causes start candidates;
      },
      record { signals = seen; needs = known; candidates = emitted },
    )

unfoldable pub run_pass : Host → PassOptions → Memory → List RawObservation → PassResult × Memory
unfolding pass
run_pass h o m observations =
    if ltb max_loop_depth o.depth then (empty_result, m) else pass h o m observations
