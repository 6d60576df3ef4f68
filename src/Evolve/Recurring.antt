-- ===== src/Evolve/Recurring.antt =====
-- evolveloop/controller.ts with need-detector.ts: needs rest on enough signals, in every pass.
use evolve_loop.Base.{
  ◌≤◌, String, ◌≡◌, refl, sym, ◌∙◌, subst, inl, inr, Bool-cases, Option-cases, some, List, [], ◌∷◌,
  keep, map, All, length, leb, ltb, Dict, lookup, insert, lookup-insert, ◌==◌, arith, string_eq,
  some_injective,
}
use evolve_loop.Evolve.Signal.{RawObservation, DetectedPattern}
use evolve_loop.Evolve.Need.{NeedCandidate}
use evolve_loop.Evolve.Host.{Host}
use evolve_loop.Evolve.Miner.{mine}
use evolve_loop.Evolve.Patterns.{detect_patterns}
use evolve_loop.Evolve.Needs.{min_need_signals, need_fingerprint, known_need, detect_needs, analyze}
use evolve_loop.Evolve.Controller.{
  Memory, PassResult, generate_all, first_phase, first_notes, source_map, max_loop_depth,
  min_pattern_frequency, pattern_window_hours, pass, run_pass,
}
use evolve_loop.Evolve.Judge.{PassOptions, Tally}
use evolve_loop.Evolve.Authorized.{Authorized}
use evolve_loop.Evolve.Authorized.Judged.{is_submission, judge_all-Judged}

-- A need that rests on at least three signals.
abbrev pub Recurs : NeedCandidate → Type 0
Recurs n = 3 ≤ length n.signal_ids

-- So do the needs that are remembered.
abbrev pub AllRecur : Dict NeedCandidate → Type 0
AllRecur m = (k : String) (n : NeedCandidate) → lookup k m ≡ some n → Recurs n

AllRecur-insert :
    (k : String) (n : NeedCandidate) (m : Dict NeedCandidate)
    → Recurs n
    → AllRecur m
    → AllRecur (insert k n m)
AllRecur-insert k n m r all j i h =
    let e = lookup-insert k j n m in
    elim (Bool-cases (k == j)) [
      | inl same ↦ subst Recurs (some_injective (sym (rw same at e) ∙ h)) r
      | inr other ↦ all j i (sym (rw other at e) ∙ h)
    ]

module _ (h : Host) where
  known_need-Recurs :
      (sources : Dict String) (emitted : Dict NeedCandidate) (p : DetectedPattern)
      → 3 ≤ length p.signal_ids
      → AllRecur emitted
      → Recurs (known_need h emitted sources p)
  known_need-Recurs sources emitted p enough all =
      elim (Option-cases (lookup (need_fingerprint h p) emitted)) [
        | inl fresh ↦ rw fresh enough
        | inr (n, known) ↦ rw known (all (need_fingerprint h p) n known)
      ]

  pub detect_needs-Recurs :
      (sources : Dict String) (emitted : Dict NeedCandidate) (ps : List DetectedPattern)
      → AllRecur emitted
      → All Recurs (detect_needs h sources emitted ps).0
        × AllRecur (detect_needs h sources emitted ps).1
  unfolding detect_needs
  detect_needs-Recurs sources emitted [] all = (tt, all)
  detect_needs-Recurs sources emitted (p ∷ ps) all =
      let need = known_need h emitted sources p in
      elim (Bool-cases (leb min_need_signals (length p.signal_ids))) [
        | inr few ↦ rw (few, detect_needs) (detect_needs-Recurs sources emitted ps all)
        | inl enough ↦
            let r = known_need-Recurs sources emitted p (ground arith) all in
            let (here, last) =
              detect_needs-Recurs sources (insert (need_fingerprint h p) need emitted) ps
                (AllRecur-insert (need_fingerprint h p) need emitted r all) in
            rw (enough, detect_needs) ((r, here), last)
      ]

-- What holds after a pass with the result `r`, which leaves the memory `m`.
pub record Orderly (r : PassResult) (m : Memory) : Type 0 where
  pub authorized : All (Authorized r.needs r.root_causes) r.tally.handed
  pub submissions : r.tally.submitted ≡ length (keep is_submission r.tally.handed)
  pub recurring : All Recurs r.needs
  pub remembered : AllRecur m.needs

-- Whatever is observed, in every pass that starts with needs that rest on at least three signals each,
-- all needs do and will, and every request that is handed on is for such a need and a cause of the pass:
-- its candidate is a change that was found without fault, it is submitted exactly where the need does not
-- concern the core and held where it does, it claims no more than to propose, and the submissions are
-- counted.
pub run_pass-Orderly :
    (h : Host) (o : PassOptions) (m : Memory) (observations : List RawObservation)
    → AllRecur m.needs
    → Orderly (run_pass h o m observations).0 (run_pass h o m observations).1
unfolding run_pass pass
run_pass-Orderly h o m observations all = elim (Bool-cases (ltb max_loop_depth o.depth)) [
  | inl deep ↦
      rw (deep, run_pass)
        (record { authorized = tt; submissions = refl; recurring = tt; remembered = all })
  | inr near ↦
      let signals = (mine h m.signals observations).0 in
      let patterns = detect_patterns h min_pattern_frequency pattern_window_hours o.now signals in
      let sources = source_map [] signals in
      let needs = (detect_needs h sources m.needs patterns).0 in
      let causes = map (λ (n : NeedCandidate). analyze n patterns) needs in
      let candidates = (generate_all h causes m.candidates needs).0 in
      let (recurring, remembered) = detect_needs-Recurs h sources m.needs patterns all in
      let start : Tally = record {
        phase = first_phase needs (length candidates);
        blocked = 0;
        submitted = 0;
        validated = [];
        requests = [];
        handed = [];
        notes = first_notes needs;
      } in
      let j =
        judge_all-Judged needs causes o 0 start candidates
          (record { authorized = tt; submissions = refl; judged = refl; requested = refl }) in
      rw (near, run_pass)
        (record {
          authorized = j.authorized;
          submissions = j.submissions;
          recurring = recurring;
          remembered = remembered;
        })
]
