-- ===== src/Evolve/Cadence/Paced.antt =====
-- evolveloop/live/scoped-cadence.ts: how often is analyzed.
use evolve_loop.Base.{
  ℕ, ◌+◌, ◌≤◌, ◌<◌, ◌≡◌, refl, sym, ap, subst, inl, inr, true, false, Bool-cases, Option-cases,
  Bool, ◌||◌, Option, List, [], ◌∷◌, ◌++◌, lookup, length, length-append, leb, if◌then◌else◌, arith,
  ◌⊎◌,
}
use evolve_loop.Evolve.Longitudinal.{AnalysisScope}
use evolve_loop.Evolve.Cadence.{
  CadenceConfig, analysis_key, Cadence, new_cadence, Trigger, is_cooling, pruned, record_signal,
  prune_analyze_log, should_analyze, record_analyze,
}

-- The states of a cadence with the time, all analyses so far, and whether there is a consent of
-- shouldAnalyze that no analysis has used yet. Signals come in, shouldAnalyze is asked, and an analysis is
-- noted for a consent, at that time or later; it uses up the consents given before it. Time does not go
-- back.
pub data Live (c : CadenceConfig) : ℕ → List ℕ → Bool → Cadence → Type 0 where
  start : Live c 0 [] false new_cadence
  signalled :
      {now : ℕ} {all : List ℕ} {may : Bool} {s : Cadence} (scope : AnalysisScope) (count : ℕ)
      → Live c now all may s
      → Live c now all may (record_signal scope count s)
  asked :
      {now : ℕ} {all : List ℕ} {may : Bool} {s : Cadence} (scope : AnalysisScope) (how : Trigger)
      (t : ℕ)
      → now ≤ t
      → Live c now all may s
      → Live c t all (may || (should_analyze c scope how t s).0) (should_analyze c scope how t s).1
  analyzed :
      {now : ℕ} {all : List ℕ} {s : Cadence} (scope : AnalysisScope) (fingerprints : Option ℕ)
      (t : ℕ)
      → now ≤ t
      → Live c now all true s
      → Live c t (all ++ t ∷ []) false (record_analyze scope fingerprints t s)

-- How many of the times are within the minute before `now`.
abbrev pub within_minute : ℕ → List ℕ → ℕ
within_minute now [] = 0
within_minute now (t ∷ ts) = (if leb now (t + 60000) then 1 else 0) + within_minute now ts

within_minute-snoc :
    (now : ℕ) (ts : List ℕ) (t : ℕ)
    → within_minute now (ts ++ t ∷ [])
      ≡ within_minute now ts + (if leb now (t + 60000) then 1 else 0)
within_minute-snoc now [] t = omega arith
within_minute-snoc now (x ∷ ts) t = omega (arith, within_minute-snoc now ts t)

within_minute-length : (now : ℕ) (ts : List ℕ) → within_minute now ts ≤ length ts
within_minute-length now [] = omega arith
within_minute-length now (t ∷ ts) = ground (arith, within_minute-length now ts)

-- What is pruned at `now` is no more within the minute, then or later.
within_minute-prune :
    (now later : ℕ) (ts : List ℕ)
    → now ≤ later
    → within_minute later (prune_analyze_log now ts) ≡ within_minute later ts
unfolding prune_analyze_log
within_minute-prune now later [] le = refl
within_minute-prune now later (t ∷ ts) le = ground (arith, within_minute-prune now later ts le)

prune-length : (now : ℕ) (ts : List ℕ) → length (prune_analyze_log now ts) ≤ length ts
unfolding prune_analyze_log
prune-length now [] = omega arith
prune-length now (t ∷ ts) = ground (arith, prune-length now ts)

-- The log holds the analyses of the last minute, and is not longer than allowed; it has room for one more
-- where there is a consent.
record IsPaced (c : CadenceConfig) (now : ℕ) (all : List ℕ) (may : Bool) (s : Cadence)
    : Type 0 where
  counted :
      (later : ℕ) → now ≤ later → within_minute later all ≤ within_minute later s.recent_analyze_at
  bounded : length s.recent_analyze_at ≤ c.max_analyses_per_minute
  room : may ≡ true → length s.recent_analyze_at < c.max_analyses_per_minute

module _ (c : CadenceConfig) (scope : AnalysisScope) (how : Trigger) (t : ℕ) (s : Cadence) where
  -- A question either leaves the state alone and is denied, or prunes the log; a consent needs room.
  should_analyze-log :
      ((should_analyze c scope how t s ≡ (false, s)))
      ⊎ (((should_analyze c scope how t s).1 ≡ pruned t s)
          × ((should_analyze c scope how t s).0 ≡ true
              → length (pruned t s).recent_analyze_at < c.max_analyses_per_minute))
  unfolding should_analyze
  should_analyze-log = elim (Option-cases (lookup (analysis_key scope) s.scopes)) [
    | inl unknown ↦ rw (unknown, should_analyze) (inl refl)
    | inr (st, known) ↦ elim (Bool-cases (is_cooling c t st)) [
      | inl cooling ↦ rw (known, cooling, should_analyze) (inl refl)
      | inr warm ↦
          elim (Bool-cases
            (leb c.max_analyses_per_minute (length (pruned t s).recent_analyze_at))) [
              | inl full ↦ rw (known, warm, full, should_analyze) (inr (refl, λ e. cc))
              | inr room ↦ elim (Bool-cases how.after_outcome) [
                | inl outcome ↦
                    rw (known, warm, room, outcome, should_analyze) (inr (refl, λ e. ground arith))
                | inr plain ↦
                    rw (known, warm, room, plain, should_analyze) (inr (refl, λ e. ground arith))
              ]
            ]
    ]
  ]

IsPaced-pruned :
    (c : CadenceConfig) (now t : ℕ) (all : List ℕ) (may grant : Bool) (s : Cadence)
    → now ≤ t
    → IsPaced c now all may s
    → (grant ≡ true → length (pruned t s).recent_analyze_at < c.max_analyses_per_minute)
    → IsPaced c t all (may || grant) (pruned t s)
IsPaced-pruned c now t all may grant s le p free = record {
  counted = λ later after.
      let before = p.counted later (omega (arith, le, after)) in
      let same = within_minute-prune t later s.recent_analyze_at after in
      omega (arith, before, same);
  bounded = omega (arith, prune-length t s.recent_analyze_at, p.bounded);
  room = λ e. elim (Bool-cases may) [
    | inl old ↦ let had = p.room old in omega (arith, prune-length t s.recent_analyze_at, had)
    | inr none_yet ↦ free (ground (arith, e))
  ];
}

IsPaced-later :
    (c : CadenceConfig) (now t : ℕ) (all : List ℕ) (may grant : Bool) (s : Cadence)
    → now ≤ t
    → grant ≡ false
    → IsPaced c now all may s
    → IsPaced c t all (may || grant) s
IsPaced-later c now t all may grant s le refused p = record {
  counted = λ later after. p.counted later (omega (arith, le, after));
  bounded = p.bounded;
  room = λ e. p.room (ground (arith, e, refused));
}

Live-IsPaced :
    (c : CadenceConfig) (now : ℕ) (all : List ℕ) (may : Bool) (s : Cadence)
    → Live c now all may s
    → IsPaced c now all may s
unfolding record_signal record_analyze
Live-IsPaced c now all may s start = record {
  counted = λ later after. omega arith;
  bounded = omega arith;
  room = λ e. absurd (cc);
}
Live-IsPaced c now all may s (signalled {s = s0} scope count l) =
    let p = Live-IsPaced c now all may s0 l in
    record { counted = p.counted; bounded = p.bounded; room = p.room }
Live-IsPaced c t all may s (asked {now = now} {may = may0} {s = s0} scope how t' le l) =
    let p = Live-IsPaced c now all may0 s0 l in
    let grant = (should_analyze c scope how t s0).0 in
    elim (should_analyze-log c scope how t s0) [
      | inl denied ↦
          subst (λ q. IsPaced c t all (may0 || grant) q.1) (sym denied)
            (IsPaced-later c now t all may0 grant s0 le (ap (λ q. q.0) denied) p)
      | inr (log, room) ↦
          subst (IsPaced c t all (may0 || grant)) (sym log)
            (IsPaced-pruned c now t all may0 grant s0 le p room)
    ]
Live-IsPaced c t all may s
      (analyzed {now = now} {all = before} {s = s0} scope fingerprints t' le l) =
    let p = Live-IsPaced c now before true s0 l in
    record {
      counted = λ later after.
          let old = p.counted later (omega (arith, le, after)) in
          let more = within_minute-snoc later before t in
          let more' = within_minute-snoc later s0.recent_analyze_at t in
          omega (arith, old, more, more');
      bounded =
          let longer = length-append s0.recent_analyze_at (t ∷ []) in
          let free = p.room refl in omega (arith, free, longer);
      room = λ e. absurd (cc);
    }

-- However signals, questions and analyses follow each other, as long as time does not go back, each
-- analysis is noted at or after a consent of shouldAnalyze, and no two analyses use the consents given
-- since the analysis before, at every moment the last minute holds at most `max_analyses_per_minute`
-- analyses.
pub rate_limited :
    (c : CadenceConfig) (now : ℕ) (all : List ℕ) (may : Bool) (s : Cadence)
    → Live c now all may s
    → within_minute now all ≤ c.max_analyses_per_minute
rate_limited c now all may s l =
    let p = Live-IsPaced c now all may s l in
    let counted = p.counted now (omega arith) in
    omega (arith, counted, within_minute-length now s.recent_analyze_at, p.bounded)
