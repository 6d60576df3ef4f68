-- ===== src/Evolve/Pacing/Seeded.antt =====
-- evolveloop/cadence.ts: what the needs of a store change in filterRequests.
use evolve_loop.Base.{
  ℕ, ◌≤◌, String, ◌≡◌, refl, sym, ap, ◌∙◌, inl, inr, Bool-cases, Option, Option-cases, none, some,
  List, [], ◌∷◌, Dict, lookup, insert, lookup-insert, contains, get_or, ◌==◌, arith, string_eq,
  string_cases,
}
use evolve_loop.Evolve.Need.{EvolutionRequest}
use evolve_loop.Evolve.Longitudinal.{LongitudinalNeed}
use evolve_loop.Evolve.Cadence.{CadenceConfig, RequestHistory, is_held, count_request, filter_each}
use evolve_loop.Evolve.Pacing.{
  AnalysisCadenceOptions, AnalysisCadence, no_requests, seed_history, request_limits,
  filter_seeded_requests,
}

-- The histories tell the same of each need, where none known is none counted.
Alike : Dict RequestHistory → Dict RequestHistory → Type 0
Alike m m' = (k : String) → get_or (lookup k m) no_requests ≡ get_or (lookup k m') no_requests

is_held-get_or :
    (c : CadenceConfig) (now : ℕ) (o : Option RequestHistory)
    → 1 ≤ c.max_requests_per_need
    → is_held c now o ≡ is_held c now (some (get_or o no_requests))
is_held-get_or c now none le = ground arith
is_held-get_or c now (some h) le = refl

count_request-Alike :
    (now : ℕ) (need : String) (m m' : Dict RequestHistory)
    → Alike m m'
    → Alike (count_request now need m) (count_request now need m')
unfolding Alike
count_request-Alike now need m m' same k =
    let here = same need in
    let there = same k in
    rw (lookup-insert need k _ m, lookup-insert need k _ m')
      (elim (Bool-cases (need == k)) [
        | inl own ↦ rw (own, here) refl
        | inr other ↦ rw (other) there
      ])

filter_each-Alike :
    (c : CadenceConfig) (now : ℕ) (seen : List String) (m m' : Dict RequestHistory)
    (rs : List EvolutionRequest)
    → 1 ≤ c.max_requests_per_need
    → Alike m m'
    → (filter_each c now seen m rs).0 ≡ (filter_each c now seen m' rs).0
unfolding filter_each Alike
filter_each-Alike c now seen m m' [] le same = refl
filter_each-Alike c now seen m m' (r ∷ rs) le same =
    let here = same r.source_need in
    let alike : is_held c now (lookup r.source_need m) ≡ is_held c now (lookup r.source_need m') =
      is_held-get_or c now (lookup r.source_need m) le
      ∙ ap (λ o. is_held c now (some o)) here
      ∙ sym (is_held-get_or c now (lookup r.source_need m') le) in
    elim (Bool-cases (contains seen r.source_need)) [
      | inl known ↦ rw (known, filter_each) (filter_each-Alike c now seen m m' rs le same)
      | inr new ↦ elim (Bool-cases (is_held c now (lookup r.source_need m))) [
        | inl held ↦
            let held' = sym alike ∙ held in
            rw (new, held, held', filter_each)
              (filter_each-Alike c now (r.source_need ∷ seen) m m' rs le same)
        | inr free ↦
            let free' = sym alike ∙ free in
            rw (new, free, free', filter_each)
              (ap (λ out. r ∷ out)
                (filter_each-Alike c now (r.source_need ∷ seen) (count_request now r.source_need m)
                  (count_request now r.source_need m') rs le
                  (count_request-Alike now r.source_need m m' same)))
      ]
    ]

seed_history-Alike :
    (ns : List LongitudinalNeed) (m : Dict RequestHistory) → Alike (seed_history ns m) m
unfolding seed_history Alike
seed_history-Alike [] m k = refl
seed_history-Alike (n ∷ ns) m k = elim (Option-cases (lookup n.fingerprint m)) [
  | inr (h, known) ↦ rw (known) (seed_history-Alike ns m k)
  | inl new ↦ rw (new) (
      seed_history-Alike ns (insert n.fingerprint no_requests m) k
      ∙ rw (lookup-insert n.fingerprint k no_requests m) (elim (Bool-cases (n.fingerprint == k)) [
        | inl own ↦
            let same = string_cases n.fingerprint k in
            let absent : lookup k m ≡ none = ground (arith, same, new) in rw (own, absent) refl
        | inr other ↦ rw (other) refl
      ]))
]

-- Where a need may have one request at least, the needs of the store change nothing in which requests
-- pass.
pub filter_seeded_requests-unseeded :
    (c : AnalysisCadenceOptions) (now : ℕ) (needs : List LongitudinalNeed) (s : AnalysisCadence)
    (rs : List EvolutionRequest)
    → 1 ≤ c.max_requests_per_need
    → (filter_seeded_requests c now needs s rs).0 ≡ (filter_seeded_requests c now [] s rs).0
unfolding filter_seeded_requests seed_history
filter_seeded_requests-unseeded c now needs s rs le =
    filter_each-Alike (request_limits c) now [] _ _ rs le
      (seed_history-Alike needs s.request_history)
