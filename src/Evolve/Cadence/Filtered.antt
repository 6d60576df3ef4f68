-- ===== src/Evolve/Cadence/Filtered.antt =====
-- evolveloop/live/scoped-cadence.ts: which requests filterRequests lets pass.
use evolve_loop.Base.{
  ℕ, ◌+◌, String, ◌≡◌, refl, sym, ap, ◌∙◌, inl, inr, true, false, Bool-cases, some, List, [], ◌∷◌,
  map, All, lookup, lookup-insert, Dict, contains, Distinct, get_or, arith, string_eq,
}
use evolve_loop.Evolve.Need.{EvolutionRequest}
use evolve_loop.Evolve.Cadence.{
  CadenceConfig, Cadence, RequestHistory, is_held, count_request, filter_each, filter_requests,
}

abbrev pub needs_of : List EvolutionRequest → List String
needs_of rs = map (λ (r : EvolutionRequest). r.source_need) rs

-- The history knows that a request for the need passed at that time.
abbrev pub IsNoted : ℕ → Dict RequestHistory → EvolutionRequest → Type 0
IsNoted now m r = (h : RequestHistory) × (lookup r.source_need m ≡ some h) × (h.last_at ≡ now)

-- What passes of requests, with the history before and after: no need twice, none that was held back, and
-- each is noted.
pub record Passed (c : CadenceConfig) (now : ℕ) (before : Dict RequestHistory)
    (out : List EvolutionRequest) (after : Dict RequestHistory) : Type 0 where
  pub distinct : Distinct (needs_of out)
  pub allowed : All (λ r. is_held c now (lookup r.source_need before) ≡ false) out
  pub noted : All (IsNoted now after) out

All-both :
    {A : Type 0} (P Q R : A → Type 0) (xs : List A)
    → All P xs
    → All Q xs
    → ((x : A) → P x → Q x → R x)
    → All R xs
All-both P Q R [] p q f = tt
All-both P Q R (x ∷ xs) p q f = (f x p.0 q.0, All-both P Q R xs p.1 q.1 f)

module _ (c : CadenceConfig) (now : ℕ) where
  -- The same, with the needs seen before: none of them passes, and their history stays.
  record PassedAfter (seen : List String) (m : Dict RequestHistory) (out : List EvolutionRequest)
      (last : Dict RequestHistory) : Type 0 where
    passed : Passed c now m out last
    unseen : All (λ (r : EvolutionRequest). contains seen r.source_need ≡ false) out
    kept : (k : String) → contains seen k ≡ true → lookup k last ≡ lookup k m

  absent_need :
      (need : String) (seen : List String) (out : List EvolutionRequest)
      → All (λ (r : EvolutionRequest). contains (need ∷ seen) r.source_need ≡ false) out
      → contains (needs_of out) need ≡ false
  absent_need need seen [] all = refl
  absent_need need seen (r ∷ out) all =
      let rest = absent_need need seen out all.1 in let here = all.0 in ground arith

  weaken_unseen :
      (need : String) (seen : List String) (out : List EvolutionRequest)
      → All (λ (r : EvolutionRequest). contains (need ∷ seen) r.source_need ≡ false) out
      → All (λ (r : EvolutionRequest). contains seen r.source_need ≡ false) out
  weaken_unseen need seen [] all = tt
  weaken_unseen need seen (r ∷ out) all =
      (let here = all.0 in ground arith, weaken_unseen need seen out all.1)

  -- A request that is held back only marks its need as seen.
  held_back :
      (need : String) (seen : List String) (m : Dict RequestHistory) (out : List EvolutionRequest)
      (last : Dict RequestHistory)
      → PassedAfter (need ∷ seen) m out last
      → PassedAfter seen m out last
  held_back need seen m out last p = record {
    passed = p.passed;
    unseen = weaken_unseen need seen out p.unseen;
    kept = λ k known. p.kept k (ground arith);
  }

  lets_pass :
      (r : EvolutionRequest) (seen : List String) (m : Dict RequestHistory)
      (out : List EvolutionRequest) (last : Dict RequestHistory)
      → contains seen r.source_need ≡ false
      → is_held c now (lookup r.source_need m) ≡ false
      → PassedAfter (r.source_need ∷ seen) (count_request now r.source_need m) out last
      → PassedAfter seen m (r ∷ out) last
  lets_pass r seen m out last new free p =
      let need = r.source_need in
      let prev = get_or (lookup need m) (record { last_at = 0; count = 0 }) in
      let entry : RequestHistory = record { last_at = now; count = prev.count + 1 } in
      let at = λ (k : String). lookup-insert need k entry m in
      record {
        passed = record {
          distinct = (absent_need need seen out p.unseen, p.passed.distinct);
          allowed = (
            free,
            All-both (λ q. is_held c now (lookup q.source_need (count_request now need m)) ≡ false)
                (λ (q : EvolutionRequest). contains (need ∷ seen) q.source_need ≡ false)
                (λ q. is_held c now (lookup q.source_need m) ≡ false) out p.passed.allowed p.unseen
                (λ q ok other.
                  let same : lookup q.source_need (count_request now need m)
                      ≡ lookup q.source_need m =
                    ground (arith, at q.source_need) in
                  ap (is_held c now) (sym same) ∙ ok),
          );
          noted =
              ((entry, p.kept need (ground arith) ∙ ground (arith, at need), refl), p.passed.noted);
        };
        unseen = (new, weaken_unseen need seen out p.unseen);
        kept = λ k known. p.kept k (ground arith) ∙ ground (arith, at k);
      }

  filter_each-PassedAfter :
      (seen : List String) (m : Dict RequestHistory) (rs : List EvolutionRequest)
      → PassedAfter seen m (filter_each c now seen m rs).0 (filter_each c now seen m rs).1
  unfolding filter_each
  filter_each-PassedAfter seen m [] = record {
    passed = record { distinct = tt; allowed = tt; noted = tt };
    unseen = tt;
    kept = λ k known. refl;
  }
  filter_each-PassedAfter seen m (r ∷ rs) = elim (Bool-cases (contains seen r.source_need)) [
    | inl again ↦ rw (again, filter_each) (filter_each-PassedAfter seen m rs)
    | inr new ↦ elim (Bool-cases (is_held c now (lookup r.source_need m))) [
      | inl held ↦
          rw (new, held, filter_each)
            (held_back r.source_need seen m _ _
              (filter_each-PassedAfter (r.source_need ∷ seen) m rs))
      | inr free ↦
          rw (new, free, filter_each)
            (lets_pass r seen m _ _ new free (
              filter_each-PassedAfter (r.source_need ∷ seen) (count_request now r.source_need m)
                rs))
    ]
  ]

-- filterRequests lets at most one request for each need pass, none that its history holds back, and
-- afterwards the history notes each that passed, at that time.
pub filter_requests-Passed :
    (c : CadenceConfig) (now : ℕ) (s : Cadence) (rs : List EvolutionRequest)
    → Passed c now s.request_history
        (filter_requests c now s rs).0
        (filter_requests c now s rs).1.request_history
unfolding filter_requests
filter_requests-Passed c now s rs = (filter_each-PassedAfter c now [] s.request_history rs).passed
