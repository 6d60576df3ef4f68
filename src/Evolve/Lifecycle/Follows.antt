-- ===== src/Evolve/Lifecycle/Follows.antt =====
-- evolveloop/lifecycle/need-lifecycle.ts: the latest outcome decides the state of a need that is seen again.
use mathlib.Core.List.Memᴰ
use evolve_loop.Base.{
  ℕ, ◌≤◌, String, ◌≡◌, refl, sym, ap, ◌∙◌, ◌≢◌, subst, ◌⊎◌, ◌↔◌, inl, inr, Bool, true, false,
  Bool-cases, Option-cases, Option, none, some, List, [], ◌∷◌, keep, sort, mem-sort, sort-mem, ◌==◌,
  arith, string_eq, string_cases, Memᴰ, none-not-some, some_injective,
}
use evolve_loop.Evolve.Host.{Host}
use evolve_loop.Evolve.Longitudinal.{
  NeedLifecycle, OutcomeKind, LongitudinalNeed, LongitudinalPattern,
}
use evolve_loop.Evolve.Outcome.{EvolutionOutcome}
use evolve_loop.Evolve.Lifecycle.{
  created_after, last_outcome, is_for, outcome_by_id, find_outcome_for_need, lifecycle_of,
  lifecycle_from_outcome, id_of, lifecycle_fingerprint,
}
use evolve_loop.Evolve.Lifecycle.Detect.{need_for, outcome_for}
use evolve_loop.Evolve.Lifecycle.Decided.{need_for-outcome}
use evolve_loop.Evolve.Lifecycle.Latest.{
  time, sort-Ascending, last_outcome-max, last_outcome-some, by_need-last, by_need-some,
}

-- The outcome names the need, by its id where the need is known, or by its fingerprint.
abbrev pub IsFor : Option String → (fingerprint : String) → EvolutionOutcome → Type 0
IsFor id fingerprint o = (o.need_fingerprint ≡ fingerprint) ⊎ (id ≡ some o.need_id)

-- The latest of the outcomes with the id of the need, which is not empty; where there is none with it, the
-- latest of those that name the need.
pub record IsLatest (h : Host) (id : Option String) (fingerprint : String)
    (os : List EvolutionOutcome) (o : EvolutionOutcome) : Type 0 where
  pub listed : Memᴰ o os
  pub names : IsFor id fingerprint o
  pub of_id :
      (i : String) (q : EvolutionOutcome)
      → id ≡ some i
      → i ≢ ""
      → Memᴰ q os
      → q.need_id ≡ i
      → (o.need_id ≡ i) × (time h q ≤ time h o)
  pub of_any :
      ((i : String) → id ≡ some i → i ≢ "" → o.need_id ≢ i)
      → (q : EvolutionOutcome) → Memᴰ q os
      → IsFor id fingerprint q
      → time h q ≤ time h o

-- The state that an outcome stands for.
pub record Follows (k : OutcomeKind) (l : NeedLifecycle) : Type 0 where
  pub resolves : k ≡ OutcomeKind.improved → l ≡ NeedLifecycle.resolved
  pub regresses : k ≡ OutcomeKind.regressed → l ≡ NeedLifecycle.regressed
  pub stays : k ≡ OutcomeKind.unchanged → l ≡ NeedLifecycle.remains_active
  pub stays_open : k ≡ OutcomeKind.inconclusive → l ≡ NeedLifecycle.remains_active

lifecycle_from_outcome-Follows : (k : OutcomeKind) → Follows k (lifecycle_from_outcome k)
unfolding lifecycle_from_outcome
lifecycle_from_outcome-Follows k = record {
  resolves = λ e. rw e refl;
  regresses = λ e. rw e refl;
  stays = λ e. rw e refl;
  stays_open = λ e. rw e refl;
}

mem-keep :
    (p : EvolutionOutcome → Bool) (os : List EvolutionOutcome) (o : EvolutionOutcome)
    → Memᴰ o (keep p os)
    → Memᴰ o os × (p o ≡ true)
mem-keep p [] o m = absurd (Memᴰ.not-nil m)
mem-keep p (q ∷ os) o m = elim (Bool-cases (p q)) [
  | inr off ↦ let (mem, e) = mem-keep p os o (rw off at m) in (Memᴰ.tail mem, e)
  | inl on ↦ here (mem-keep p os o) on (rw on at m)
]
  where
    here :
        (Memᴰ o (keep p os) → Memᴰ o os × (p o ≡ true))
        → p q ≡ true
        → Memᴰ o (q ∷ keep p os)
        → Memᴰ o (q ∷ os) × (p o ≡ true)
    here rest on (Memᴰ.head e) = (Memᴰ.head e, ap p e ∙ on)
    here rest on (Memᴰ.tail n) = let (mem, e) = rest n in (Memᴰ.tail mem, e)

keep-mem :
    (p : EvolutionOutcome → Bool) (os : List EvolutionOutcome) (o : EvolutionOutcome)
    → Memᴰ o os
    → p o ≡ true
    → Memᴰ o (keep p os)
keep-mem p [] o m e = absurd (Memᴰ.not-nil m)
keep-mem p (q ∷ os) o (Memᴰ.head d) e =
    let on : p q ≡ true = sym (ap p d) ∙ e in rw on (Memᴰ.head d)
keep-mem p (q ∷ os) o (Memᴰ.tail m) e = elim (Bool-cases (p q)) [
  | inl on ↦ rw on (Memᴰ.tail (keep-mem p os o m e))
  | inr off ↦ rw off (keep-mem p os o m e)
]

module _ (h : Host) where
  is_for-IsFor :
      (id : Option String) (fingerprint : String) (o : EvolutionOutcome)
      → (is_for h id fingerprint o ≡ true) ↔ IsFor id fingerprint o
  is_for-IsFor none fingerprint o = (
    λ e. inl (ground arith),
    λ f. elim f [ inl e ↦ ground arith | inr e ↦ absurd (none-not-some e) ],
  )
  is_for-IsFor (some i) fingerprint o = (
    λ e. elim (string_cases o.need_fingerprint fingerprint) [
      | inl same ↦ inl same
      | inr other ↦ inr (ap some (ground arith))
    ],
    λ f. elim f [ inl e ↦ ground arith | inr e ↦ let same = some_injective e in ground arith ],
  )

  module _ (id : Option String) (fingerprint : String) (os : List EvolutionOutcome) where
    -- Without an outcome by the id, the latest that names the need is found.
    by_name :
        (o : EvolutionOutcome)
        → Memᴰ o os
        → IsFor id fingerprint o
        → ((i : String) → id ≡ some i → i ≢ "" → (q : EvolutionOutcome) → Memᴰ q os → q.need_id ≢ i)
        → (l : EvolutionOutcome) × (last_outcome h
              (sort (created_after h) (keep (is_for h id fingerprint) os))
            ≡ some l)
          × IsLatest h id fingerprint os l
    by_name o mem f away =
        let named = keep (is_for h id fingerprint) os in
        let into = λ (q : EvolutionOutcome) (m : Memᴰ q os) (g : IsFor id fingerprint q).
          sort-mem (created_after h) q named
            (keep-mem (is_for h id fingerprint) os q m ((is_for-IsFor id fingerprint q).1 g)) in
        let (l, e) = last_outcome-some h (sort (created_after h) named) o (into o mem f) in
        let (last, most) =
          last_outcome-max h (sort (created_after h) named) l (sort-Ascending h named) e in
        let (listed, is_named) =
          mem-keep (is_for h id fingerprint) os l (mem-sort (created_after h) l named last) in
        (
          l,
          e,
          record {
            listed = listed;
            names = (is_for-IsFor id fingerprint l).0 is_named;
            of_id = λ i q known nonempty m own. absurd (away i known nonempty q m own);
            of_any = λ other q m g. most q (into q m g);
          },
        )

    find_outcome_for_need-IsLatest :
        (o : EvolutionOutcome)
        → Memᴰ o os
        → IsFor id fingerprint o
        → (l : EvolutionOutcome) × (find_outcome_for_need h id fingerprint os ≡ some l)
          × IsLatest h id fingerprint os l
    unfolding find_outcome_for_need
    find_outcome_for_need-IsLatest o mem f = elim (Option-cases (outcome_by_id h id os)) [
      | inl unknown ↦ rw (unknown, find_outcome_for_need) (by_name o mem f (away id unknown))
      | inr (l, found) ↦ rw (found, find_outcome_for_need) (l, refl, latest id refl l found)
    ]
      where
        away :
            (n : Option String)
            → outcome_by_id h n os ≡ none
            → (i : String) → n ≡ some i
            → i ≢ ""
            → (q : EvolutionOutcome) → Memᴰ q os
            → q.need_id ≢ i
        away none e i known nonempty q m own = absurd (none-not-some known)
        away (some j) e i known nonempty q m own =
            let same = some_injective known in
            let named : (j == "") ≡ false = ground arith in
            (by_need-some h (sort (created_after h) os) [] j (rw named at e)).1 q
              (sort-mem (created_after h) q os m) (own ∙ sym same)

        latest :
            (n : Option String)
            → id ≡ n
            → (l : EvolutionOutcome) → outcome_by_id h n os ≡ some l
            → IsLatest h id fingerprint os l
        latest none given l e = absurd (none-not-some e)
        latest (some j) given l e = elim (Bool-cases (j == "")) [
          | inl nameless ↦ absurd (none-not-some (rw nameless at e))
          | inr named ↦
              elim (by_need-last h (sort (created_after h) os) [] j l (sort-Ascending h os)
                (rw named at e)) [
                  | inr (nothing, rest) ↦ absurd (none-not-some nothing)
                  | inl (last, own, most) ↦ record {
                    listed = mem-sort (created_after h) l os last;
                    names = inr (given ∙ ap some (sym own));
                    of_id = λ i q known nonempty m id_q.
                        let same = some_injective (sym given ∙ known) in
                        (own ∙ same, most q (sort-mem (created_after h) q os m) (id_q ∙ sym same));
                    of_any = λ other q m g. absurd (other j given (λ e. absurd (ground arith)) own);
                  }
                ]
        ]

-- If an outcome names a need that is seen again, by its id or its fingerprint, then the latest such outcome
-- decides the state of the need: improved makes it resolved, regressed regressed, and unchanged and
-- inconclusive let it remain active. The latest is that of the outcomes with the need's id, if there are
-- any, and else of those with its fingerprint. So a need whose latest outcome is improved stays resolved,
-- however often and however late it is seen again.
pub need_for-Follows :
    (h : Host) (aggregate : String → ℕ → List String) (now : ℕ) (at : String)
    (prev : Option LongitudinalNeed) (p : LongitudinalPattern) (os : List EvolutionOutcome)
    (o : EvolutionOutcome)
    → Memᴰ o os
    → IsFor (id_of h prev) (lifecycle_fingerprint h p) o
    → (l : EvolutionOutcome) × IsLatest h (id_of h prev) (lifecycle_fingerprint h p) os l
      × Follows l.outcome
          (need_for h aggregate now at prev (outcome_for h aggregate now at os prev p) p).lifecycle
need_for-Follows h aggregate now at prev p os o mem f =
    let (l, found, latest) =
      find_outcome_for_need-IsLatest h (id_of h prev) (lifecycle_fingerprint h p) os o mem f in
    (
      l,
      latest,
      subst (Follows l.outcome)
          (sym (
            ap (λ r. (need_for h aggregate now at prev (lifecycle_of h r) p).lifecycle) found
            ∙ need_for-outcome h aggregate now at prev l p))
          (lifecycle_from_outcome-Follows l.outcome),
    )
