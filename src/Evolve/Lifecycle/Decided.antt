-- ===== src/Evolve/Lifecycle/Decided.antt =====
-- evolveloop/lifecycle/need-lifecycle.ts: outcomes decide the state of a need, and no need is lost.
use evolve_loop.Base.{
  ℕ, String, ◌≡◌, refl, sym, subst, inl, inr, Bool, true, Bool-cases, Option, none, some, List, [],
  ◌∷◌, ◌++◌, All, any, ◌==◌, arith, string_eq,
}
use evolve_loop.Evolve.Host.{Host}
use evolve_loop.Evolve.Longitudinal.{
  NeedLifecycle, need_lifecycle_eq, OutcomeKind, LongitudinalNeed, LongitudinalPattern,
}
use evolve_loop.Evolve.Outcome.{EvolutionOutcome}
use evolve_loop.Evolve.Lifecycle.{
  lifecycle_from_outcome, is_anchored, is_fresh, final_lifecycle, find_outcome_for_need,
  lifecycle_of,
}
use evolve_loop.Evolve.Lifecycle.Detect.{
  need_for, unseen_need, preserve, age, is_old, is_listed, add_unseen, detect_lifecycles,
}

any_more : {A : Type 0} (p : A → Bool) (xs ys : List A) → any p xs ≡ true → any p (xs ++ ys) ≡ true
any_more p [] ys h = absurd (cc)
any_more p (x ∷ xs) ys h = ground (arith, any_more p xs ys)

any_last :
    {A : Type 0} (p : A → Bool) (xs : List A) (y : A) → p y ≡ true → any p (xs ++ y ∷ []) ≡ true
any_last p [] y h = ground arith
any_last p (x ∷ xs) y h = ground (arith, any_last p xs y h)

-- Only an improvement anchors a need that an outcome tells of.
anchored-improved :
    (h : Host) (prev : Option LongitudinalNeed) (k : OutcomeKind)
    → is_anchored h prev (some (lifecycle_from_outcome k)) ≡ true
    → lifecycle_from_outcome k ≡ NeedLifecycle.resolved
unfolding lifecycle_from_outcome need_lifecycle_eq
anchored-improved h prev OutcomeKind.improved a = refl
anchored-improved h prev OutcomeKind.regressed a = absurd (ground arith)
anchored-improved h prev OutcomeKind.unchanged a = absurd (ground arith)
anchored-improved h prev OutcomeKind.inconclusive a = absurd (ground arith)

module _ (h : Host) (aggregate : String → ℕ → List String) (now : ℕ) (at : String) where
  -- A need that is seen again has the state that the latest outcome for it says: improved is resolved,
  -- regressed is regressed, and unchanged and inconclusive remain active. So a need whose last change
  -- improved it stays resolved, however often and however late it is seen again.
  pub need_for-outcome :
      (prev : Option LongitudinalNeed) (o : EvolutionOutcome) (p : LongitudinalPattern)
      → (need_for h aggregate now at prev (lifecycle_of h (some o)) p).lifecycle
        ≡ lifecycle_from_outcome o.outcome
  unfolding need_for final_lifecycle
  need_for-outcome prev o p =
      let from = lifecycle_of h (some o) in
      elim (Bool-cases (is_anchored h prev from)) [
        | inr free ↦ rw (free, need_for) refl
        | inl anchored ↦ elim (Bool-cases (is_fresh h prev p)) [
          | inl fresh ↦
              rw (anchored, fresh, need_for) (sym (anchored-improved h prev o.outcome anchored))
          | inr late ↦ rw (anchored, late, need_for) refl
        ]
      ]

  module _ (os : List EvolutionOutcome) where
    unseen_need-fingerprint :
        (n : LongitudinalNeed) → (unseen_need h aggregate now at os n).fingerprint ≡ n.fingerprint
    unfolding unseen_need
    unseen_need-fingerprint n = elim (Bool-cases (n.lifecycle == NeedLifecycle.resolved)) [
      | inl done ↦ rw (done, unseen_need) refl
      | inr active ↦
          rw (active, unseen_need)
            (preserved (lifecycle_of h (find_outcome_for_need h (some n.id) n.fingerprint os)))
    ]
      where
        preserved :
            (l : Option NeedLifecycle)
            → (preserve h aggregate now at n l).fingerprint ≡ n.fingerprint
        preserved (some l) = refl
        preserved none = elim (Bool-cases (is_old h aggregate now at n)) [
          | inl old ↦ rw (old, age) refl
          | inr young ↦ rw (young, age) refl
        ]

    add_unseen-keeps :
        (ns out : List LongitudinalNeed) (n : LongitudinalNeed)
        → is_listed h aggregate now at out n ≡ true
        → is_listed h aggregate now at (add_unseen h aggregate now at os out ns) n ≡ true
    unfolding add_unseen
    add_unseen-keeps [] out n listed = listed
    add_unseen-keeps (k ∷ ns) out n listed =
        elim (Bool-cases (is_listed h aggregate now at out k)) [
          | inl known ↦ rw (known, add_unseen) (add_unseen-keeps ns out n listed)
          | inr new ↦
              rw (new, add_unseen)
                (add_unseen-keeps ns (out ++ unseen_need h aggregate now at os k ∷ []) n (
                  any_more (λ (m : LongitudinalNeed). m.fingerprint == n.fingerprint) out _ listed))
        ]

    abbrev result : List LongitudinalNeed → List LongitudinalNeed → List LongitudinalNeed
    result = add_unseen h aggregate now at os

    abbrev Lists : List LongitudinalNeed → List LongitudinalNeed → Type 0
    Lists ns out = All (λ n. is_listed h aggregate now at out n ≡ true) ns

    add_unseen-Lists : (ns out : List LongitudinalNeed) → Lists ns (result out ns)
    unfolding add_unseen
    add_unseen-Lists [] out = tt
    add_unseen-Lists (n ∷ ns) out = elim (Bool-cases (is_listed h aggregate now at out n)) [
      | inl known ↦
          let step : result out (n ∷ ns) ≡ result out ns = rw (known, add_unseen) refl in
          subst (Lists (n ∷ ns)) (sym step)
            (add_unseen-keeps ns out n known, add_unseen-Lists ns out)
      | inr new ↦
          let more = out ++ unseen_need h aggregate now at os n ∷ [] in
          let here =
            any_last (λ (m : LongitudinalNeed). m.fingerprint == n.fingerprint) out
              (unseen_need h aggregate now at os n)
              (let same = unseen_need-fingerprint n in ground arith) in
          let step : result out (n ∷ ns) ≡ result more ns = rw (new, add_unseen) refl in
          subst (Lists (n ∷ ns)) (sym step)
            (add_unseen-keeps ns more n here, add_unseen-Lists ns more)
    ]

    -- No need is lost: for each need that was known there is one with its fingerprint afterwards.
    pub detect_lifecycles-keeps :
        (ps : List LongitudinalPattern) (existing : List LongitudinalNeed)
        → All
            (λ n.
              is_listed h aggregate now at (detect_lifecycles h aggregate now at ps existing os) n
              ≡ true)
            existing
    unfolding detect_lifecycles
    detect_lifecycles-keeps ps existing = add_unseen-Lists existing _
