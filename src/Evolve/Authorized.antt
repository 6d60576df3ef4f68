-- ===== src/Evolve/Authorized.antt =====
-- evolveloop/controller.ts: which requests a pass hands on.
pub mod Judged
use mathlib.Core.List.Memᴰ
use evolve_loop.Base.{
  ℕ, ◌+◌, ◌≤◌, String, ◌≡◌, refl, sym, ap, ◌∙◌, ◌≢◌, ◌⊎◌, subst, inl, inr, Bool, true, false, not,
  ◌&&◌, Bool-cases, Option-cases, Option, none, some, List, [], ◌∷◌, ◌++◌, map, keep, find, All,
  Memᴰ, length, ltb, ◌==◌, if◌then◌else◌, arith, string_eq, length-append, some_injective,
  none-not-some,
}
use evolve_loop.Evolve.Signal.{RawObservation, ScopeClass, scope_class_eq}
use evolve_loop.Evolve.Need.{
  NeedCandidate, RootCauseAnalysis, CandidateType, candidate_type_eq, CandidateStatus,
  EvolutionCandidate, RequestedAction, requested_action_eq, AutonomyLevel, EvolutionRequest,
}
use evolve_loop.Evolve.Host.{Host, join}
use evolve_loop.Evolve.Requests.{validate_candidate, requested_action_for, build_evolution_request}
use evolve_loop.Evolve.Judge.{
  PassOptions, Tally, note, hand_off, validated_candidate, judge_reasons, judge_candidate,
  judge_all,
}

-- A request that may be handed on: it is for a need of the pass, its candidate is a change for that need
-- that was found without fault, and it is submitted unless the need concerns the core, for which it is
-- held. It claims no more than to propose.
pub record Authorized (needs : List NeedCandidate) (causes : List RootCauseAnalysis)
    (r : EvolutionRequest) : Type 0 where
  pub need : NeedCandidate
  pub found : Memᴰ need needs
  pub cause_known : Memᴰ r.root_cause causes
  pub source : r.source_need ≡ need.id
  pub linked : r.candidate.need_id ≡ need.id
  pub faultless : validate_candidate r.candidate need r.root_cause ≡ []
  pub change : r.candidate.type ≢ CandidateType.no_change
  pub action :
      ((r.requested_action ≡ RequestedAction.submit_to_prototype_gate)
        × (need.scope_class ≢ ScopeClass.core_candidate))
      ⊎ ((r.requested_action ≡ RequestedAction.hold)
          × (need.scope_class ≡ ScopeClass.core_candidate))
  pub ceiling : r.autonomy_ceiling ≡ AutonomyLevel.propose
  pub harmless : (r.mutates_core ≡ false) × (r.mutates_runtime ≡ false)

pub find-mem :
    {A : Type 0} (p : A → Bool) (xs : List A) (x : A)
    → find p xs ≡ some x
    → Memᴰ x xs × (p x ≡ true)
find-mem p [] x h = absurd (none-not-some h)
find-mem p (y ∷ ys) x h = elim (Bool-cases (p y)) [
  | inl hit ↦
      let same = some_injective (rw hit at h) in (Memᴰ.head (sym same), ap p (sym same) ∙ hit)
  | inr miss ↦ let (m, passes) = find-mem p ys x (rw miss at h) in (Memᴰ.tail m, passes)
]

pub All-snoc :
    {A : Type 0} (P : A → Type 0) (xs : List A) (x : A) → All P xs → P x → All P (xs ++ x ∷ [])
All-snoc P [] x all p = (p, tt)
All-snoc P (y ∷ ys) x all p = (all.0, All-snoc P ys x all.1 p)

-- The two kinds of change that a request may ask for.
pub action_cases :
    (need : NeedCandidate) (c : EvolutionCandidate)
    → c.type ≢ CandidateType.no_change
    → ((requested_action_for need c ≡ RequestedAction.submit_to_prototype_gate)
        × (need.scope_class ≢ ScopeClass.core_candidate))
      ⊎ ((requested_action_for need c ≡ RequestedAction.hold)
          × (need.scope_class ≡ ScopeClass.core_candidate))
unfolding requested_action_for candidate_type_eq scope_class_eq
action_cases need c change = elim (Bool-cases (need.scope_class == ScopeClass.core_candidate)) [
  | inl core ↦ inr (ground arith, ground arith)
  | inr other ↦ inl (ground arith, λ same. ground arith)
]
