-- ===== src/Evolve/Lifecycle/Latest.antt =====
-- evolveloop/lifecycle/need-lifecycle.ts: which outcome is the latest for a need.
use mathlib.Core.List.Memᴰ
use evolve_loop.Base.{
  ℕ, ◌≤◌, ◌<◌, String, ◌≡◌, refl, sym, ap, ◌∙◌, ◌≢◌, ◌⊎◌, inl, inr, false, Bool-cases, none, some,
  List, [], ◌∷◌, Dict, lookup, insert, lookup-insert, sort, sort_insert, mem-sort_insert, get_or,
  ◌==◌, arith, string_eq, string_cases, Memᴰ, none-not-some, some_injective,
}
use evolve_loop.Evolve.Host.{Host}
use evolve_loop.Evolve.Outcome.{EvolutionOutcome}
use evolve_loop.Evolve.Lifecycle.{created_after, by_need, last_outcome}

module _ (h : Host) where
  -- When the outcome was created.
  abbrev pub time : EvolutionOutcome → ℕ
  time o = get_or (h.parse_time o.created_at) 0

  -- No element was created after a later one.
  abbrev pub Ascending : List EvolutionOutcome → Type 0
  Ascending [] = Unit
  Ascending (o ∷ os) = ((q : EvolutionOutcome) → Memᴰ q os → time o ≤ time q) × Ascending os

  sort_insert-Ascending :
      (o : EvolutionOutcome) (os : List EvolutionOutcome)
      → Ascending os
      → Ascending (sort_insert (created_after h) o os)
  sort_insert-Ascending o [] a = (λ q m. absurd (Memᴰ.not-nil m), tt)
  sort_insert-Ascending o (p ∷ os) a = elim (Bool-cases (created_after h o p)) [
    | inl later ↦ rw later (
      λ q m. first q (mem-sort_insert (created_after h) o q os m) (ground arith),
      sort_insert-Ascending o os a.1,
    )
    | inr early ↦ rw early (λ q m. below q m (ground arith), a)
  ]
    where
      first : (q : EvolutionOutcome) → Memᴰ q (o ∷ os) → time p < time o → time p ≤ time q
      first q (Memᴰ.head e) lt = let same = ap time e in omega (arith, lt, same)
      first q (Memᴰ.tail m) lt = a.0 q m

      below : (q : EvolutionOutcome) → Memᴰ q (p ∷ os) → time o ≤ time p → time o ≤ time q
      below q (Memᴰ.head e) le = let same = ap time e in omega (arith, le, same)
      below q (Memᴰ.tail m) le = let more = a.0 q m in omega (arith, le, more)

  pub sort-Ascending : (os : List EvolutionOutcome) → Ascending (sort (created_after h) os)
  sort-Ascending [] = tt
  sort-Ascending (o ∷ os) = sort_insert-Ascending o (sort (created_after h) os) (sort-Ascending os)

  pub last_outcome-max :
      (os : List EvolutionOutcome) (o : EvolutionOutcome)
      → Ascending os
      → last_outcome h os ≡ some o
      → Memᴰ o os × ((q : EvolutionOutcome) → Memᴰ q os → time q ≤ time o)
  last_outcome-max [] o a e = absurd (none-not-some e)
  last_outcome-max (p ∷ []) o a e = let same = some_injective e in (Memᴰ.head (sym same), only)
    where
      only : (q : EvolutionOutcome) → Memᴰ q (p ∷ []) → time q ≤ time o
      only q (Memᴰ.head d) =
          let here = ap time d in
          let there = ap time (some_injective e) in omega (arith, here, there)
      only q (Memᴰ.tail m) = absurd (Memᴰ.not-nil m)
  last_outcome-max (p ∷ r ∷ os) o a e =
      let (mem, most) = last_outcome-max (r ∷ os) o a.1 e in (Memᴰ.tail mem, all_before mem most)
    where
      all_before :
          Memᴰ o (r ∷ os)
          → ((q : EvolutionOutcome) → Memᴰ q (r ∷ os) → time q ≤ time o)
          → (q : EvolutionOutcome) → Memᴰ q (p ∷ r ∷ os)
          → time q ≤ time o
      all_before mem most q (Memᴰ.head d) =
          let here = ap time d in let le = a.0 o mem in omega (arith, here, le)
      all_before mem most q (Memᴰ.tail m) = most q m

  pub last_outcome-some :
      (os : List EvolutionOutcome) (o : EvolutionOutcome)
      → Memᴰ o os
      → (l : EvolutionOutcome) × (last_outcome h os ≡ some l)
  last_outcome-some [] o m = absurd (Memᴰ.not-nil m)
  last_outcome-some (p ∷ []) o m = (p, refl)
  last_outcome-some (p ∷ r ∷ os) o m = last_outcome-some (r ∷ os) r (Memᴰ.head refl)

  -- The outcome of an id in the map is the last with it, or was there before.
  pub by_need-last :
      (os : List EvolutionOutcome) (m : Dict EvolutionOutcome) (i : String) (o : EvolutionOutcome)
      → Ascending os
      → lookup i (by_need h m os) ≡ some o
      → (Memᴰ o os
          × (o.need_id ≡ i)
          × ((q : EvolutionOutcome) → Memᴰ q os → q.need_id ≡ i → time q ≤ time o))
        ⊎ ((lookup i m ≡ some o) × ((q : EvolutionOutcome) → Memᴰ q os → q.need_id ≢ i))
  by_need-last [] m i o a e = inr (e, λ q n. absurd (Memᴰ.not-nil n))
  by_need-last (p ∷ os) m i o a e = elim (by_need-last os _ i o a.1 e) [
    | inl (mem, own, most) ↦ inl (Memᴰ.tail mem, own, all_before mem most)
    | inr (here, away) ↦ elim (string_cases p.need_id i) [
      | inl same ↦
          let at : lookup i (insert p.need_id p m) ≡ some p =
            ground (arith, lookup-insert p.need_id i p m) in
          let is_p = some_injective (sym here ∙ at) in
          inl (Memᴰ.head is_p, ap (λ x. x.need_id) is_p ∙ same, only is_p away)
      | inr other ↦ inr (ground (arith, lookup-insert p.need_id i p m, here), none_at other away)
    ]
  ]
    where
      all_before :
          Memᴰ o os
          → ((q : EvolutionOutcome) → Memᴰ q os → q.need_id ≡ i → time q ≤ time o)
          → (q : EvolutionOutcome) → Memᴰ q (p ∷ os)
          → q.need_id ≡ i
          → time q ≤ time o
      all_before mem most q (Memᴰ.head d) id =
          let here = ap time d in let le = a.0 o mem in omega (arith, here, le)
      all_before mem most q (Memᴰ.tail n) id = most q n id

      only :
          o ≡ p
          → ((q : EvolutionOutcome) → Memᴰ q os → q.need_id ≢ i)
          → (q : EvolutionOutcome) → Memᴰ q (p ∷ os)
          → q.need_id ≡ i
          → time q ≤ time o
      only is_p away q (Memᴰ.head d) id =
          let here = ap time d in let there = ap time is_p in omega (arith, here, there)
      only is_p away q (Memᴰ.tail n) id = absurd (away q n id)

      none_at :
          (p.need_id == i) ≡ false
          → ((q : EvolutionOutcome) → Memᴰ q os → q.need_id ≢ i)
          → (q : EvolutionOutcome) → Memᴰ q (p ∷ os)
          → q.need_id ≢ i
      none_at other away q (Memᴰ.head d) id =
          let same = sym (ap (λ x. x.need_id) d) ∙ id in absurd (ground arith)
      none_at other away q (Memᴰ.tail n) id = away q n id

  pub by_need-some :
      (os : List EvolutionOutcome) (m : Dict EvolutionOutcome) (i : String)
      → lookup i (by_need h m os) ≡ none
      → (lookup i m ≡ none) × ((q : EvolutionOutcome) → Memᴰ q os → q.need_id ≢ i)
  by_need-some [] m i e = (e, λ q n. absurd (Memᴰ.not-nil n))
  by_need-some (p ∷ os) m i e =
      let (nothing, away) = by_need-some os _ i e in
      elim (string_cases p.need_id i) [
        | inl same ↦ absurd (ground (arith, lookup-insert p.need_id i p m, nothing))
        | inr other ↦ (ground (arith, lookup-insert p.need_id i p m, nothing), none_at other away)
      ]
    where
      none_at :
          (p.need_id == i) ≡ false
          → ((q : EvolutionOutcome) → Memᴰ q os → q.need_id ≢ i)
          → (q : EvolutionOutcome) → Memᴰ q (p ∷ os)
          → q.need_id ≢ i
      none_at other away q (Memᴰ.head d) id =
          let same = sym (ap (λ x. x.need_id) d) ∙ id in absurd (ground arith)
      none_at other away q (Memᴰ.tail n) id = away q n id
