-- ===== src/Ir/Cycle/Ends.antt =====
-- detectCycle of ir/validator.ts: the fuel of the search.
use evolve_loop.Base.{
  ℕ, zero, suc, ◌+◌, ◌≤◌, ◌<◌, String, ◌≡◌, refl, ◌∙◌, ◌≢◌, true, false, Bool-cases, List, [], ◌∷◌,
  ◌⊎◌, inl, inr, arith, contains, if◌then◌else◌, string_eq,
}
use evolve_loop.Ir.Search.{
  Sets, Outcome, acyclic, out_of_fuel, cycle, Edges, targets, and_then, search_each, leave, enter,
  dfs,
}
use evolve_loop.Ir.Cycle.Sound.{Restores, dfs-Restores}

-- The keys that are not being visited.
abbrev pub open_keys : List String → List String → ℕ
open_keys [] visiting = 0
open_keys (k ∷ ks) visiting =
    let rest = open_keys ks visiting in if contains visiting k then rest else suc rest

open_keys-cons-le :
    (ks visiting : List String) (id : String) → open_keys ks (id ∷ visiting) ≤ open_keys ks visiting
open_keys-cons-le [] visiting id = omega arith
open_keys-cons-le (k ∷ ks) visiting id = ground (arith, open_keys-cons-le ks visiting id)

open_keys-cons :
    (ks visiting : List String) (id : String)
    → contains ks id ≡ true
    → contains visiting id ≡ false
    → open_keys ks (id ∷ visiting) < open_keys ks visiting
open_keys-cons [] visiting id m h = cc
open_keys-cons (k ∷ ks) visiting id m h =
    ground (arith, open_keys-cons-le ks visiting id, open_keys-cons ks visiting id)

List-cases : (xs : List String) → (xs ≡ []) ⊎ (xs ≢ [])
List-cases [] = inl refl
List-cases (x ∷ xs) = inr (λ e. cc)

and_then-ends :
    (o : Outcome) (f : Sets → Outcome)
    → o ≢ out_of_fuel
    → ((t : Sets) → o ≡ acyclic t → f t ≢ out_of_fuel)
    → and_then o f ≢ out_of_fuel
and_then-ends cycle f h k = λ e. cc
and_then-ends out_of_fuel f h k = λ e. h refl
and_then-ends (acyclic t) f h k = k t refl

leave-ends : (id : String) (o : Outcome) → o ≢ out_of_fuel → leave id o ≢ out_of_fuel
leave-ends id cycle h = λ e. cc
leave-ends id out_of_fuel h = λ e. h refl
leave-ends id (acyclic t) h = λ e. cc

module _ (graph : Edges) where
  pub search_each-ends :
      (go : String → Sets → Outcome)
      → Restores graph go
      → (visiting : List String)
      → ((dep : String) (s : Sets) → s.visiting ≡ visiting → go dep s ≢ out_of_fuel)
      → (deps : List String) (s : Sets) → s.visiting ≡ visiting
      → search_each go deps s ≢ out_of_fuel
  unfolding search_each
  search_each-ends go keeps visiting ends [] s v = λ e. cc
  search_each-ends go keeps visiting ends (dep ∷ deps) s v =
      and_then-ends (go dep s) (search_each go deps) (ends dep s v)
        (λ t e. search_each-ends go keeps visiting ends deps t (keeps dep s t e ∙ v))

  -- `ks` holds every id that has targets.
  pub dfs-ends :
      (ks : List String)
      → ((id : String) → targets graph id ≢ [] → contains ks id ≡ true)
      → (fuel : ℕ) (id : String) (s : Sets) → open_keys ks s.visiting + 1 < fuel
      → dfs fuel graph id s ≢ out_of_fuel
  unfolding dfs
  dfs-ends ks known zero id s h = absurd (omega arith)
  dfs-ends ks known (suc fuel) id s h = elim (Bool-cases (contains s.visiting id)) [
    | inl seen ↦ rw seen (λ e. cc)
    | inr new ↦ elim (Bool-cases (contains s.visited id)) [
      | inl old ↦ rw (new, old) (λ e. cc)
      | inr fresh ↦
          rw (new, fresh)
            (leave-ends id _ (elim (List-cases (targets graph id)) [
              | inl bare ↦ rw bare (λ e. cc)
              | inr some_dep ↦
                  let less = open_keys-cons ks s.visiting id (known id some_dep) new in
                  search_each-ends (dfs fuel graph) (dfs-Restores graph fuel) (id ∷ s.visiting)
                    (λ dep s' v. dfs-ends ks known fuel dep s' (rw v (omega arith)))
                    (targets graph id) (enter id s) refl
            ]))
    ]
  ]
