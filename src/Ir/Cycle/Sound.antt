-- ===== src/Ir/Cycle/Sound.antt =====
-- detectCycle of ir/validator.ts: the graph when it answers true, and the set `visiting`.
use evolve_loop.Base.{
  string_cases, ℕ, zero, suc, String, ◌≡◌, refl, ◌∙◌, true, false, Bool-cases, List, [], ◌∷◌, ◌⊎◌,
  inl, inr, arith, contains, string_eq,
}
use evolve_loop.Ir.Search.{
  Sets, delete, Outcome, cycle, acyclic, out_of_fuel, Edges, targets, and_then, search_each, leave,
  enter, dfs,
}

delete_absent : (id : String) (xs : List String) → contains xs id ≡ false → delete id xs ≡ xs
delete_absent id [] h = refl
delete_absent id (x ∷ xs) h = ground (arith, delete_absent id xs)

delete-cons_self :
    (id : String) (xs : List String) → contains xs id ≡ false → delete id (id ∷ xs) ≡ xs
delete-cons_self id xs h = ground (arith, delete_absent id xs)

pub leave-acyclic :
    (id : String) (o : Outcome) {t : Sets}
    → leave id o ≡ acyclic t
    → (u : Sets) × (o ≡ acyclic u)
      × (t ≡ record { visiting = delete id u.visiting; visited = id ∷ u.visited })
leave-acyclic id cycle h = cc
leave-acyclic id out_of_fuel h = cc
leave-acyclic id (acyclic u) h = (u, refl, cc)

pub and_then-acyclic :
    (o : Outcome) (f : Sets → Outcome) {t : Sets}
    → and_then o f ≡ acyclic t
    → (u : Sets) × (o ≡ acyclic u) × (f u ≡ acyclic t)
and_then-acyclic cycle f h = cc
and_then-acyclic out_of_fuel f h = cc
and_then-acyclic (acyclic u) f h = (u, refl, h)

and_then-cycle :
    (o : Outcome) (f : Sets → Outcome)
    → and_then o f ≡ cycle
    → (o ≡ cycle) ⊎ ((u : Sets) × (o ≡ acyclic u) × (f u ≡ cycle))
and_then-cycle cycle f h = inl refl
and_then-cycle out_of_fuel f h = cc
and_then-cycle (acyclic u) f h = inr (u, refl, h)

leave-cycle : (id : String) (o : Outcome) → leave id o ≡ cycle → o ≡ cycle
leave-cycle id cycle h = refl
leave-cycle id out_of_fuel h = cc
leave-cycle id (acyclic u) h = cc

module _ (graph : Edges) where
  -- A way along one or more dependencies.
  pub data Path⁺ (a : String) : String → Type 0 where
    edge : {b : String} → contains (targets graph a) b ≡ true → Path⁺ a b
    more : {b c : String} → Path⁺ a b → contains (targets graph b) c ≡ true → Path⁺ a c

  pub Path⁺-trans : {a b c : String} → Path⁺ a b → Path⁺ b c → Path⁺ a c
  Path⁺-trans p (edge e) = more p e
  Path⁺-trans p (more q e) = more (Path⁺-trans p q) e

  abbrev pub Cyclic : Type 0
  Cyclic = (a : String) × Path⁺ a a

  -- Every id that is being visited leads to `id`.
  abbrev pub Leads : Sets → String → Type 0
  Leads s id = (x : String) → contains s.visiting x ≡ true → Path⁺ x id

  abbrev pub Restores : (String → Sets → Outcome) → Type 0
  Restores go = (id : String) (s t : Sets) → go id s ≡ acyclic t → t.visiting ≡ s.visiting

  pub search_each-Restores :
      (go : String → Sets → Outcome)
      → Restores go
      → (deps : List String) (s t : Sets) → search_each go deps s ≡ acyclic t
      → t.visiting ≡ s.visiting
  unfolding search_each
  search_each-Restores go keeps [] s t h = ground arith
  search_each-Restores go keeps (dep ∷ deps) s t h =
      let (u, first, rest) = and_then-acyclic _ _ h in
      search_each-Restores go keeps deps u t rest ∙ keeps dep s u first

  pub dfs-Restores : (fuel : ℕ) → Restores (dfs fuel graph)
  unfolding dfs
  dfs-Restores zero id s t h = cc
  dfs-Restores (suc fuel) id s t h = elim (Bool-cases (contains s.visiting id)) [
    | inl seen ↦ let h' = rw seen at h in cc
    | inr new ↦ elim (Bool-cases (contains s.visited id)) [
      | inl old ↦ let h' = rw (new, old) at h in cc
      | inr fresh ↦
          let (u, done, e) = leave-acyclic id _ (rw (new, fresh) at h) in
          let kept =
            search_each-Restores (dfs fuel graph) (dfs-Restores fuel) (targets graph id)
              (enter id s) u done in
          rw (e, kept) (delete-cons_self id s.visiting new)
    ]
  ]

  abbrev pub IsSound : (String → Sets → Outcome) → Type 0
  IsSound go = (id : String) (s : Sets) → Leads s id → go id s ≡ cycle → Cyclic

  pub search_each-cycle :
      (go : String → Sets → Outcome)
      → Restores go
      → IsSound go
      → (deps : List String) (s : Sets) → ((dep : String) → contains deps dep ≡ true → Leads s dep)
      → search_each go deps s ≡ cycle
      → Cyclic
  unfolding search_each
  search_each-cycle go keeps sound [] s leads h = cc
  search_each-cycle go keeps sound (dep ∷ deps) s leads h = elim (and_then-cycle _ _ h) [
    | inl now ↦ sound dep s (leads dep (ground arith)) now
    | inr (u, first, rest) ↦
        search_each-cycle go keeps sound deps u
          (λ d m x v. leads d (ground arith) x (rw (keeps dep s u first) at v)) rest
  ]

  enter-Leads :
      (id : String) (s : Sets)
      → Leads s id
      → (dep : String) → contains (targets graph id) dep ≡ true
      → Leads (enter id s) dep
  enter-Leads id s leads dep e x v = elim (string_cases x id) [
    | inl same ↦ rw same (edge e)
    | inr other ↦ more (leads x (ground arith)) e
  ]

  -- When `dfs` answers true, some id reaches itself.
  pub dfs-IsSound : (fuel : ℕ) → IsSound (dfs fuel graph)
  unfolding dfs
  dfs-IsSound zero id s leads h = cc
  dfs-IsSound (suc fuel) id s leads h = elim (Bool-cases (contains s.visiting id)) [
    | inl seen ↦ (id, leads id seen)
    | inr new ↦ elim (Bool-cases (contains s.visited id)) [
      | inl old ↦ let h' = rw (new, old) at h in cc
      | inr fresh ↦
          search_each-cycle (dfs fuel graph) (dfs-Restores fuel) (dfs-IsSound fuel)
            (targets graph id) (enter id s) (enter-Leads id s leads)
            (leave-cycle id _ (rw (new, fresh) at h))
    ]
  ]
