-- ===== src/Ir/Cycle/Complete.antt =====
-- detectCycle of ir/validator.ts: the graph when it answers false.
use evolve_loop.Base.{
  string_cases, ℕ, zero, suc, String, ◌≡◌, refl, sym, subst, true, Bool-cases, List, [], ◌∷◌, ◌⊎◌,
  inl, inr, arith, contains, string_eq,
}
use evolve_loop.Ir.Search.{Sets, Outcome, acyclic, Edges, targets, search_each, enter, dfs}
use evolve_loop.Ir.Cycle.Sound.{Path⁺, edge, more, and_then-acyclic, leave-acyclic}

module _ (graph : Edges) where
  -- Every way from `x` along dependencies ends.
  pub data Safe : String → Type 0 where
    safe :
        {x : String} → ((dep : String) → contains (targets graph x) dep ≡ true → Safe dep) → Safe x

  pub first-edge :
      {a b : String}
      → Path⁺ graph a b
      → (d : String) × (contains (targets graph a) d ≡ true) × ((d ≡ b) ⊎ Path⁺ graph d b)
  first-edge (edge {b} e) = (b, e, inl refl)
  first-edge (more {b} {c} p e) =
      let (d, first, rest) = first-edge p in
      (
        d,
        first,
        inr (elim rest [
          | inl same ↦ edge (subst (λ z. contains (targets graph z) c ≡ true) (sym same) e)
          | inr q ↦ more q e
        ]),
      )

  pub Safe-not-cyclic : {x : String} → Safe x → ¬ Path⁺ graph x x
  Safe-not-cyclic (safe {x} below) p =
      let (d, first, rest) = first-edge p in
      Safe-not-cyclic (below d first) (elim rest [
        | inl same ↦ edge (subst (λ z. contains (targets graph z) d ≡ true) (sym same) first)
        | inr q ↦ more q first
      ])

  abbrev pub AllSafe : Sets → Type 0
  AllSafe s = (x : String) → contains s.visited x ≡ true → Safe x

  abbrev pub Secures : (String → Sets → Outcome) → Type 0
  Secures go = (id : String) (s t : Sets) → AllSafe s → go id s ≡ acyclic t → AllSafe t × Safe id

  pub search_each-Safe :
      (go : String → Sets → Outcome)
      → Secures go
      → (deps : List String) (s t : Sets) → AllSafe s
      → search_each go deps s ≡ acyclic t
      → AllSafe t × ((dep : String) → contains deps dep ≡ true → Safe dep)
  unfolding search_each
  search_each-Safe go secures [] s t all h =
      let e : s ≡ t = cc in (subst AllSafe e all, λ dep m. cc)
  search_each-Safe go secures (dep ∷ deps) s t all h =
      let (u, first, rest) = and_then-acyclic _ _ h in
      let (all', now) = secures dep s u all first in
      let (all'', later) = search_each-Safe go secures deps u t all' rest in
      (
        all'',
        λ d m. elim (string_cases d dep) [
          | inl same ↦ rw same now
          | inr other ↦ later d (ground arith)
        ],
      )

  -- When `dfs` answers false, the id is safe, and so is all that is marked as visited.
  pub dfs-Secures : (fuel : ℕ) → Secures (dfs fuel graph)
  unfolding dfs
  dfs-Secures zero id s t all h = cc
  dfs-Secures (suc fuel) id s t all h = elim (Bool-cases (contains s.visiting id)) [
    | inl seen ↦ let h' = rw seen at h in cc
    | inr new ↦ elim (Bool-cases (contains s.visited id)) [
      | inl old ↦
          let h' = rw (new, old) at h in let e : s ≡ t = cc in (subst AllSafe e all, all id old)
      | inr fresh ↦
          let (u, done, e) = leave-acyclic id _ (rw (new, fresh) at h) in
          let (all', below) =
            search_each-Safe (dfs fuel graph) (dfs-Secures fuel) (targets graph id) (enter id s) u
              all done in
          let now = safe below in
          (
            λ x v. elim (string_cases x id) [
              | inl same ↦ rw same now
              | inr other ↦ all' x (let v' = rw e at v in ground arith)
            ],
            now,
          )
    ]
  ]
