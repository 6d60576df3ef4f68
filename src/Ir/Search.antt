-- ===== src/Ir/Search.antt =====
-- ir/validator.ts: detectCycle, a depth-first search. The recursion of `dfs` takes fuel: it goes into
-- an id only while the id is not in `visiting`, so the number of keys bounds its depth (Cycle/Ends).
use evolve_loop.Base.{
  ℕ, zero, suc, String, Bool, true, false, Option, none, some, get_or, List, [], ◌∷◌, contains,
  ◌==◌, Dict, lookup, insert, length, if◌then◌else◌, string_eq,
}
use evolve_loop.Types.{IrNode}

pub record Sets : Type 0 where
  pub visiting : List String
  pub visited : List String

-- `set.delete(id)`
abbrev pub delete : String → List String → List String
delete id [] = []
delete id (x ∷ xs) = let rest = delete id xs in if x == id then rest else x ∷ rest

-- A call returns true (a cycle) or false, with the sets as they are then.
pub data Outcome : Type 0 where
  cycle : Outcome
  acyclic : Sets → Outcome
  out_of_fuel : Outcome

abbrev pub Edges : Type 0
Edges = Dict (List String)

-- `graph.get(id) ?? []`
abbrev pub targets : Edges → String → List String
targets graph id = get_or (lookup id graph) []

-- Goes on where a call returned false.
abbrev pub and_then : Outcome → (Sets → Outcome) → Outcome
and_then cycle f = cycle
and_then out_of_fuel f = out_of_fuel
and_then (acyclic t) f = f t

-- `for (const dep of deps) if (dfs(dep)) return true;`, and `nodes.some((n) => dfs(n.id))`.
unfoldable pub search_each : (String → Sets → Outcome) → List String → Sets → Outcome
search_each go [] s = acyclic s
search_each go (dep ∷ deps) s = and_then (go dep s) (search_each go deps)

abbrev pub leave : String → Outcome → Outcome
leave id cycle = cycle
leave id out_of_fuel = out_of_fuel
leave id (acyclic t) =
    acyclic (record { visiting = delete id t.visiting; visited = id ∷ t.visited })

abbrev pub enter : String → Sets → Sets
enter id s = record s { visiting = id ∷ s.visiting }

unfoldable pub dfs : ℕ → Edges → String → Sets → Outcome
unfolding search_each
dfs zero graph id s = out_of_fuel
dfs (suc fuel) graph id s =
    let below = leave id (search_each (dfs fuel graph) (targets graph id) (enter id s)) in
    if contains s.visiting id then cycle else if contains s.visited id then acyclic s else below

-- `for (const n of nodes) graph.set(n.id, n.dependencies);`
abbrev pub edges_from : Edges → List IrNode → Edges
edges_from graph [] = graph
edges_from graph (n ∷ ns) = edges_from (insert n.id n.dependencies graph) ns

abbrev pub node_ids : List IrNode → List String
node_ids [] = []
node_ids (n ∷ ns) = n.id ∷ node_ids ns

abbrev pub search_fuel : List IrNode → ℕ
search_fuel nodes = suc (suc (length nodes))

unfoldable pub search_nodes : List IrNode → Outcome
unfolding dfs
search_nodes nodes =
    search_each (dfs (search_fuel nodes) (edges_from [] nodes)) (node_ids nodes)
      (record { visiting = []; visited = [] })

-- `true`, `false`, or `none` without fuel.
unfoldable pub detect_cycle : List IrNode → Option Bool
unfolding search_nodes
detect_cycle nodes = elim (search_nodes nodes) [
  | cycle ↦ some true
  | acyclic _ ↦ some false
  | out_of_fuel ↦ none
]
