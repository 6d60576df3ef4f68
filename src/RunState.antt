-- ===== src/RunState.antt =====
-- state/run-state.ts: the state of a run from its nodes, and the transitions of a node.
pub mod Laws
use evolve_loop.Base.{
  Bool, true, false, ◌||◌, Option, none, some, List, [], ◌∷◌, contains, ◌==◌, Eq, all, any,
  if◌then◌else◌,
}
use evolve_loop.Types.{
  GraphNode, NodeStatus, FeatureRunState, node_status_eq, pending, ready, running, waiting,
  satisfied, failed, blocked, skipped,
}

abbrev pub is_cancelled : GraphNode → Bool
is_cancelled n = n.status == NodeStatus.cancelled

abbrev pub is_done_node : GraphNode → Bool
is_done_node n = n.status == satisfied || n.status == skipped

abbrev pub is_stuck : GraphNode → Bool
is_stuck n = n.status == NodeStatus.blocked || n.status == failed

abbrev pub is_active : GraphNode → Bool
is_active n = n.status == running || n.status == waiting

abbrev pub is_cancel : Option FeatureRunState → Bool
is_cancel (some FeatureRunState.cancelled) = true
is_cancel _ = false

unfoldable pub derive_run_state : List GraphNode → Option FeatureRunState → FeatureRunState
derive_run_state nodes explicit =
    if is_cancel explicit
    then FeatureRunState.cancelled
    else if all is_cancelled nodes
    then FeatureRunState.cancelled
    else if all is_done_node nodes
    then FeatureRunState.completed
    else if any is_stuck nodes
    then FeatureRunState.blocked
    else if any is_active nodes
    then FeatureRunState.active
    else FeatureRunState.active

-- The table `allowed`.
abbrev pub allowed : NodeStatus → List NodeStatus
allowed pending = ready ∷ running ∷ skipped ∷ NodeStatus.cancelled ∷ []
allowed ready = running ∷ NodeStatus.cancelled ∷ []
allowed running = waiting ∷ satisfied ∷ failed ∷ NodeStatus.blocked ∷ NodeStatus.cancelled ∷ []
allowed waiting = running ∷ satisfied ∷ failed ∷ NodeStatus.blocked ∷ NodeStatus.cancelled ∷ []
allowed satisfied = []
allowed failed = pending ∷ NodeStatus.blocked ∷ NodeStatus.cancelled ∷ []
allowed NodeStatus.blocked = pending ∷ NodeStatus.cancelled ∷ []
allowed skipped = []
allowed NodeStatus.cancelled = []

unfoldable pub can_transition : NodeStatus → NodeStatus → Bool
can_transition from to = contains (allowed from) to

-- `none` is the exception.
unfoldable pub transition_node : GraphNode → NodeStatus → Option GraphNode
unfolding can_transition
transition_node node to =
    if can_transition node.status to then some (record node { status = to }) else none
