-- ===== src/RunState/Laws.antt =====
-- What state/run-state.ts promises of runs and of nodes.
use evolve_loop.Base.{
  true, false, ◌≡◌, refl, ◌≢◌, ◌↔◌, ◌⊎◌, inl, inr, none, some, List, [], ◌∷◌, all, Memᴰ, arith,
  all-mem, all_intro, Bool-cases,
}
use evolve_loop.Types.{
  GraphNode, NodeStatus, FeatureRunState, node_status_eq, pending, ready, running, waiting,
  satisfied, failed, skipped,
}
use evolve_loop.RunState.{derive_run_state, is_done_node, can_transition, transition_node}

-- Steps along allowed transitions.
pub data Steps (s : NodeStatus) : NodeStatus → Type 0 where
  here : Steps s s
  next : {t u : NodeStatus} → Steps s t → can_transition t u ≡ true → Steps s u

-- No transition leads out of `satisfied`, `skipped` or `cancelled`.
abbrev pub IsFinal : NodeStatus → Type 0
IsFinal s = (s ≡ satisfied) ⊎ (s ≡ skipped) ⊎ (s ≡ NodeStatus.cancelled)

-- A status has no allowed transition exactly when it is satisfied, skipped or cancelled.
pub can_transition-IsFinal :
    (s : NodeStatus) → IsFinal s ↔ ((t : NodeStatus) → can_transition s t ≡ false)
unfolding can_transition node_status_eq
can_transition-IsFinal pending = (λ h. ground arith, λ h. let e = h ready in cc)
can_transition-IsFinal ready = (λ h. ground arith, λ h. let e = h running in cc)
can_transition-IsFinal running = (λ h. ground arith, λ h. let e = h waiting in cc)
can_transition-IsFinal waiting = (λ h. ground arith, λ h. let e = h running in cc)
can_transition-IsFinal failed = (λ h. ground arith, λ h. let e = h pending in cc)
can_transition-IsFinal NodeStatus.blocked = (λ h. ground arith, λ h. let e = h pending in cc)
can_transition-IsFinal satisfied = (λ h t. refl, λ h. inl refl)
can_transition-IsFinal skipped = (λ h t. refl, λ h. inr (inl refl))
can_transition-IsFinal NodeStatus.cancelled = (λ h t. refl, λ h. inr (inr refl))

-- From a satisfied, skipped or cancelled status, no sequence of allowed transitions leads elsewhere.
pub Steps-final : {s t : NodeStatus} → IsFinal s → Steps s t → t ≡ s
Steps-final f here = refl
Steps-final {s} {t} f (next {t = t'} p h) =
    let same = Steps-final f p in
    let stuck = (can_transition-IsFinal s).0 f t in absurd (let h' = rw same at h in cc)

-- transitionNode changes the status and nothing else where the table allows the step, and throws
-- where it does not.
pub transition_node_exact :
    (node : GraphNode) (to : NodeStatus)
    → ((can_transition node.status to ≡ true)
        × (transition_node node to ≡ some (record node { status = to })))
      ⊎ ((can_transition node.status to ≡ false) × (transition_node node to ≡ none))
unfolding transition_node
transition_node_exact node to = elim (Bool-cases (can_transition node.status to)) [
  | inl allowed ↦ inl (allowed, rw (allowed, transition_node))
  | inr refused ↦ inr (refused, rw (refused, transition_node))
]

all_done_mem :
    (nodes : List GraphNode)
    → (all is_done_node nodes ≡ true)
      ↔ ((n : GraphNode) → Memᴰ n nodes → (n.status ≡ satisfied) ⊎ (n.status ≡ skipped))
all_done_mem nodes = (
  λ h n m. let e = all-mem is_done_node nodes n h m in ground arith,
  λ h. all_intro is_done_node nodes (λ n m. let e = h n m in ground arith),
)

-- A run that was not cancelled is completed exactly when it has a node and every node is satisfied or
-- skipped.
pub derive_run_state-completed :
    (nodes : List GraphNode)
    → (derive_run_state nodes none ≡ FeatureRunState.completed) ↔ (
        (nodes ≢ [])
        × ((n : GraphNode) → Memᴰ n nodes → (n.status ≡ satisfied) ⊎ (n.status ≡ skipped)))
unfolding derive_run_state
derive_run_state-completed [] = (λ h. cc, λ (h, _). absurd (h refl))
derive_run_state-completed (n ∷ ns) =
    let (forth, back) = all_done_mem (n ∷ ns) in
    (λ h. (λ e. cc, forth (ground arith)), λ (some_node, h). let e = back h in ground arith)
