-- ===== src/Engine/Completion.antt =====
-- The branch of processRunResult of engine/execution-engine.ts in which the node is satisfied.
use evolve_loop.Base.{
  ℕ, String, ◌≡◌, refl, ◌∙◌, Bool-cases, inl, inr, Option, none, some, List, [], ◌∷◌, ◌==◌,
  if◌then◌else◌, string_eq, nat_eq,
}
use evolve_loop.Types.{
  GraphNode, ExecuteResult, MemoryEntry, ProposedKnowledgeEntry, satisfied, on_evidence_missing_eq,
}
use evolve_loop.Graph.Store.{GraphStore, set_node_evidence}
use evolve_loop.Events.{EventBody, node_completed, gate_passed}
use evolve_loop.Engine.State.{
  on_graph, RunContext, EngineState, RegistryCall, call_registry, publish,
}
use evolve_loop.Engine.Results.{
  write_memory, propose_knowledge, verdict_of, announce, complete_run, phase_of, reach_phase,
}
use evolve_loop.Engine.Steps.{Gives, Landed, gives_change, Landed-same_graph}
use evolve_loop.Engine.Branches.{gives_status}

module _ (c : RunContext) (run : ExecuteResult) (id : String) (g : GraphStore) (r : Option String)
    (n : GraphNode) where
  -- What a step of the announcement leaves alone.
  abbrev SameStore : EngineState → EngineState → Type 0
  SameStore e e' = (e'.graph ≡ e.graph) × (e'.blocked_reason ≡ e.blocked_reason)

  write_memory-SameStore :
      (entries : List MemoryEntry) (e : EngineState) → SameStore e (write_memory c entries e)
  write_memory-SameStore [] e = (refl, refl)
  write_memory-SameStore (entry ∷ entries) e = write_memory-SameStore entries _

  propose_knowledge-SameStore :
      (proposals : List ProposedKnowledgeEntry) (e : EngineState)
      → SameStore e (propose_knowledge c id proposals e)
  propose_knowledge-SameStore [] e = (refl, refl)
  propose_knowledge-SameStore (p ∷ ps) e = propose_knowledge-SameStore ps _

  reach_phase-SameStore : (o : Option ℕ) (e : EngineState) → SameStore e (reach_phase c id o e)
  reach_phase-SameStore none e = (refl, refl)
  reach_phase-SameStore (some k) e = elim (Bool-cases (k == 0)) [
    | inl zeroth ↦ rw (zeroth, reach_phase) (refl, refl)
    | inr numbered ↦ rw (numbered, reach_phase) (refl, refl)
  ]

  trans-SameStore : (a b d : EngineState) → SameStore a b → SameStore b d → SameStore a d
  trans-SameStore a b d s t = (t.0 ∙ s.0, t.1 ∙ s.1)

  gate_event-SameStore :
      (e : EngineState) (body : EventBody)
      → SameStore e (if n.type == "gate" then publish c (some run.run_id) body e else e)
  gate_event-SameStore e body = elim (Bool-cases (n.type == "gate")) [
    | inl gate ↦ rw gate (refl, refl)
    | inr other ↦ rw other (refl, refl)
  ]

  announce-SameStore : (e : EngineState) → SameStore e (announce c run id n e)
  announce-SameStore e =
      let e2 =
        publish c (some run.run_id)
          (node_completed run.run_id id run.provider_id n.capability run.duration_ms)
          (call_registry (RegistryCall.record_success run.provider_id) e) in
      let passed = gate_passed id (verdict_of run.evidence) in
      let e3 = if n.type == "gate" then publish c (some run.run_id) passed e2 else e2 in
      let e4 = write_memory c run.contextual_learnings e3 in
      let e5 = propose_knowledge c id run.durable_learnings e4 in
      let end = announce c run id n e in
      trans-SameStore e e3 end (gate_event-SameStore e2 passed) (
        trans-SameStore e3 e4 end (write_memory-SameStore run.contextual_learnings e3) (
          trans-SameStore e4 e5 end (propose_knowledge-SameStore run.durable_learnings e4)
            (reach_phase-SameStore (phase_of c.policy n.capability) e5)))

  gives_evidence :
      (k : GraphNode) (e : EngineState)
      → Landed id g r k e
      → Gives
          (on_graph (set_node_evidence id run.evidence) e)
          (Landed id g r (record k { evidence = run.evidence }))
  unfolding set_node_evidence
  gives_evidence k e =
      gives_change id g r k e (λ m. record m { evidence = run.evidence }) (λ m. refl)

  pub gives_complete_run :
      (e : EngineState)
      → Landed id g r n e
      → Gives
          (complete_run c run id n e)
          (Landed id g r (record n { status = satisfied; evidence = run.evidence }))
  unfolding complete_run
  gives_complete_run e l =
      let (e1, returns1, l1) = gives_status id g r n e satisfied l in
      let (e2, returns2, l2) = gives_evidence (record n { status = satisfied }) e1 l1 in
      let (same, blocked) = announce-SameStore e2 in
      (
        announce c run id n e2,
        rw (returns1, returns2) refl,
        Landed-same_graph id g r _ e2 r _ same (blocked ∙ l2.blocked) l2,
      )
