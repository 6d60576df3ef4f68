-- ===== src/Scheduler.antt =====
-- scheduler/scheduler.ts: which nodes may run, and the start of a run. Providers, the knowledge store
-- and `newRunId` are arguments: what they answer is what the caller passes in.
pub mod Ready
pub mod Rounds
pub mod Exact
pub mod Progress
pub mod Timeout
use evolve_loop.Base.{
  ℕ, ◌+◌, ◌-◌, String, ◌<>◌, Bool, true, false, not, ◌&&◌, Option, none, some, get_or, List, [],
  ◌∷◌, ◌++◌, map, length, contains, ◌==◌, ltb, keep, ltb_ℤ, sub_ℕ, pos, sort, Dict, insert, erase,
  values, if◌then◌else◌, string_eq, nat_eq,
}
use evolve_loop.Types.{
  GraphNode, ExecutionPolicy, Evidence, EvidencePayload, Rejection, KnowledgeEntry, ExecuteRequest,
  node_status_eq, pending, skipped, running, topological, priority_field, execution_order_eq,
}
use evolve_loop.Graph.Store.{
  GraphStore, get_all_nodes, set_node_status, set_provider, dependencies_satisfied,
}
use evolve_loop.Policies.{gate_enabled, retries_for}
use evolve_loop.Evidence.Builders.{build_scheduling_evidence}
use evolve_loop.Events.{
  Event, emit, EventSource, gate_skipped, provider_selected, node_scheduled, knowledge_hit,
  node_started,
}
use evolve_loop.Scheduler.Timeout.{parse_timeout_ms}

-- The loop of `readyNodes`: the graph, the log and the candidates so far.
pub record Scan : Type 0 where
  pub graph : GraphStore
  pub log : List Event
  pub candidates : List GraphNode

abbrev pub is_disabled_gate : ExecutionPolicy → GraphNode → Bool
is_disabled_gate policy n = n.type == "gate" && not (gate_enabled policy n.capability)

-- `setNodeStatus` cannot throw here: the node is one of the store's.
abbrev pub skip_gate : String → GraphNode → Scan → Scan
skip_gate feature n s = record s {
  graph = get_or (set_node_status n.id skipped s.graph) s.graph;
  log = emit s.log feature EventSource.scheduler none (gate_skipped n.id n.capability);
}

-- One round. The loop changes the status of a node only at that node, so the status that was read
-- with the list is the current one; the dependencies are looked up in the store as it is now.
unfoldable pub scan_node : ExecutionPolicy → String → Scan → GraphNode → Scan
scan_node policy feature s n =
    if not (n.status == pending)
    then s
    else if not (dependencies_satisfied s.graph n)
    then s
    else if is_disabled_gate policy n
    then skip_gate feature n s
    else record s { candidates = s.candidates ++ n ∷ [] }

unfoldable pub scan_nodes : ExecutionPolicy → String → Scan → List GraphNode → Scan
scan_nodes policy feature s [] = s
scan_nodes policy feature s (n ∷ ns) = scan_nodes policy feature (scan_node policy feature s n) ns

-- The comparators of `orderForExecution`. `locale_after a b` is `a.localeCompare(b) > 0`.
abbrev pub after_priority : GraphNode → GraphNode → Bool
after_priority a b = ltb_ℤ (get_or a.priority (pos 0)) (get_or b.priority (pos 0))

abbrev pub after_topological : (String → String → Bool) → GraphNode → GraphNode → Bool
after_topological locale_after a b =
    if length a.dependencies == length b.dependencies
    then locale_after a.id b.id
    else ltb (length b.dependencies) (length a.dependencies)

unfoldable pub order_for_execution :
    (String → String → Bool) → ExecutionPolicy → List GraphNode → List GraphNode
order_for_execution locale_after policy nodes =
    if policy.spec.execution_order == priority_field
    then sort after_priority nodes
    else sort (after_topological locale_after) nodes

unfoldable pub ready_nodes :
    (String → String → Bool) → ExecutionPolicy → String → GraphStore → List Event → Scan
unfolding scan_node scan_nodes get_all_nodes order_for_execution
ready_nodes locale_after policy feature g log =
    let s =
      scan_nodes policy feature (record { graph = g; log = log; candidates = [] })
        (get_all_nodes g) in
    record s { candidates = order_for_execution locale_after policy s.candidates }

pub record RunHandle : Type 0 where
  pub run_id : String
  pub node_id : String
  pub provider_id : String

-- The fields of a scheduler.
pub record SchedulerState : Type 0 where
  pub running : Dict RunHandle
  pub scheduling_evidence : List Evidence

unfoldable pub consume_scheduling_evidence : SchedulerState → List Evidence × SchedulerState
consume_scheduling_evidence s = (s.scheduling_evidence, record s { scheduling_evidence = [] })

unfoldable pub running_handles : SchedulerState → List RunHandle
running_handles s = values s.running

unfoldable pub remove_run : String → SchedulerState → SchedulerState
remove_run run_id s = record s { running = erase run_id s.running }

-- What the registry's selection hands to `schedule`.
pub record Selected : Type 0 where
  pub provider_id : String
  pub plugin : Option String
  pub strategy : String
  pub rejected : List Rejection
  pub selection_evidence : Evidence

-- The two run ids that a call of `schedule` draws, and the time.
pub record Draw : Type 0 where
  pub run_id : String
  pub evidence_run_id : String
  pub at : String

abbrev pub scheduling_payload : ExecutionPolicy → Selected → List String → EvidencePayload
scheduling_payload policy chosen ready_batch =
    EvidencePayload.scheduling chosen.provider_id chosen.rejected chosen.strategy ready_batch
      policy.spec.parallelism.max_parallel

-- What `schedule` changes, and the request that the provider is given.
pub record Started : Type 0 where
  pub graph : GraphStore
  pub scheduler : SchedulerState
  pub log : List Event
  pub request : ExecuteRequest

-- `KnowledgeStore.search({ capability })`: the entries that list the capability. An empty capability
-- is no condition.
unfoldable pub search_knowledge : List KnowledgeEntry → String → List KnowledgeEntry
search_knowledge entries capability =
    keep
      (λ (e : KnowledgeEntry).
        if capability == ""
        then true
        else elim e.capabilities [ none ↦ false | some l ↦ contains l capability ])
      entries

abbrev knowledge_hits : ExecutionPolicy → List KnowledgeEntry → GraphNode → List KnowledgeEntry
knowledge_hits policy entries n =
    if get_or policy.spec.consult_before_schedule false
    then search_knowledge entries n.capability
    else []

abbrev log_hits : String → GraphNode → List KnowledgeEntry → List Event → List Event
log_hits feature n [] log = log
log_hits feature n (e ∷ es) log =
    emit log feature EventSource.scheduler none
      (knowledge_hit n.capability (map (λ (k : KnowledgeEntry). k.id) (e ∷ es)))

-- The node is read as it was passed in, before the store's copy is set to running. As the objects
-- are shared, the request carries the node with its new status, provider and run. The provider is one
-- that the router knows.
unfoldable pub schedule :
    (feature : String)
    → ExecutionPolicy
    → List KnowledgeEntry
    → Draw
    → GraphNode
    → Selected
    → (ready_batch : List String) → GraphStore
    → SchedulerState
    → List Event
    → Option Started
unfolding set_node_status set_provider build_scheduling_evidence search_knowledge
schedule feature policy entries draw n chosen ready_batch g s log =
    elim (set_node_status n.id running g) [
      | none ↦ none
      | some g1 ↦ elim (set_provider n.id chosen.provider_id draw.run_id g1) [
        | none ↦ none
        | some g2 ↦
            let hits = knowledge_hits policy entries n in
            let log1 =
              emit log feature EventSource.scheduler none
                (provider_selected n.id chosen.provider_id) in
            let log2 =
              emit log1 feature EventSource.scheduler (some draw.run_id)
                (node_scheduled n.id chosen.provider_id (n.retry_count + 1)) in
            let log3 = log_hits feature n hits log2 in
            let log4 =
              emit log3 feature EventSource.scheduler (some draw.run_id)
                (node_started draw.run_id n.id) in
            some (record {
              graph = g2;
              scheduler = record {
                running =
                    insert draw.run_id
                      (record {
                        run_id = draw.run_id;
                        node_id = n.id;
                        provider_id = chosen.provider_id;
                      })
                      s.running;
                scheduling_evidence =
                    s.scheduling_evidence
                    ++ build_scheduling_evidence n.id draw.evidence_run_id draw.at
                        (scheduling_payload policy chosen ready_batch)
                      ∷ [];
              };
              log = log4;
              request = record {
                run_id = draw.run_id;
                node_id = n.id;
                capability = n.capability;
                inputs = get_or n.inputs [];
                definition_of_done = n.definition_of_done;
                retries_remaining = sub_ℕ (retries_for policy n) n.retry_count;
                timeout_ms = parse_timeout_ms policy.spec.step_timeout;
                provider_id = chosen.provider_id;
                executor_type = chosen.plugin;
                memory_scope = feature;
                knowledge_hits = hits;
                briefing = "Execute " <> n.capability <> " for node " <> n.id;
                node = record n {
                  status = running;
                  provider_id = some chosen.provider_id;
                  run_id = some draw.run_id;
                };
              };
            })
      ]
    ]
