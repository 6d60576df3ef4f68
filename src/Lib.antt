-- ===== src/Lib.antt =====
-- EvolveLoop's capability orchestrator, orchestrator/src: a feature is a graph of capability nodes, which
-- a policy-driven engine hands to providers, and whose evidence decides when a node is satisfied.
--
-- The parts and their files, with the sources they follow (paths from orchestrator/src):
--
-- Base: Boolean tests, lists measured by native numbers, dictionaries in insertion order, integers, and
-- the stable sort of Array.prototype.sort, with their lemmas.
-- Types: types/index.ts, the shared records and unions.
-- Graph: graph/graph-store.ts. Graph.Store has the methods on one node, Graph.Walk transitiveDependents
-- and invalidateDownstream, Graph.Valid the invariant of a store and the round trip of a snapshot, Graph.Built its constructor.
-- Ir: ir/validator.ts. Ir.Search is detectCycle, Ir.Validate validateIR, Ir.Cycle their theory.
-- Policies: policies/policy-engine.ts, with the built-in policies in Policies.Builtin.
-- Evidence: evidence/builders.ts and evidence/validator.ts.
-- RunState: state/run-state.ts. Orchestrator: decide of orchestrator/orchestrator.ts.
-- Events: the events of events/event-bus.ts, whose log is the list of events emitted so far.
-- Scheduler: scheduler/scheduler.ts; readyNodes, schedule, parseTimeoutMs. Ready, Rounds and Exact are the
-- theory of readyNodes.
-- Telemetry: telemetry/metrics-accumulator.ts. Learning: learning/pattern-aggregator.ts.
-- Authority: authority/capability-authority.ts.
-- SkillGates: policy/megabrain-skill-gates.ts.
-- Engine: engine/execution-engine.ts. Engine.State is what processRunResult changes, Engine.Results the
-- function by its branches; Steps, Branches, Completion, Rejection, Settled and Outcome its theory.
-- Engine.Loop is run(): Dispatch a batch, Poll pollWaitingJobs, Round an iteration, Run the loop and the
-- result. Engine.Backing has what stands behind a node that lets others go ahead, Engine.Loop.Backed and
-- Sound that the loop keeps it, Engine.Loop.Ends that the loop ends.
-- Evolve: evolveloop, whose controller (Evolve.Controller) makes signals of observations (Miner),
-- patterns of signals (Patterns), needs of patterns (Needs), candidates for needs (Candidates) and
-- requests for candidates (Requests). Evolve.Authorized and Recurring are its theory.
-- Over several passes, with the types of evolveloop/longitudinal-types.ts (Evolve.Longitudinal): Cadence
-- is live/scoped-cadence.ts, Store persistence/signal-store.ts, Scoping the scope of an analysis in
-- longitudinal-controller.ts and Recording its recordOutcome, Pacing cadence.ts, Lifecycle
-- lifecycle/need-lifecycle.ts, Windows live/observation-window.ts, Outcome outcome/outcome-tracker.ts,
-- and Gates handoff/gate-result.ts, which opens windows.
-- Jobs: jobs/job-resume.ts, the result of an external job as the result of a run.
-- Samples: sample data, runs, and the theorems at them.
--
-- The engine owns the store, the log, the metrics and the patterns; the scheduler reads and writes the
-- same store, so its functions take the store and the log and return them. A method that throws returns
-- `none`. The nodes of the source are shared objects: where the code reads a field after a write (the
-- retry count after incrementRetry), the model reads the written value.
--
-- Fuel: the recursion of transitiveDependents enters a node at most once and is given the number of nodes
-- plus one; that of detectCycle holds each id at most once on its path and is given the number of nodes
-- plus two. The loop of run() is given a number of iterations; 501 more than those in which it may wait for
-- jobs are enough, since it counts the others up to 500.
--
-- Numbers: confidence and coverage are thousandths, retries_remaining is an integer, the rest are natural
-- numbers; none is bounded by a machine width in the source.
--
-- What an iteration of run() is answered from outside is one record (Answers): the calls of pause, resume,
-- abort and requestReplan before it, the provider that the registry selects, the results of the
-- executors, and the files of jobs. Answers of different iterations are independent of each other.
--
-- Arguments that stand for other code: the comparisons of rates, which are floating-point quotients, the
-- texts that are numbered up to a count, the content of the file of a gate, SHA-256, Date.parse and the
-- order of texts, the times and run ids of a call, `localeCompare`, `resolve` of node:path, the policies
-- that a YAML library reads from a directory, the provider that the registry selected, and the knowledge
-- entries. Of the memory store, whose file is not in the repository, the calls are kept.
--
-- Not modelled: the analysis over several passes that puts these parts together, with the aggregation of
-- patterns, the inventory and the coordinator of live analyses, the files of jobs and checkpoints,
-- plugins, discovery, the registry's statistics (fractions), the providers, the adapters of the
-- EvolveLoop, the command line, and the agents and documents beside the orchestrator.
pub mod Base
pub mod Types
pub mod Graph
pub mod Ir
pub mod Policies
pub mod Evidence
pub mod RunState
pub mod Orchestrator
pub mod Evolve
pub mod Events
pub mod Scheduler
pub mod Telemetry
pub mod Learning
pub mod Authority
pub mod SkillGates
pub mod Jobs
pub mod Engine
pub mod Samples
