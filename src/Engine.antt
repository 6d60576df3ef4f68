-- ===== src/Engine.antt =====
-- engine/execution-engine.ts: the engine. What it keeps is in State.antt, what it does with the result
-- of a run in Results.antt; the other files prove what becomes of the run's node.
pub mod State
pub mod Results
pub mod Steps
pub mod Branches
pub mod Completion
pub mod Rejection
pub mod Settled
pub mod Outcome
pub mod Backing
pub mod Loop
