-- ===== src/Engine/Loop.antt =====
-- The loop of run() of engine/execution-engine.ts. State.antt has what it keeps and what the outside
-- does to it, Dispatch.antt the start of a batch and its results, Poll.antt the results of external
-- jobs, Round.antt one iteration, Run.antt the loop and the result of the run.
pub mod State
pub mod Dispatch
pub mod Poll
pub mod Round
pub mod Run
pub mod Backed
pub mod Sound
pub mod Ends
