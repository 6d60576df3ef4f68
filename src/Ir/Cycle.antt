-- ===== src/Ir/Cycle.antt =====
-- ir/validator.ts: the answer of detectCycle and the cycles of the graph.
pub mod Sound
pub mod Complete
pub mod Ends
pub mod Decides
