-- ===== src/Graph.antt =====
-- graph/graph-store.ts: the nodes of a run by their ids, with what the engine knows of each.
pub mod Store
pub mod Valid
pub mod Built
pub mod Walk
