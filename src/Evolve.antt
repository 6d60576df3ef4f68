-- ===== src/Evolve.antt =====
-- evolveloop: observations of runs become signals, recurring signals patterns, patterns needs, and needs
-- requests to change something, which are handed on and never carried out here.
pub mod Signal
pub mod Need
pub mod Host
pub mod Miner
pub mod Patterns
pub mod Needs
pub mod Candidates
pub mod Requests
pub mod Judge
pub mod Controller
pub mod Authorized
pub mod Recurring
pub mod Cadence
pub mod Pacing
pub mod Longitudinal
pub mod Store
pub mod Scoping
pub mod Outcome
pub mod Recording
pub mod Windows
pub mod Gates
pub mod Lifecycle
