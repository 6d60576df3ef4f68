-- ===== src/Ir.antt =====
-- ir/validator.ts: the checks on a capability graph before it runs.
pub mod Search
pub mod Cycle
pub mod Validate
