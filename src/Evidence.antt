-- ===== src/Evidence.antt =====
-- evidence/: the emitters and the validator.
pub mod Builders
pub mod Validator
