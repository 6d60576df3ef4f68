-- ===== src/Types.antt =====
-- The shared types, types/index.ts.
mod EvidenceRecord
mod Node
mod Policy
mod Run
unfoldable pub use EvidenceRecord.*
unfoldable pub use Node.*
unfoldable pub use Policy.*
pub use Run.*
