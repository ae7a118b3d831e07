-- ===== src/Core.antt =====
-- packages/core/src: the records of the trust core and the invariants that guard them.
pub mod Types
pub mod Invariants
