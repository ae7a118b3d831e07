-- ===== src/Policy.antt =====
-- packages/policy/src/index.ts: who may do what in a workspace.
pub mod Actions
pub mod Roles
pub mod Evaluate
