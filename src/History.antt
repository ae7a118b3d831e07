-- ===== src/History.antt =====
-- Revisions, deletion and restoration of resources: packages/operations/src/history-service.ts over
-- the repository of packages/persistence-postgres/src/history-repository.ts.
pub mod Tables
pub mod Service
pub mod Chain
pub mod Linked
pub mod Conflicts
pub mod Calls
