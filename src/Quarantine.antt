-- ===== src/Quarantine.antt =====
-- packages/operations/src/quarantine-scan.ts and quarantine-scan-store.ts: the scan of an uploaded
-- object before it may be promoted.
pub mod States
pub mod Store
pub mod Orchestrator
