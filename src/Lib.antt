-- ===== src/Lib.antt =====
-- Verification of the trust core.
--
-- The program keeps a workspace's resources, their revisions and their blobs. A request is
-- authorised by the policy, changes resources through the history service, and brings in bytes
-- through uploads, which pass a quarantine scan before they are promoted. The parts that decide
-- what is allowed, what is written and in which order are modelled here; HTTP, SQL and the
-- object stores stand behind them.
--
--   * Upload: packages/operations/src/upload-state-machine.ts. `transition_upload` is
--     `transitionUpload`, over the states of packages/protocol/src/index.ts.
--   * Quarantine/States, Quarantine/Store, Quarantine/Orchestrator:
--     packages/operations/src/quarantine-scan.ts and quarantine-scan-store.ts. The store is a
--     `Map`, here an association list in the order of insertion; the orchestrator adds the set of
--     processed callbacks. A method is a function from the state to the state and a result; a
--     throw keeps what was changed before it. Whether the scanner takes a job, and what the clock
--     reads, are arguments.
--   * Policy: packages/policy/src/index.ts. `evaluate_policy` is `evaluatePolicy`; the union of
--     action names is a data type with `action_name`, and a role stays a text, as assignments
--     carry it. `Date.parse` and the present instant are arguments.
--   * Core: packages/core/src/types.ts, errors.ts and invariants.ts. An assertion returns or
--     throws an error code.
--   * History: packages/operations/src/history-service.ts over the statements of
--     packages/persistence-postgres/src/history-repository.ts, in the transaction of db.ts. The
--     tables are lists of rows; a transaction that throws gives the old tables back. The instants
--     and ids that a call draws are arguments, and so is the hash of payloads. Transactions are
--     taken one after another.
--   * Recovery: packages/recovery/src/index.ts. `evaluate_recovery_gate` is
--     `evaluateRecoveryGate`; the map of exercises by kind is the list of its values.
--   * Audit: packages/audit/src/audit-chain.ts. The body of an event is turned into JSON, whose
--     canonical text and the previous hash are hashed; the digest, `JSON.stringify` of a text and
--     the order of keys are arguments.
--   * Storage: packages/storage/src/keys.ts, types.ts and memory-object-storage.ts. A storage is its
--     calls over a state. `MemoryStorage` has the maps `objects` and `multipart`; a stream is the
--     list of its bytes, and the digests, the instants and the random reference of an upload are
--     arguments. Storage/Calls runs any sequence of the calls that write.
--   * Promotion: packages/operations/src/promote-quarantine.ts over any storage with the interface
--     of packages/storage/src/types.ts, whose calls change a state and may throw.
--   * Ingest: packages/operations/src/object-ingest.ts. The services work on two states, that of the
--     storage and that of the catalog and the operations, each behind an interface; the variables
--     that `ingest` assigns are the record `Ingesting`. Ingest/Effects has the work of each
--     checkpoint, Ingest/Service the order of them with the `try`, Ingest/Immutable the
--     ingestor without operations.
--   * Transfer: packages/operations/src/transfer-grants.ts. `issue` works on the state of its signer
--     and its audit sink, decides by `evaluate_policy`, and takes the text of an expiry as a function
--     of the TTL; the name of a file is its list of code points.
--   * Schema: packages/schema-registry/src/types.ts and compatibility.ts. A manifest keeps the fields
--     that are compared, a `Record` is the list of its entries, and the changes that the source
--     pushes are joined lists. Schema/Doubles has the numbers that `Number` gives for
--     a text of digits, with their rounding.
--   * Common: tests on numbers and texts, equality as an instance, lists, maps, results, stateful
--     code that may throw, and instants.
--
-- A text is the library's text, compared by code points; the source compares ISO instants as
-- texts, which are ASCII. A JavaScript `undefined` or `null` is `none`, and an optional list
-- that is left out is the empty one, as the source reads it. There are two kinds of fuel. `decimal`,
-- which writes an index of a list as digits, takes n + 1 for n, more than n has digits.
-- `excess_bits`, which counts the halvings of a number down to 53 bits, takes 971: numbers from
-- 2 ^ 1024 on are Infinity before it is asked, and smaller ones need no more.
--
-- Not modelled: the control centre and the API's routing, the SDK, the registry of schemas and the
-- validation of payloads, the archive, the object storages that speak S3, reconciliation, identity,
-- observability, the fixtures and the remaining repositories. The rows of the audit events and of
-- the outbox are left out of the history's tables, which keep the events as the service hands them
-- over.
pub mod Common
pub mod Upload
pub mod Quarantine
pub mod Policy
pub mod Core
pub mod History
pub mod Recovery
pub mod Audit
pub mod Storage
pub mod Promotion
pub mod Ingest
pub mod Transfer
pub mod Schema
