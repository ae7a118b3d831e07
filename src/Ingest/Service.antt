-- ===== src/Ingest/Service.antt =====
-- `ObjectIngestService.ingest` of packages/operations/src/object-ingest.ts.
use trust_core.Common.{
  or_default, ltb, if◌then◌else◌, ◌==◌, string_eq, number_eq, option_eq, length, Result, ok, err, ℕ,
  String, Bool, true, false, Option, none, some, List,
}
use trust_core.Common.Effect.{found, M, ◌>>=◌, ◌>>◌, pure, modify, read}
use trust_core.Core.Types.{BlobObject}
use trust_core.Storage.{ObjectStorage}
use trust_core.Ingest.{
  BeginInput, authorised, temporary_upload_created, bytes_received, hash_verified,
  immutable_object_committed, metadata_committed, audit_committed, completed, StoredResult,
  IngestOperation, ObjectIngestResult, IngestError, thrown, key_reused, no_blob, IngestInput,
  Stores, checkpoint_eq,
}
use trust_core.Ingest.Effects.{
  ObjectIngestService, Ingesting, Job, Ing, on_tables, checkpoint, create_temporary, receive_bytes,
  verify_hash, commit_object, commit_metadata, authorise, record_existing,
}

abbrev pub blob_from_result : Option StoredResult → Option BlobObject
blob_from_result none = none
blob_from_result (some r) = r.blob

abbrev pub was_deduplicated : Option StoredResult → Bool
was_deduplicated none = false
was_deduplicated (some r) = r.deduplicated

module _ {S T : Type 0} (job : Job S T) where
  -- The checkpoints of an object that the catalog has already.
  unfoldable pub mark_existing : BlobObject → Ing S T (Unit {0})
  mark_existing existing = do
    checkpoint job temporary_upload_created (pure tt)
    checkpoint job bytes_received (pure tt)
    checkpoint job hash_verified (pure tt)
    checkpoint job immutable_object_committed (pure tt)
    checkpoint job metadata_committed
        (record_existing job job.service.catalog.commit_verified_ingest existing)
    checkpoint job audit_committed (pure tt)

  unfoldable pub ingest_existing : BlobObject → Ing S T (Unit {0})
  ingest_existing existing = do
    modify λ w. record w { blob = some existing; deduplicated = true }
    mark_existing existing

  unfoldable pub ingest_new : Ing S T (Unit {0})
  ingest_new = do
    checkpoint job temporary_upload_created (create_temporary job)
    checkpoint job bytes_received (receive_bytes job)
    checkpoint job hash_verified (verify_hash job)
    checkpoint job immutable_object_committed (commit_object job)
    checkpoint job metadata_committed (commit_metadata job)
    checkpoint job audit_committed (pure tt)

  abbrev pub ingest_found : Option BlobObject → Ing S T (Unit {0})
  ingest_found none = ingest_new
  ingest_found (some existing) = ingest_existing existing

  unfoldable pub finish : Ing S T ObjectIngestResult
  finish = do
    known ← read (λ w. w.blob)
    blob ← found known no_blob
    deduplicated ← read (λ w. w.deduplicated)
    checkpoint job completed (
        on_tables (
          job.service.operations.complete job.input.workspace_id job.operation.id
            (record { blob = some blob; deduplicated = deduplicated })))
    pure (record {
      operation_id = job.operation.id;
      blob = blob;
      deduplicated = deduplicated;
      resumed = ltb 0 (length job.operation.checkpoints);
    })

  -- The body of the `try`.
  unfoldable pub ingest_steps : Ing S T ObjectIngestResult
  ingest_steps = do
    checkpoint job authorised (authorise job)
    existing ← on_tables (job.service.catalog.find_by_hash job.input.workspace_id job.sha256)
    ingest_found existing
    finish

abbrev pub chosen_storage :
    {S T : Type 0} → ObjectIngestService S T → IngestInput S → ObjectStorage S
chosen_storage service input = or_default service.storage input.storage

abbrev pub begin_input : {S : Type 0} → IngestInput S → (request_hash sha256 : String) → BeginInput
begin_input input request_hash sha256 = record {
  workspace_id = input.workspace_id;
  idempotency_key = input.idempotency_key;
  actor_id = input.actor_id;
  principal_type = input.principal_type;
  request_hash = request_hash;
  media_type = input.media_type;
  sha256 = sha256;
  byte_length = length input.bytes;
}

module _ {S T : Type 0} (service : ObjectIngestService S T) (expires_at : String)
    (digest : List ℕ → String)
    (request_hash_of : (workspace_id media_type sha256 : String) → String)
    (message : IngestError → String) where
  abbrev pub start : IngestOperation → Stores S T → Ingesting S T
  start operation stores = record {
    stores = stores;
    done = operation.checkpoints;
    context = operation.context;
    blob = blob_from_result operation.result;
    deduplicated = was_deduplicated operation.result;
  }

  -- The `catch`: a failure of `fail` is dropped.
  abbrev pub caught :
      IngestInput S
      → IngestOperation
      → Ingesting S T × Result IngestError ObjectIngestResult
      → Stores S T × Result IngestError ObjectIngestResult
  caught input operation (w, ok r) = (w.stores, ok r)
  caught input operation (w, err e) = (
    record w.stores {
      tables =
          (service.operations.fail input.workspace_id operation.id (message e) w.stores.tables).0;
    },
    err e,
  )

  abbrev pub resume_ingest :
      IngestInput S → IngestOperation → M (Stores S T) IngestError ObjectIngestResult
  resume_ingest input operation stores = caught input operation (
      ingest_steps
        (record {
          service = service;
          expires_at = expires_at;
          sha256 = digest input.bytes;
          input = input;
          operation = operation;
          storage = chosen_storage service input;
        })
        (start operation stores))

  abbrev pub begun :
      IngestInput S
      → (request_hash : String) → Stores S T
      → T × Result String IngestOperation
      → Stores S T × Result IngestError ObjectIngestResult
  begun input request_hash stores (t, err e) = (record stores { tables = t }, err (thrown e))
  begun input request_hash stores (t, ok operation) =
      let resumed = resume_ingest input operation (record stores { tables = t }) in
      if operation.request_hash == request_hash
      then resumed
      else (record stores { tables = t }, err key_reused)

  unfoldable pub ingest : IngestInput S → M (Stores S T) IngestError ObjectIngestResult
  ingest input stores =
      let sha256 = digest input.bytes in
      let request_hash = request_hash_of input.workspace_id input.media_type sha256 in
      begun input request_hash stores
        (service.operations.begin (begin_input input request_hash sha256) stores.tables)
