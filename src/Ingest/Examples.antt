-- ===== src/Ingest/Examples.antt =====
-- Ingests over the storage of packages/storage/src/memory-object-storage.ts, with a catalog and
-- operations like those of packages/operations/tests/object-ingest.test.ts.
use trust_core.Common.{
  after_prefix, ◌==◌, string_eq, number_eq, option_eq, length, find, is_blank, is_hex_text, Result,
  ok, lookup, insert, delete, ℕ, String, ◌≡◌, refl, Bool, true, false, ◌&&◌, Option, none, some,
  List, [], ◌∷◌, ◌++◌,
}
use trust_core.Common.Effect.{M}
use trust_core.Core.Types.{BlobObject, provider_managed, verified}
use trust_core.Policy.Evaluate.{user}
use trust_core.Upload
use trust_core.Storage.Keys.{
  canonical_object_key, temporary_object_key, is_temporary_key, is_safe_id,
}
use trust_core.Storage.Memory.{
  MemoryStorage, StoredBytes, memory_object_storage, create_temporary_upload, commit_immutable,
  delete_temporary,
}
use trust_core.Storage.Calls.Addressed.{IsSound}
use trust_core.Ingest.{
  IngestOperation, IngestOperationStore, BlobCatalog, BeginInput, IngestInput, Stores,
  ObjectIngestResult, IngestError, checkpoint_eq, state_of, authorised, temporary_upload_created,
  bytes_received, hash_verified, immutable_object_committed, text,
}
use trust_core.Ingest.Effects.{
  ObjectIngestService, checkpoint, run_checkpoint, mark_reached, authorise, create_temporary,
  receive_bytes, verify_hash, keep_stored, commit_object, commit_metadata,
}
use trust_core.Ingest.Service.{
  ingest, ingest_steps, ingest_new, ingest_existing, mark_existing, finish, begin_input,
}
use trust_core.Ingest.Resumed.{ingest_resumed}
use trust_core.Ingest.Stored.{ingest_keeps, ingest_stored}
use trust_core.Ingest.Immutable.{ImmutableObjectIngestor, IngestorInput, ingest_immutable}
use trust_core.Ingest.Immutable.Clean.{ingest_immutable_clean}

abbrev digest_a : String
digest_a = "aaaaaaaaaaaaaaaaaaaaaaaaaaaaaaaaaaaaaaaaaaaaaaaaaaaaaaaaaaaaaaaa"

abbrev digest_b : String
digest_b = "bbbbbbbbbbbbbbbbbbbbbbbbbbbbbbbbbbbbbbbbbbbbbbbbbbbbbbbbbbbbbbbb"

abbrev toy_digest : List ℕ → String
toy_digest [] = digest_b
toy_digest (b ∷ body) = digest_a

abbrev toy_request_hash : String → String → String → String
toy_request_hash workspace_id media_type sha256 = sha256

record Tables : Type 0 where
  operation : Option IngestOperation
  blobs : List BlobObject

abbrev fresh : BeginInput → IngestOperation
fresh b = record {
  id = "op-1";
  workspace_id = b.workspace_id;
  request_hash = b.request_hash;
  state = Upload.requested;
  checkpoints = [];
  context = [];
  result = none;
}

abbrev begun_before : BeginInput → Option IngestOperation → M Tables String IngestOperation
begun_before b none t = (record t { operation = some (fresh b) }, ok (fresh b))
begun_before b (some o) t = (t, ok o)

abbrev changed : (IngestOperation → IngestOperation) → M Tables String (Unit {0})
changed f t =
    (record t { operation = elim t.operation [ none ↦ none | some o ↦ some (f o) ] }, ok tt)

abbrev operations : IngestOperationStore Tables
operations = record {
  begin = λ b t. begun_before b t.operation t;
  save_context = λ w o c s. changed (λ x. record x { context = c; state = s });
  mark_checkpoint = λ w o n.
      changed (λ x. record x { state = state_of n; checkpoints = x.checkpoints ++ n ∷ [] });
  complete = λ w o r. changed (λ x. record x { state = Upload.completed; result = some r });
  fail = λ w o e t. (t, ok tt);
}

abbrev is_blob : String → String → BlobObject → Bool
is_blob workspace_id sha256 b = b.workspace_id == workspace_id && b.sha256 == sha256

abbrev catalog : BlobCatalog Tables
catalog = record {
  find_by_hash = λ w d t. (t, ok (find (is_blob w d) t.blobs));
  record_verified = λ b t. (record t { blobs = b ∷ t.blobs }, ok b);
  commit_verified_ingest = none;
}

abbrev service : ObjectIngestService MemoryStorage Tables
service = record {
  storage = memory_object_storage toy_digest;
  catalog = catalog;
  operations = operations;
  provider = "s3-compatible";
  now = "2026-01-01T00:00:00.000Z";
  next_id = "blob-1";
  after_effect = λ name t. (t, ok tt);
}

abbrev input : IngestInput MemoryStorage
input = record {
  workspace_id = "w-1";
  actor_id = "actor";
  principal_type = user;
  idempotency_key = "key";
  bytes = 1 ∷ 2 ∷ 3 ∷ [];
  media_type = "text/plain";
  storage = none;
  storage_binding_id = none;
  storage_binding_generation = none;
}

abbrev empty_stores : Stores MemoryStorage Tables
empty_stores = record {
  objects = record { objects = []; multipart = [] };
  tables = record { operation = none; blobs = [] };
}

abbrev the_blob : BlobObject
the_blob = record {
  id = "blob-1";
  workspace_id = "w-1";
  sha256 = digest_a;
  byte_length = 3;
  media_type = "text/plain";
  storage_provider = "s3-compatible";
  storage_key =
      "workspaces/w-1/objects/aa/aaaaaaaaaaaaaaaaaaaaaaaaaaaaaaaaaaaaaaaaaaaaaaaaaaaaaaaaaaaaaaaa";
  encryption_state = provider_managed;
  encryption_key_ref = none;
  verification_state = verified;
  created_at = "2026-01-01T00:00:00.000Z";
  storage_binding_id = none;
  storage_binding_generation = none;
}

abbrev run :
    Stores MemoryStorage Tables
    → Stores MemoryStorage Tables × Result IngestError ObjectIngestResult
run stores =
    ingest service "2026-01-02T00:00:00.000Z" toy_digest toy_request_hash (λ e. "failed") input
      stores

abbrev first_result : ObjectIngestResult
first_result = record {
  operation_id = "op-1";
  blob = the_blob;
  deduplicated = false;
  resumed = false;
}

first_run : run empty_stores ≡ ((run empty_stores).0, ok first_result)
unfolding ingest ingest_steps ingest_new ingest_existing mark_existing finish checkpoint
    run_checkpoint mark_reached authorise create_temporary receive_bytes verify_hash keep_stored
    commit_object commit_metadata create_temporary_upload commit_immutable
    trust_core.Storage.Memory.write_temporary canonical_object_key temporary_object_key is_safe_id
    is_temporary_key is_hex_text is_blank after_prefix lookup insert delete
first_run = refl

-- The same request again says that it was deduplicated, which its first answer denied.
test_replayed :
    (run (run empty_stores).0).1 ≡ ok (record first_result { deduplicated = true; resumed = true })
unfolding ingest ingest_steps ingest_new ingest_existing mark_existing finish checkpoint
    run_checkpoint mark_reached authorise create_temporary receive_bytes verify_hash keep_stored
    commit_object commit_metadata create_temporary_upload commit_immutable
    trust_core.Storage.Memory.write_temporary canonical_object_key temporary_object_key is_safe_id
    is_temporary_key is_hex_text is_blank after_prefix lookup insert delete
test_replayed = refl

empty-IsSound : IsSound toy_digest empty_stores.objects
unfolding lookup
empty-IsSound = record {
  targets = λ id s h. cc;
  digests = λ k o h. cc;
  addressed = λ w d k o key h. cc;
}

test_kept :
    IsSound toy_digest (run empty_stores).0.objects
    × ((w d k : String) (o : StoredBytes)
        → canonical_object_key w d ≡ ok k
        → lookup k empty_stores.objects.objects ≡ some o
        → lookup k (run empty_stores).0.objects.objects ≡ some o)
test_kept =
    ingest_keeps service "2026-01-02T00:00:00.000Z" toy_digest toy_request_hash (λ e. "failed")
      input empty_stores refl empty-IsSound

-- An operation that has marked its commit, and has the result of its first run to come.
abbrev stored_before : IngestOperation
stored_before = record (fresh (begin_input input digest_a digest_a)) {
  checkpoints =
      authorised ∷ temporary_upload_created ∷ bytes_received ∷ hash_verified
      ∷ immutable_object_committed ∷ [];
  context = ("storageKey", text the_blob.storage_key) ∷ [];
}

abbrev resumed_stores : Stores MemoryStorage Tables
resumed_stores = record empty_stores {
  tables = record { operation = some stored_before; blobs = [] };
}

ingest_resumed_example : (run resumed_stores).0.objects ≡ resumed_stores.objects
ingest_resumed_example =
    ingest_resumed service "2026-01-02T00:00:00.000Z" toy_digest toy_request_hash (λ e. "failed")
      input resumed_stores resumed_stores.tables stored_before refl refl refl refl

-- It goes on from the commit to the end.
test_resumed : (run resumed_stores).1 ≡ ok (record first_result { resumed = true })
unfolding ingest ingest_steps ingest_new ingest_existing mark_existing finish checkpoint
    run_checkpoint mark_reached authorise create_temporary receive_bytes verify_hash keep_stored
    commit_object commit_metadata lookup insert
test_resumed = refl

abbrev began : IngestOperation
began = fresh (begin_input input digest_a digest_a)

ingest_stored_example :
    (k : String) × (o : StoredBytes) × (canonical_object_key "w-1" digest_a ≡ ok k)
    × (lookup k (run empty_stores).0.objects.objects ≡ some o)
    × (toy_digest o.body ≡ digest_a)
    × (length o.body ≡ 3)
ingest_stored_example =
    ingest_stored service "2026-01-02T00:00:00.000Z" toy_digest toy_request_hash (λ e. "failed")
      input empty_stores (run empty_stores).0 (record { operation = some began; blobs = [] }) began
      first_result refl empty-IsSound refl refl first_run refl

abbrev ingestor : ImmutableObjectIngestor MemoryStorage Tables
ingestor = record {
  storage = memory_object_storage toy_digest;
  catalog = catalog;
  provider = "s3-compatible";
  now = "2026-01-01T00:00:00.000Z";
  next_id = "blob-1";
  expires_at = "2026-01-02T00:00:00.000Z";
}

-- The media type is blank, so the write is refused.
abbrev refused : IngestorInput
refused = record { workspace_id = "w-1"; bytes = 1 ∷ []; media_type = " "; operation_id = "op-1" }

temporary_key : temporary_object_key "w-1" "op-1" ≡ ok "workspaces/w-1/temporary/op-1"
unfolding temporary_object_key is_safe_id
temporary_key = refl

ingest_immutable_clean_example :
    lookup "workspaces/w-1/temporary/op-1"
      (ingest_immutable ingestor toy_digest refused empty_stores).0.objects.objects
    ≡ none
unfolding lookup
ingest_immutable_clean_example =
    ingest_immutable_clean ingestor toy_digest refused refl "workspaces/w-1/temporary/op-1"
      empty_stores temporary_key refl
