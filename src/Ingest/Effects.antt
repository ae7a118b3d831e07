-- ===== src/Ingest/Effects.antt =====
-- The checkpoints of `ObjectIngestService` of packages/operations/src/object-ingest.ts, with the work
-- of each. The digest, the instants and the id that an ingest draws are arguments.
use trust_core.Common.{
  is_truthy, if◌then◌else◌, ◌==◌, string_eq, number_eq, option_eq, length, includes, is_empty,
  Result, ok, err, Dict, lookup, insert, String, Bool, not, ◌&&◌, Option, none, some, List, ◌∷◌,
}
use trust_core.Common.Effect.{require, found, M, ◌>>=◌, ◌>>◌, pure, modify, read}
use trust_core.Core.Types.{BlobObject, provider_managed, verified}
use trust_core.Storage.{CommitInput, ObjectMetadata, ObjectStorage, StorageError}
use trust_core.Ingest.{
  IngestCheckpoint, temporary_upload_created, hash_verified, immutable_object_committed, state_of,
  ContextValue, text, number, other, IngestOperation, IngestOperationStore, BlobCatalog,
  VerifiedIngest, IngestError, storing, thrown, incomplete_context, length_mismatch,
  verification_failed, missing_context, IngestInput, Stores, checkpoint_eq,
}

pub record ObjectIngestService (S : Type 0) (T : Type 0) : Type 0 where
  pub storage : ObjectStorage S
  pub catalog : BlobCatalog T
  pub operations : IngestOperationStore T
  pub provider : String
  pub now : String
  pub next_id : String
  pub after_effect : IngestCheckpoint → M T String (Unit {0})

-- The variables of one ingest, with the two stores.
pub record Ingesting (S : Type 0) (T : Type 0) : Type 0 where
  pub stores : Stores S T
  -- `completed`.
  pub done : List IngestCheckpoint
  pub context : Dict ContextValue
  pub blob : Option BlobObject
  pub deduplicated : Bool

-- What one ingest has at hand once its operation has begun.
pub record Job (S : Type 0) (T : Type 0) : Type 0 where
  pub service : ObjectIngestService S T
  pub expires_at : String
  pub sha256 : String
  pub input : IngestInput S
  pub operation : IngestOperation
  pub storage : ObjectStorage S

abbrev pub string_of : Option ContextValue → Option String
string_of none = none
string_of (some (text s)) = if is_empty s then none else some s
string_of (some (number n)) = none
string_of (some other) = none

abbrev pub is_given : String → Bool
is_given s = not (is_empty s)

abbrev pub given_id : Option String → Option String
given_id id = if is_truthy id then id else none

abbrev pub Ing : Type 0 → Type 0 → Type 0 → Type 0
Ing S T A = M (Ingesting S T) IngestError A

module _ {S T : Type 0} where
  abbrev pub with_objects :
      {A : Type 0}
      → Ingesting S T
      → S × Result StorageError A
      → Ingesting S T × Result IngestError A
  with_objects w (s, ok a) = (record w { stores = record w.stores { objects = s } }, ok a)
  with_objects w (s, err e) =
      (record w { stores = record w.stores { objects = s } }, err (storing e))

  abbrev pub on_objects : {A : Type 0} → M S StorageError A → Ing S T A
  on_objects m w = with_objects w (m w.stores.objects)

  abbrev pub with_tables :
      {A : Type 0} → Ingesting S T → T × Result String A → Ingesting S T × Result IngestError A
  with_tables w (t, ok a) = (record w { stores = record w.stores { tables = t } }, ok a)
  with_tables w (t, err e) = (record w { stores = record w.stores { tables = t } }, err (thrown e))

  abbrev pub on_tables : {A : Type 0} → M T String A → Ing S T A
  on_tables m w = with_tables w (m w.stores.tables)

  abbrev pub set_context : String → ContextValue → Ing S T (Unit {0})
  set_context key value = modify λ w. record w { context = insert key value w.context }

  abbrev pub set_blob : BlobObject → Ing S T (Unit {0})
  set_blob b = modify λ w. record w { blob = some b }

  abbrev pub required_context_string : String → Ing S T String
  required_context_string key = do
    value ← read (λ w. string_of (lookup key w.context))
    found value (missing_context key)

module _ {S T : Type 0} (job : Job S T) where
  -- What follows the effect of a checkpoint.
  unfoldable pub mark_reached : IngestCheckpoint → Ing S T (Unit {0})
  mark_reached name = do
    on_tables (job.service.after_effect name)
    on_tables (job.service.operations.mark_checkpoint job.input.workspace_id job.operation.id name)
    modify λ w. record w { done = name ∷ w.done }

  -- The work of a checkpoint that has not been reached.
  unfoldable pub run_checkpoint : IngestCheckpoint → Ing S T (Unit {0}) → Ing S T (Unit {0})
  run_checkpoint name effect = do effect; mark_reached name

  unfoldable pub checkpoint : IngestCheckpoint → Ing S T (Unit {0}) → Ing S T (Unit {0})
  checkpoint name effect = do
    reached ← read (λ w. includes w.done name)
    let now_run = run_checkpoint name effect
    (if reached then pure tt else now_run)

  abbrev pub save_context : IngestCheckpoint → Ing S T (Unit {0})
  save_context name = do
    context ← read (λ w. w.context)
    on_tables (
        job.service.operations.save_context job.input.workspace_id job.operation.id context
          (state_of name))

  unfoldable pub authorise : Ing S T (Unit {0})
  authorise =
      require
        (is_given job.input.workspace_id
          && is_given job.input.actor_id
          && is_given job.input.idempotency_key
          && is_given job.input.media_type)
        incomplete_context

  unfoldable pub create_temporary : Ing S T (Unit {0})
  create_temporary = do
    temporary ←
        on_objects (
          job.storage.create_temporary_upload job.expires_at job.input.workspace_id
            job.operation.id)
    set_context "temporaryKey" (text temporary.key)
    save_context temporary_upload_created

  unfoldable pub receive_bytes : Ing S T (Unit {0})
  receive_bytes = do
    key ← required_context_string "temporaryKey"
    received ←
        on_objects
          (job.storage.write_temporary (record { key = key }) job.input.bytes job.input.media_type)
    require (received.byte_length == length job.input.bytes) length_mismatch

  unfoldable pub verify_hash : Ing S T (Unit {0})
  verify_hash = do
    set_context "sha256" (text job.sha256)
    set_context "byteLength" (number (length job.input.bytes))
    save_context hash_verified

  -- The committed object is checked and noted.
  unfoldable pub keep_stored : ObjectMetadata → Ing S T (Unit {0})
  keep_stored stored = do
    require (stored.sha256 == some job.sha256 && stored.byte_length == length job.input.bytes)
        verification_failed
    set_context "storageKey" (text stored.key)
    save_context immutable_object_committed

  abbrev pub commit_input : String → CommitInput
  commit_input key = record {
    temporary = record { key = key };
    workspace_id = job.input.workspace_id;
    sha256 = job.sha256;
    byte_length = length job.input.bytes;
    media_type = job.input.media_type;
  }

  unfoldable pub commit_object : Ing S T (Unit {0})
  commit_object = do
    key ← required_context_string "temporaryKey"
    stored ← on_objects (job.storage.commit_immutable (commit_input key))
    keep_stored stored

  abbrev pub candidate : String → BlobObject
  candidate storage_key = record {
    id = job.service.next_id;
    workspace_id = job.input.workspace_id;
    sha256 = job.sha256;
    byte_length = length job.input.bytes;
    media_type = job.input.media_type;
    storage_provider = job.service.provider;
    storage_key = storage_key;
    encryption_state = provider_managed;
    encryption_key_ref = none;
    verification_state = verified;
    created_at = job.service.now;
    storage_binding_id = given_id job.input.storage_binding_id;
    storage_binding_generation = job.input.storage_binding_generation;
  }

  abbrev pub verified_ingest : BlobObject → VerifiedIngest
  verified_ingest blob = record {
    blob = blob;
    operation_id = job.operation.id;
    actor_id = job.input.actor_id;
    actor_type = job.input.principal_type;
    occurred_at = job.service.now;
  }

  abbrev pub record_blob :
      Option (VerifiedIngest → M T String BlobObject) → BlobObject → Ing S T BlobObject
  record_blob none blob = on_tables (job.service.catalog.record_verified blob)
  record_blob (some commit) blob = on_tables (commit (verified_ingest blob))

  unfoldable pub commit_metadata : Ing S T (Unit {0})
  commit_metadata = do
    key ← required_context_string "storageKey"
    blob ← record_blob job.service.catalog.commit_verified_ingest (candidate key)
    set_blob blob

  -- The effect on a blob that the catalog has, which only the combined commit changes.
  abbrev pub record_existing :
      Option (VerifiedIngest → M T String BlobObject) → BlobObject → Ing S T (Unit {0})
  record_existing none blob = pure tt
  record_existing (some commit) blob = do
    committed ← on_tables (commit (verified_ingest blob))
    set_blob committed
