-- ===== src/Ingest.antt =====
-- The types of packages/operations/src/object-ingest.ts. A storage changes the state `S`, and the
-- catalog and the operations, which throw texts, the state `T`.
pub mod Effects
pub mod Service
pub mod Frames
pub mod Keeping
pub mod Returned
pub mod Committed
pub mod Resumed
pub mod Stored
pub mod Immutable
mod Examples
use trust_core.Common.{
  codes-inj, is_hex_text-all, codes-append, after_prefix-append, after_prefix, starts_with,
  contains, is_truthy, ltb, leb, nat_eq, if◌then◌else◌, nat_eq_iff, Bool-cases, Option-cases, Eq,
  ◌==◌, eq_iff, string_eq, number_eq, option_beq, option_beq_iff, option_eq, discrete_beq,
  discrete_beq_iff, discrete_eq, length, length-append, any, all, find, keep, find-keep,
  find-append, find-Any, Any-find, find-Mem, Any-map, All, Any, includes, codes, is_space, is_blank,
  is_empty, is_hex, is_hex_text, Result, ok, err, ◌>>=◌, ◌>>◌, throw_if, Result-cases, >>=-eq-ok,
  Dict, lookup, insert, delete, values, lookup-insert, lookup-delete, lookup-insert_self, ℕ, zero,
  suc, ◌+◌, ◌-◌, ◌*◌, ◌/◌, ◌%◌, ◌^◌, ◌≤◌, ◌<◌, String, ◌≡◌, refl, sym, ap, ◌∙◌, ◌≢◌, ◌↔◌, ◌⊎◌, inl,
  inr, Bool, true, false, not, ◌&&◌, ◌||◌, Option, none, some, List, [], ◌∷◌, ◌++◌, map, arith,
}
use trust_core.Common.Effect.{M}
use trust_core.Core.Types.{BlobObject}
use trust_core.Policy.Evaluate.{PrincipalType}
use trust_core.Upload
use trust_core.Upload.{UploadState}
use trust_core.Storage.{ObjectStorage, StorageError}

pub data IngestCheckpoint : Type 0 where
  authorised temporary_upload_created bytes_received hash_verified : IngestCheckpoint
  immutable_object_committed metadata_committed audit_committed completed : IngestCheckpoint

abbrev pub IngestCheckpoint-discrete : Discrete IngestCheckpoint
IngestCheckpoint-discrete = hlevel

instance abbrev pub checkpoint_eq : Eq IngestCheckpoint
checkpoint_eq = discrete_eq IngestCheckpoint-discrete

-- A checkpoint is one of the states of an operation.
abbrev pub state_of : IngestCheckpoint → UploadState
state_of authorised = Upload.authorised
state_of temporary_upload_created = Upload.temporary_upload_created
state_of bytes_received = Upload.bytes_received
state_of hash_verified = Upload.hash_verified
state_of immutable_object_committed = Upload.immutable_object_committed
state_of metadata_committed = Upload.metadata_committed
state_of audit_committed = Upload.audit_committed
state_of completed = Upload.completed

-- A value of the context, `unknown` in the source.
pub data ContextValue : Type 0 where
  text : String → ContextValue
  number : ℕ → ContextValue
  other : ContextValue

-- The result that an ingest stores; `none` where its `blob` is no object.
pub record StoredResult : Type 0 where
  pub blob : Option BlobObject
  pub deduplicated : Bool

pub record IngestOperation : Type 0 where
  pub id : String
  pub workspace_id : String
  pub request_hash : String
  pub state : UploadState
  pub checkpoints : List IngestCheckpoint
  pub context : Dict ContextValue
  pub result : Option StoredResult

pub record BeginInput : Type 0 where
  pub workspace_id : String
  pub idempotency_key : String
  pub actor_id : String
  pub principal_type : PrincipalType
  pub request_hash : String
  pub media_type : String
  pub sha256 : String
  pub byte_length : ℕ

pub record IngestOperationStore (T : Type 0) : Type 0 where
  pub begin : BeginInput → M T String IngestOperation
  pub save_context :
      (workspace_id operation_id : String) → Dict ContextValue → UploadState → M T String (Unit {0})
  pub mark_checkpoint :
      (workspace_id operation_id : String) → IngestCheckpoint → M T String (Unit {0})
  pub complete : (workspace_id operation_id : String) → StoredResult → M T String (Unit {0})
  pub fail : (workspace_id operation_id error : String) → M T String (Unit {0})

pub record VerifiedIngest : Type 0 where
  pub blob : BlobObject
  pub operation_id : String
  pub actor_id : String
  pub actor_type : PrincipalType
  pub occurred_at : String

pub record BlobCatalog (T : Type 0) : Type 0 where
  pub find_by_hash : (workspace_id sha256 : String) → M T String (Option BlobObject)
  pub record_verified : BlobObject → M T String BlobObject
  pub commit_verified_ingest : Option (VerifiedIngest → M T String BlobObject)

pub record ObjectIngestResult : Type 0 where
  pub operation_id : String
  pub blob : BlobObject
  pub deduplicated : Bool
  pub resumed : Bool

-- What an ingest throws: the error of a storage, the text that another store throws, or its own.
pub data IngestError : Type 0 where
  storing : StorageError → IngestError
  thrown : String → IngestError
  key_reused incomplete_context length_mismatch verification_failed no_blob : IngestError
  missing_context : String → IngestError

pub record IngestInput (S : Type 0) : Type 0 where
  pub workspace_id : String
  pub actor_id : String
  pub principal_type : PrincipalType
  pub idempotency_key : String
  pub bytes : List ℕ
  pub media_type : String
  pub storage : Option (ObjectStorage S)
  pub storage_binding_id : Option String
  pub storage_binding_generation : Option ℕ

-- The two states that an ingest works on.
pub record Stores (S : Type 0) (T : Type 0) : Type 0 where
  pub objects : S
  pub tables : T
