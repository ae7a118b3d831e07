-- ===== src/Core/Types.antt =====
-- The records of packages/core/src/types.ts that the operations work on. `P` is the type of the
-- payloads, which the core never looks into.
use trust_core.Common.Time.{ℤ}
use trust_core.Common.{string_eq, number_eq, option_eq, ℕ, String, Bool, Option, List}

pub data ResourceStatus : Type 0 where
  active archived deleted_logically legal_hold : ResourceStatus

abbrev pub ResourceStatus-discrete : Discrete ResourceStatus
ResourceStatus-discrete = hlevel

pub record Resource : Type 0 where
  pub id : String
  pub workspace_id : String
  pub dataset_id : String
  pub resource_type : String
  pub title : Option String
  pub status : ResourceStatus
  pub current_revision_id : Option String
  pub created_by : String
  pub created_at : String
  pub updated_at : String

pub data RevisionSource : Type 0 where
  by_user by_application by_import by_restore by_merge : RevisionSource

pub record Revision (P : Type 0) : Type 0 where
  pub id : String
  pub workspace_id : String
  pub dataset_id : String
  pub resource_id : String
  pub revision_number : ℕ
  pub parent_revision_id : Option String
  pub merge_parent_revision_ids : List String
  pub schema_package_id : String
  pub schema_version : String
  pub canonical_payload : P
  pub canonical_payload_hash : String
  pub created_by : String
  pub created_on_device_id : Option String
  pub source : RevisionSource
  pub change_note : Option String
  pub restored_from_revision_id : Option String
  pub created_at : String

pub data EncryptionState : Type 0 where
  provider_managed customer_managed : EncryptionState

pub data VerificationState : Type 0 where
  pending verified failed : VerificationState

pub record BlobObject : Type 0 where
  pub id : String
  pub workspace_id : String
  pub sha256 : String
  pub byte_length : ℕ
  pub media_type : String
  pub storage_provider : String
  pub storage_key : String
  pub encryption_state : EncryptionState
  pub encryption_key_ref : Option String
  pub verification_state : VerificationState
  pub created_at : String
  pub storage_binding_id : Option String
  pub storage_binding_generation : Option ℕ

pub data SubjectKind : Type 0 where
  dataset_subject resource_subject relation_subject : SubjectKind

pub data PurgeState : Type 0 where
  not_eligible eligible planned purged : PurgeState

pub record Tombstone : Type 0 where
  pub id : String
  pub workspace_id : String
  pub dataset_id : String
  pub subject_kind : SubjectKind
  pub subject_id : String
  pub deleted_by : String
  pub deleted_at : String
  pub reason : Option String
  pub recover_until : Option String
  pub prior_revision_id : Option String
  pub restored_at : Option String
  pub restored_by : Option String
  pub purge_state : PurgeState

-- A `number`: a whole one, or one that is not (a fraction, an infinity, NaN).
pub data JsNumber : Type 0 where
  whole : ℤ → JsNumber
  not_whole : JsNumber

pub record RetentionPolicy : Type 0 where
  pub name : String
  pub recovery_window_days : JsNumber
  pub minimum_history_days : JsNumber
  pub backup_retention_days : JsNumber
  pub purge_enabled : Bool
