-- ===== src/Storage.antt =====
-- The types of packages/storage/src/types.ts and errors.ts. A storage is its calls over a state; each
-- may throw. A body is its list of bytes, and a stream the bytes that it gives when it is read.
pub mod Keys
pub mod Memory
pub mod Multipart
pub mod Retries
pub mod Calls
mod Examples
use trust_core.Common.{string_eq, number_eq, option_eq, ℕ, String, Bool, Option, List}
use trust_core.Common.Effect.{M}

pub data StorageErrorCode : Type 0 where
  not_found access_denied conflict invalid_request : StorageErrorCode
  throttled transient permanent : StorageErrorCode

-- A `StorageError`, or one of the plain errors of keys.ts.
pub data StorageError : Type 0 where
  storage : StorageErrorCode → StorageError
  unsafe_identifier invalid_sha256 : StorageError

pub record ObjectLocator : Type 0 where
  pub key : String

pub record TemporaryObject : Type 0 where
  pub key : String
  pub expires_at : String

pub record ObjectMetadata : Type 0 where
  pub key : String
  pub byte_length : ℕ
  pub media_type : String
  pub sha256 : Option String

-- Both ends are included.
pub record ByteRange : Type 0 where
  pub start : ℕ
  pub end : ℕ

pub record CommitInput : Type 0 where
  pub temporary : ObjectLocator
  pub workspace_id : String
  pub sha256 : String
  pub byte_length : ℕ
  pub media_type : String

pub record ObjectStorage (S : Type 0) : Type 0 where
  -- With the instant of expiry that the clock gives.
  pub create_temporary_upload :
      (expires_at workspace_id operation_id : String) → M S StorageError TemporaryObject
  pub write_temporary :
      ObjectLocator → (body : List ℕ) → (media_type : String) → M S StorageError ObjectMetadata
  pub commit_immutable : CommitInput → M S StorageError ObjectMetadata
  pub open_read_stream : ObjectLocator → Option ByteRange → M S StorageError (List ℕ)
  pub head : ObjectLocator → M S StorageError ObjectMetadata
  pub exists : ObjectLocator → M S StorageError Bool
  pub delete_temporary : ObjectLocator → M S StorageError (Unit {0})
