-- ===== src/Storage/Calls.antt =====
-- Any sequence of calls of packages/storage/src/memory-object-storage.ts.
pub mod Changes
pub mod Uploads
pub mod Addressed
pub mod Sound
use trust_core.Common.{
  codes-append, after_prefix-append, after_prefix, starts_with, contains, is_truthy, ltb, leb,
  nat_eq, if◌then◌else◌, nat_eq_iff, Bool-cases, Option-cases, Eq, ◌==◌, eq_iff, string_eq,
  number_eq, option_beq, option_beq_iff, option_eq, discrete_beq, discrete_beq_iff, discrete_eq,
  length, length-append, any, all, find, keep, find-keep, find-append, find-Any, Any-find, find-Mem,
  Any-map, All, Any, includes, codes, is_space, is_blank, is_empty, is_hex, is_hex_text, Result, ok,
  err, throw_if, Result-cases, >>=-eq-ok, Dict, lookup, insert, delete, values, lookup-insert,
  lookup-delete, lookup-insert_self, ℕ, zero, suc, ◌+◌, ◌-◌, ◌*◌, ◌/◌, ◌%◌, ◌^◌, ◌≤◌, ◌<◌, String,
  ◌≡◌, refl, sym, ap, ◌∙◌, ◌≢◌, ◌↔◌, ◌⊎◌, inl, inr, Bool, true, false, not, ◌&&◌, ◌||◌, Option,
  none, some, List, [], ◌∷◌, ◌++◌, map, arith,
}
use trust_core.Common.Effect.{
  require, found, run-cases, M, continue, ◌>>=◌, ◌>>◌, pure, throw, lift, modify, read,
}
use trust_core.Storage.{ObjectLocator, CommitInput}
use trust_core.Storage.Memory.{MemoryStorage, write_temporary, commit_immutable, delete_temporary}
use trust_core.Storage.Multipart.{
  InitiateInput, UploadRef, CompleteInput, initiate_multipart_upload, upload_multipart_part,
  complete_multipart_upload, abort_multipart_upload,
}

-- The calls that change the storage, with what they draw. The others only read it.
pub data StorageCall : Type 0 where
  writes : ObjectLocator → (body : List ℕ) → (media_type : String) → StorageCall
  commits : CommitInput → StorageCall
  deletes : ObjectLocator → StorageCall
  initiates : (relaxed : Bool) (ref created_at day_later : String) → InitiateInput → StorageCall
  uploads : UploadRef → (part_number : ℕ) (body : List ℕ) (size : ℕ) → StorageCall
  completes : CompleteInput → StorageCall
  aborts : UploadRef → StorageCall

module _ (sha256 etag_of : List ℕ → String) where
  -- The storage after a call, which may have thrown.
  unfoldable pub step_storage : StorageCall → MemoryStorage → MemoryStorage
  step_storage (writes l body media_type) m = (write_temporary sha256 l body media_type m).0
  step_storage (commits c) m = (commit_immutable c m).0
  step_storage (deletes l) m = (delete_temporary l m).0
  step_storage (initiates relaxed ref created_at day_later i) m =
      (initiate_multipart_upload relaxed ref created_at day_later i m).0
  step_storage (uploads u n body size) m = (upload_multipart_part etag_of u n body size m).0
  step_storage (completes c) m = (complete_multipart_upload sha256 c m).0
  step_storage (aborts u) m = (abort_multipart_upload u m).0

  unfoldable pub run_storage : List StorageCall → MemoryStorage → MemoryStorage
  run_storage [] m = m
  run_storage (c ∷ cs) m = run_storage cs (step_storage c m)
