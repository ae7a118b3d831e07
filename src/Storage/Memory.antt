-- ===== src/Storage/Memory.antt =====
-- `MemoryObjectStorage` of packages/storage/src/memory-object-storage.ts. The digests, the instants
-- and the random reference of a multipart upload are arguments. A length, a part's size and a part's
-- number are whole; what is not whole is refused in the source as what is too large is here.
use trust_core.Common.{
  ltb, leb, if◌then◌else◌, ◌==◌, string_eq, number_eq, option_eq, length, is_blank, Dict, lookup,
  insert, delete, ℕ, zero, suc, ◌+◌, ◌-◌, String, Bool, true, false, not, ◌&&◌, Option, none, some,
  List, [], ◌∷◌,
}
use trust_core.Common.Effect.{require, found, M, ◌>>=◌, ◌>>◌, pure, throw, lift, modify, read}
use trust_core.Storage.{
  ObjectLocator, TemporaryObject, ObjectMetadata, ByteRange, CommitInput, ObjectStorage,
  StorageError, storage, conflict, not_found, invalid_request,
}
use trust_core.Storage.Keys.{is_temporary_key, canonical_object_key, temporary_object_key}

pub record StoredBytes : Type 0 where
  pub body : List ℕ
  pub media_type : String
  pub sha256 : String

pub data SessionStatus : Type 0 where
  initiated uploading completed aborted : SessionStatus

pub record MultipartUploadedPart : Type 0 where
  pub part_number : ℕ
  pub etag : String
  pub size : ℕ

pub record MultipartUploadSession : Type 0 where
  pub upload_id : String
  pub provider_upload_ref : String
  pub locator : ObjectLocator
  pub media_type : String
  pub part_size : ℕ
  pub expected_byte_length : Option ℕ
  pub expected_sha256 : Option String
  pub status : SessionStatus
  pub parts : List MultipartUploadedPart
  pub created_at : String
  pub expires_at : String

-- `partBodies` by part number.
pub record MemoryMultipartSession : Type 0 where
  pub session : MultipartUploadSession
  pub part_bodies : List (ℕ × List ℕ)

pub record MemoryStorage : Type 0 where
  pub objects : Dict StoredBytes
  pub multipart : Dict MemoryMultipartSession

abbrev pub Mem : Type 0 → Type 0
Mem A = M MemoryStorage StorageError A

abbrev pub assert_temporary_key : String → Mem (Unit {0})
assert_temporary_key key = require (is_temporary_key key) (storage invalid_request)

abbrev pub assert_media_type : String → Mem (Unit {0})
assert_media_type media_type = require (not (is_blank media_type)) (storage invalid_request)

abbrev pub max_safe_integer : ℕ
max_safe_integer = 9007199254740991

abbrev pub assert_byte_length : ℕ → Mem (Unit {0})
assert_byte_length n = require (leb n max_safe_integer) (storage invalid_request)

abbrev pub described : String → StoredBytes → ObjectMetadata
described key o = record {
  key = key;
  byte_length = length o.body;
  media_type = o.media_type;
  sha256 = some o.sha256;
}

abbrev pub put_object : String → StoredBytes → Mem (Unit {0})
put_object key o = modify λ m. record m { objects = insert key o m.objects }

abbrev pub remove_object : String → Mem (Unit {0})
remove_object key = modify λ m. record m { objects = delete key m.objects }

abbrev pub required : String → Mem StoredBytes
required key = do stored ← read (λ m. lookup key m.objects); found stored (storage not_found)

unfoldable pub create_temporary_upload :
    (expires_at workspace_id operation_id : String) → Mem TemporaryObject
create_temporary_upload expires_at workspace_id operation_id = do
  key ← lift (temporary_object_key workspace_id operation_id)
  pure (record { key = key; expires_at = expires_at })

-- `body.slice(from, from + n)`.
abbrev pub slice : ℕ → ℕ → List ℕ → List ℕ
slice from n [] = []
slice zero zero (b ∷ bytes) = []
slice zero (suc n) (b ∷ bytes) = b ∷ slice zero n bytes
slice (suc from) n (b ∷ bytes) = slice from n bytes

abbrev pub ranged : List ℕ → Option ByteRange → Mem (List ℕ)
ranged body none = pure body
ranged body (some r) = do
  require
      (leb r.start max_safe_integer
        && leb r.end max_safe_integer
        && leb r.start r.end
        && ltb r.end (length body))
      (storage invalid_request)
  pure (slice r.start (r.end + 1 - r.start) body)

unfoldable pub open_read_stream : ObjectLocator → Option ByteRange → Mem (List ℕ)
open_read_stream l range = do object ← required l.key; ranged object.body range

unfoldable pub head : ObjectLocator → Mem ObjectMetadata
head l = do object ← required l.key; pure (described l.key object)

abbrev is_some {ℓ} : {A : Type ℓ} → Option A → Bool
is_some none = false
is_some (some a) = true

unfoldable pub exists : ObjectLocator → Mem Bool
exists l = read (λ m. is_some (lookup l.key m.objects))

unfoldable pub delete_temporary : ObjectLocator → Mem (Unit {0})
delete_temporary l = do assert_temporary_key l.key; remove_object l.key

-- An object of the declared digest and length.
abbrev pub declares : StoredBytes → CommitInput → Bool
declares o c = o.sha256 == c.sha256 && length o.body == c.byte_length

-- The temporary object is gone: an earlier commit may have moved it.
abbrev pub committed_before : String → CommitInput → Option StoredBytes → Mem ObjectMetadata
committed_before key c none = throw (storage not_found)
committed_before key c (some existing) =
    if declares existing c then pure (described key existing) else throw (storage not_found)

-- The canonical key, free or taken, is given the temporary object.
abbrev pub move_object :
    String → CommitInput → StoredBytes → Option StoredBytes → Mem ObjectMetadata
move_object key c temporary none = do
  put_object key temporary
  remove_object c.temporary.key
  pure (described key temporary)
move_object key c temporary (some existing) = do
  require (declares existing c) (storage conflict)
  remove_object c.temporary.key
  pure (described key existing)

abbrev pub commit_found :
    String → CommitInput → Option StoredBytes → Option StoredBytes → Mem ObjectMetadata
commit_found key c none existing = committed_before key c existing
commit_found key c (some temporary) existing = do
  require (declares temporary c && temporary.media_type == c.media_type) (storage invalid_request)
  move_object key c temporary existing

unfoldable pub commit_immutable : CommitInput → Mem ObjectMetadata
commit_immutable c = do
  assert_temporary_key c.temporary.key
  assert_byte_length c.byte_length
  assert_media_type c.media_type
  key ← lift (canonical_object_key c.workspace_id c.sha256)
  temporary ← read (λ m. lookup c.temporary.key m.objects)
  existing ← read (λ m. lookup key m.objects)
  commit_found key c temporary existing

module _ (sha256 : List ℕ → String) where
  abbrev pub stored_bytes : List ℕ → String → StoredBytes
  stored_bytes body media_type = record {
    body = body;
    media_type = media_type;
    sha256 = sha256 body;
  }

  unfoldable pub write_temporary :
      ObjectLocator → (body : List ℕ) → (media_type : String) → Mem ObjectMetadata
  write_temporary l body media_type = do
    assert_temporary_key l.key
    assert_media_type media_type
    put_object l.key (stored_bytes body media_type)
    pure (described l.key (stored_bytes body media_type))

  abbrev pub memory_object_storage : ObjectStorage MemoryStorage
  memory_object_storage = record {
    create_temporary_upload = create_temporary_upload;
    write_temporary = write_temporary;
    commit_immutable = commit_immutable;
    open_read_stream = open_read_stream;
    head = head;
    exists = exists;
    delete_temporary = delete_temporary;
  }
