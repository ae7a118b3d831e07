-- ===== src/Storage/Examples.antt =====
-- Calls of the storage of packages/storage/src/memory-object-storage.ts on a concrete input.
use trust_core.Common.{
  after_prefix, string_eq, number_eq, option_eq, length, is_blank, is_hex_text, ok, err, lookup,
  insert, delete, ℕ, String, ◌≡◌, refl, true, none, some, List, [], ◌∷◌,
}
use trust_core.Storage.{
  ObjectLocator, ObjectMetadata, CommitInput, storage, not_found, StorageError,
}
use trust_core.Storage.Keys.{is_temporary_key, canonical_object_key, is_safe_id}
use trust_core.Storage.Keys.Unique.{canonical_object_key-inj}
use trust_core.Storage.Memory.{
  MemoryStorage, StoredBytes, commit_immutable, described, open_read_stream, MemoryMultipartSession,
  MultipartUploadedPart, SessionStatus, uploading, stored_bytes,
}
use trust_core.Storage.Multipart.{
  CompleteInput, UploadRef, complete_multipart_upload, gather, sort_parts, is_run, place_part,
  reconcile_parts,
}
use trust_core.Storage.Retries.{commit_immutable_retried}
use trust_core.Storage.Multipart.Retries.{
  complete_multipart_upload_retried, complete_multipart_upload_assembled,
}
use trust_core.Storage.Calls.{StorageCall, writes, commits, deletes, step_storage, run_storage}
use trust_core.Storage.Calls.Changes.{Change}
use trust_core.Storage.Calls.Addressed.{IsSound}
use trust_core.Storage.Calls.Sound.{step_storage-Change, run_storage-IsSound, run_storage_keeps}

abbrev digest_a : String
digest_a = "aaaaaaaaaaaaaaaaaaaaaaaaaaaaaaaaaaaaaaaaaaaaaaaaaaaaaaaaaaaaaaaa"

abbrev digest_b : String
digest_b = "bbbbbbbbbbbbbbbbbbbbbbbbbbbbbbbbbbbbbbbbbbbbbbbbbbbbbbbbbbbbbbbb"

-- A digest that tells the empty body apart.
abbrev toy_digest : List ℕ → String
toy_digest [] = digest_b
toy_digest (b ∷ body) = digest_a

abbrev toy_etag : List ℕ → String
toy_etag body = toy_digest body

abbrev owner : String
owner = "w-1"

abbrev temporary : ObjectLocator
temporary = record { key = "workspaces/w-1/temporary/op-1" }

abbrev canonical : String
canonical =
    "workspaces/w-1/objects/aa/aaaaaaaaaaaaaaaaaaaaaaaaaaaaaaaaaaaaaaaaaaaaaaaaaaaaaaaaaaaaaaaa"

abbrev empty_storage : MemoryStorage
empty_storage = record { objects = []; multipart = [] }

abbrev note : StoredBytes
note = stored_bytes toy_digest (1 ∷ 2 ∷ 3 ∷ []) "text/plain"

abbrev written : MemoryStorage
written = record { objects = (temporary.key, note) ∷ []; multipart = [] }

abbrev committed : MemoryStorage
committed = record { objects = (canonical, note) ∷ []; multipart = [] }

abbrev commit : CommitInput
commit = record {
  temporary = temporary;
  workspace_id = "w-1";
  sha256 = digest_a;
  byte_length = 3;
  media_type = "text/plain";
}

note_key : canonical_object_key "w-1" digest_a ≡ ok canonical
unfolding canonical_object_key is_safe_id is_hex_text
note_key = refl

commit_runs : commit_immutable commit written ≡ (committed, ok (described canonical note))
unfolding commit_immutable canonical_object_key is_safe_id is_hex_text is_temporary_key is_blank
    lookup insert delete after_prefix
commit_runs = refl

canonical_object_key-inj_example : (owner ≡ owner) × (digest_a ≡ digest_a)
canonical_object_key-inj_example =
    canonical_object_key-inj owner owner digest_a digest_a canonical note_key note_key

commit_immutable_retried_example :
    commit_immutable commit committed ≡ (committed, ok (described canonical note))
commit_immutable_retried_example =
    commit_immutable_retried commit written committed (described canonical note) commit_runs

empty_storage-IsSound : IsSound toy_digest empty_storage
unfolding lookup
empty_storage-IsSound = record {
  targets = λ id s h. cc;
  digests = λ k o h. cc;
  addressed = λ w d k o key h. cc;
}

-- The object is written and committed; then a second commit finds the key taken.
abbrev calls : List StorageCall
calls =
    writes temporary (1 ∷ 2 ∷ 3 ∷ []) "text/plain"
    ∷ commits commit
    ∷ deletes temporary
    ∷ commits commit
    ∷ []

run_storage-IsSound_example :
    IsSound toy_digest (run_storage toy_digest toy_etag calls empty_storage)
run_storage-IsSound_example =
    run_storage-IsSound toy_digest toy_etag calls empty_storage empty_storage-IsSound

step_storage-Change_example :
    Change toy_digest written (step_storage toy_digest toy_etag (commits commit) written)
step_storage-Change_example =
    step_storage-Change toy_digest toy_etag (commits commit) written empty_storage-IsSound.targets

committed-IsSound : IsSound toy_digest committed
unfolding run_storage step_storage commit_immutable trust_core.Storage.Memory.write_temporary
    canonical_object_key is_safe_id is_hex_text is_temporary_key is_blank lookup insert delete
    after_prefix
committed-IsSound =
    run_storage-IsSound toy_digest toy_etag
      (writes temporary (1 ∷ 2 ∷ 3 ∷ []) "text/plain" ∷ commits commit ∷ []) empty_storage
      empty_storage-IsSound

run_storage_keeps_example :
    lookup canonical (run_storage toy_digest toy_etag calls committed).objects ≡ some note
unfolding lookup
run_storage_keeps_example =
    run_storage_keeps toy_digest toy_etag calls committed "w-1" digest_a canonical note
      committed-IsSound note_key refl

-- An upload of two parts that came in the wrong order.
abbrev part : ℕ → List ℕ → MultipartUploadedPart
part n body = record { part_number = n; etag = toy_etag body; size = length body }

abbrev upload : UploadRef
upload = record { upload_id = "u-1"; locator = temporary; provider_upload_ref = "ref-1" }

abbrev two_parts : MemoryMultipartSession
two_parts = record {
  session = record {
    upload_id = "u-1";
    provider_upload_ref = "ref-1";
    locator = temporary;
    media_type = "text/plain";
    part_size = 5242880;
    expected_byte_length = none;
    expected_sha256 = none;
    status = uploading;
    parts = part 1 (1 ∷ 2 ∷ []) ∷ part 2 (3 ∷ []) ∷ [];
    created_at = "2026-01-01T00:00:00.000Z";
    expires_at = "2026-01-02T00:00:00.000Z";
  };
  part_bodies = (1, 1 ∷ 2 ∷ []) ∷ (2, 3 ∷ []) ∷ [];
}

abbrev in_upload : MemoryStorage
in_upload = record { objects = []; multipart = ("u-1", two_parts) ∷ [] }

abbrev completion : CompleteInput
completion = record {
  upload = upload;
  parts = part 2 (3 ∷ []) ∷ part 1 (1 ∷ 2 ∷ []) ∷ [];
  expected_byte_length = 3;
  expected_sha256 = digest_a;
}

abbrev after_completion : MemoryStorage
after_completion = (complete_multipart_upload toy_digest completion in_upload).0

completion_runs :
    complete_multipart_upload toy_digest completion in_upload
    ≡ (after_completion, ok (described temporary.key note))
unfolding complete_multipart_upload reconcile_parts sort_parts place_part lookup insert
completion_runs = refl

test_completed_again :
    complete_multipart_upload toy_digest completion after_completion
    ≡ (after_completion, ok (described temporary.key note))
test_completed_again =
    complete_multipart_upload_retried toy_digest completion in_upload after_completion
      (described temporary.key note) completion_runs

complete_multipart_upload_assembled_example :
    (body : List ℕ) × (gather two_parts.part_bodies (sort_parts completion.parts) ≡ some body)
    × (is_run 1 (sort_parts completion.parts) ≡ true)
    × (open_read_stream temporary none after_completion ≡ (after_completion, ok body))
    × (toy_digest body ≡ digest_a)
    × (length body ≡ 3)
unfolding lookup
complete_multipart_upload_assembled_example =
    complete_multipart_upload_assembled toy_digest completion two_parts in_upload after_completion
      (described temporary.key note) refl refl completion_runs

-- A temporary object that is gone, and no object of the digest.
test_nothing_to_commit :
    commit_immutable commit empty_storage ≡ (empty_storage, err (storage not_found))
unfolding commit_immutable canonical_object_key is_safe_id is_hex_text is_temporary_key is_blank
    lookup after_prefix
test_nothing_to_commit = refl
