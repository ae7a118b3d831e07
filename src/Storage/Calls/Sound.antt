-- ===== src/Storage/Calls/Sound.antt =====
-- What any sequence of calls of packages/storage/src/memory-object-storage.ts keeps.
use trust_core.Common.{
  Bool-cases, ◌==◌, eq_iff, string_eq, number_eq, option_eq, ok, Dict, lookup, insert, delete,
  lookup-insert, lookup-delete, ℕ, String, ◌≡◌, sym, ap, ◌∙◌, inl, inr, true, false, none, some,
  List, [], ◌∷◌, arith,
}
use mathlib.Core.Path.{subst}
use trust_core.Storage.Keys.{is_temporary_key, canonical_object_key}
use trust_core.Storage.Keys.Apart.{canonical_object_key_apart}
use trust_core.Storage.Memory.{MemoryStorage, MemoryMultipartSession, StoredBytes}
use trust_core.Storage.Calls.{
  StorageCall, step_storage, run_storage, writes, commits, deletes, initiates, uploads, completes,
  aborts,
}
use trust_core.Storage.Calls.Changes.{
  IsTargeted, Change, same, wrote, removed, moved, bound, finished, write_temporary-Change,
  delete_temporary-Change, commit_immutable-Change,
}
use trust_core.Storage.Calls.Uploads.{
  initiate_multipart_upload-Change, upload_multipart_part-Change, complete_multipart_upload-Change,
  abort_multipart_upload-Change,
}
use trust_core.Storage.Calls.Addressed.{
  temporary_apart, insert-IsTargeted, insert-IsDigested, insert_temporary-IsAddressed,
  insert_canonical-IsAddressed, deleted, IsSound,
}

module _ (sha256 etag_of : List ℕ → String) where
  Change-IsSound :
      (m m' : MemoryStorage) → IsSound sha256 m → Change sha256 m m' → IsSound sha256 m'
  Change-IsSound m m' s (same e) = subst (λ x. IsSound sha256 x) (sym e) s
  Change-IsSound m m' s (wrote k o temp own e) =
      subst (λ x. IsSound sha256 x) (sym e)
        (record {
          targets = s.targets;
          digests = insert-IsDigested sha256 k o m.objects s.digests own;
          addressed = insert_temporary-IsAddressed k o m.objects s.addressed temp;
        })
  Change-IsSound m m' s (removed k temp e) =
      subst (λ x. IsSound sha256 x) (sym e)
        (record {
          targets = s.targets;
          digests = λ key o h. s.digests key o (deleted k key m.objects o h);
          addressed = λ w d key o c h. s.addressed w d key o c (deleted k key m.objects o h);
        })
  Change-IsSound m m' s (moved t k w d o temp there key own free e) =
      let objects = insert k o m.objects in
      let digests = insert-IsDigested sha256 k o m.objects s.digests (s.digests t o there) in
      let addressed = insert_canonical-IsAddressed w d k o m.objects s.addressed key own in
      subst (λ x. IsSound sha256 x) (sym e)
        (record {
          targets = s.targets;
          digests = λ i p h. digests i p (deleted t i objects p h);
          addressed = λ w' d' i p c h. addressed w' d' i p c (deleted t i objects p h);
        })
  Change-IsSound m m' s (bound id u temp e) =
      subst (λ x. IsSound sha256 x) (sym e)
        (record {
          targets = insert-IsTargeted id u m m.objects s.targets temp;
          digests = s.digests;
          addressed = s.addressed;
        })
  Change-IsSound m m' s (finished k o id u temp own here e) =
      subst (λ x. IsSound sha256 x) (sym e)
        (record {
          targets = insert-IsTargeted id u m (insert k o m.objects) s.targets here;
          digests = insert-IsDigested sha256 k o m.objects s.digests own;
          addressed = insert_temporary-IsAddressed k o m.objects s.addressed temp;
        })

  -- If every upload writes to a temporary key, then each call that writes is a step of the
  -- abstract machine `Change`, whatever its outcome: it leaves the storage as it is; it writes an
  -- object with its digest to a temporary key, or removes one; it moves the object of a temporary
  -- key to a free canonical key of the object's digest; or it binds an upload to a temporary key,
  -- with or without such a write.
  pub step_storage-Change :
      (c : StorageCall) (m : MemoryStorage)
      → IsTargeted m
      → Change sha256 m (step_storage sha256 etag_of c m)
  unfolding step_storage trust_core.Storage.Memory.write_temporary
  step_storage-Change (writes l body mt) m t = write_temporary-Change sha256 l body mt m
  step_storage-Change (commits c) m t = commit_immutable-Change sha256 c m
  step_storage-Change (deletes l) m t = delete_temporary-Change sha256 l m
  step_storage-Change (initiates relaxed ref created_at day_later i) m t =
      initiate_multipart_upload-Change sha256 etag_of relaxed ref created_at day_later i m
  step_storage-Change (uploads u n body size) m t =
      upload_multipart_part-Change sha256 etag_of u n body size m t
  step_storage-Change (completes c) m t = complete_multipart_upload-Change sha256 etag_of c m t
  step_storage-Change (aborts u) m t = abort_multipart_upload-Change sha256 etag_of u m t

  step_storage-IsSound :
      (c : StorageCall) (m : MemoryStorage)
      → IsSound sha256 m
      → IsSound sha256 (step_storage sha256 etag_of c m)
  step_storage-IsSound c m s =
      Change-IsSound m (step_storage sha256 etag_of c m) s (step_storage-Change c m s.targets)

  -- If in a storage every upload writes to a temporary key, every object carries the digest of its
  -- bytes, and the object under a canonical key has the digest of the key, then so it is after any
  -- calls, in any order and with any outcome.
  pub run_storage-IsSound :
      (calls : List StorageCall) (m : MemoryStorage)
      → IsSound sha256 m
      → IsSound sha256 (run_storage sha256 etag_of calls m)
  unfolding run_storage
  run_storage-IsSound [] m s = s
  run_storage-IsSound (c ∷ cs) m s =
      run_storage-IsSound cs (step_storage sha256 etag_of c m) (step_storage-IsSound c m s)

  kept-temporary :
      (t k : String) (o : StoredBytes) (v : StoredBytes) (objects : Dict StoredBytes)
      → is_temporary_key t ≡ true
      → is_temporary_key k ≡ false
      → lookup k objects ≡ some o
      → lookup k (insert t v objects) ≡ some o
  kept-temporary t k o v objects temp canonical there =
      ground (arith, lookup-insert t k v objects, temporary_apart t k temp canonical, there)

  kept-deleted :
      (t k : String) (o : StoredBytes) (objects : Dict StoredBytes)
      → is_temporary_key t ≡ true
      → is_temporary_key k ≡ false
      → lookup k objects ≡ some o
      → lookup k (delete t objects) ≡ some o
  kept-deleted t k o objects temp canonical there =
      ground (arith, lookup-delete t k objects, temporary_apart t k temp canonical, there)

  kept-free :
      (free k : String) (o v : StoredBytes) (objects : Dict StoredBytes)
      → lookup free objects ≡ none
      → lookup k objects ≡ some o
      → lookup k (insert free v objects) ≡ some o
  kept-free free k o v objects unused there = elim (Bool-cases (free == k)) [
    | inr other ↦ ground (arith, lookup-insert free k v objects, other, there)
    | inl is ↦ ground (arith, ap (λ i. lookup i objects) ((eq_iff free k).0 is), unused, there)
  ]

  Change-keeps :
      (m m' : MemoryStorage) (k : String) (o : StoredBytes)
      → Change sha256 m m'
      → is_temporary_key k ≡ false
      → lookup k m.objects ≡ some o
      → lookup k m'.objects ≡ some o
  Change-keeps m m' k o (same e) canonical there = ap (λ x. lookup k x.objects) e ∙ there
  Change-keeps m m' k o (wrote t v temp own e) canonical there =
      ap (λ x. lookup k x.objects) e ∙ kept-temporary t k o v m.objects temp canonical there
  Change-keeps m m' k o (removed t temp e) canonical there =
      ap (λ x. lookup k x.objects) e ∙ kept-deleted t k o m.objects temp canonical there
  Change-keeps m m' k o (moved t new w d v temp stored key own free e) canonical there =
      ap (λ x. lookup k x.objects) e
      ∙ kept-deleted t k o (insert new v m.objects) temp canonical
          (kept-free new k o v m.objects free there)
  Change-keeps m m' k o (bound id u temp e) canonical there = ap (λ x. lookup k x.objects) e ∙ there
  Change-keeps m m' k o (finished t v id u temp own here e) canonical there =
      ap (λ x. lookup k x.objects) e ∙ kept-temporary t k o v m.objects temp canonical there

  -- Once an object stands under the canonical key of a workspace and a digest in a sound storage,
  -- no calls remove it or change its bytes, its media type or its digest.
  pub run_storage_keeps :
      (calls : List StorageCall) (m : MemoryStorage) (w d k : String) (o : StoredBytes)
      → IsSound sha256 m
      → canonical_object_key w d ≡ ok k
      → lookup k m.objects ≡ some o
      → lookup k (run_storage sha256 etag_of calls m).objects ≡ some o
  unfolding run_storage
  run_storage_keeps [] m w d k o s key there = there
  run_storage_keeps (c ∷ cs) m w d k o s key there =
      run_storage_keeps cs (step_storage sha256 etag_of c m) w d k o (step_storage-IsSound c m s)
        key
        (Change-keeps m (step_storage sha256 etag_of c m) k o (step_storage-Change c m s.targets)
          (canonical_object_key_apart w d k key) there)
