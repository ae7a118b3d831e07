-- ===== src/Ingest/Immutable/Clean.antt =====
-- The temporary object of `ImmutableObjectIngestor` of packages/operations/src/object-ingest.ts over
-- the storage of packages/storage/src/memory-object-storage.ts.
use trust_core.Common.{
  ◌==◌, eq_iff, string_eq, number_eq, option_eq, length, Result, ok, err, lookup, lookup-delete, ℕ,
  String, ◌≡◌, refl, sym, ap, ◌∙◌, true, ◌&&◌, Option, none, some, List, arith,
}
use trust_core.Common.Effect.{M, continue}
use trust_core.Common.Effect.{bind-returned, require-returned}
use trust_core.Core.Types.{BlobObject}
use trust_core.Storage.{TemporaryObject, StorageError}
use trust_core.Storage.Keys.{temporary_object_key, is_temporary_key}
use trust_core.Storage.Keys.Apart.{temporary_object_key_lem}
use trust_core.Storage.Memory.{
  MemoryStorage, memory_object_storage, commit_immutable, delete_temporary, create_temporary_upload,
}
use trust_core.Storage.Retries.{commit_immutable-IsCommitted}
use trust_core.Ingest.{length_mismatch, verification_failed, IngestError, Stores}
use trust_core.Ingest.Immutable.{
  ImmutableObjectIngestor, IngestorInput, ingest_immutable, store_bytes, cleaned, try_store,
  store_new, store_found, new_blob, in_storage, in_catalog, with_storage, with_catalog, commit_of,
  locator_of,
}

in_storage-returned :
    {S T A : Type 0} (m : M S StorageError A) (w w' : Stores S T) (a : A)
    → in_storage m w ≡ (w', ok a)
    → m w.objects ≡ (w'.objects, ok a)
in_storage-returned {S} {T} {A} m w w' a h = go (m w.objects) h
  where
    go :
        (out : S × Result StorageError A)
        → with_storage w out ≡ (w', ok a)
        → out ≡ (w'.objects, ok a)
    go (s, ok b) e = ground (arith, e)
    go (s, err b) e = cc

in_catalog-objects :
    {S T A : Type 0} (m : M T String A) (w : Stores S T) → (in_catalog m w).0.objects ≡ w.objects
in_catalog-objects {S} {T} {A} m w = go (m w.tables)
  where
    go : (out : T × Result String A) → (with_catalog w out).0.objects ≡ w.objects
    go (t, ok a) = refl
    go (t, err e) = refl

module _ {T : Type 0} (ingestor : ImmutableObjectIngestor MemoryStorage T)
    (digest : List ℕ → String) (input : IngestorInput)
    (memory : ingestor.storage ≡ memory_object_storage digest) where
  abbrev IsFree : String → Stores MemoryStorage T → Type 0
  IsFree k w = lookup k w.objects.objects ≡ none

  store_bytes-IsFree :
      (t : TemporaryObject) (w w' : Stores MemoryStorage T) (b : BlobObject)
      → store_bytes ingestor digest input t w ≡ (w', ok b)
      → IsFree t.key w'
  unfolding store_bytes
  store_bytes-IsFree t w w' b h =
      let (w₁, received, h₁, n₁) =
        bind-returned
          (in_storage (
            ingestor.storage.write_temporary (locator_of ingestor digest input t) input.bytes
              input.media_type))
          _ w w' b h in
      let c = commit_of ingestor digest input t in
      let (w₂, stored, h₂, n₂) =
        bind-returned (in_storage (ingestor.storage.commit_immutable c)) _ w₁ w' b (
          require-returned (received.byte_length == length input.bytes) length_mismatch _ w₁ w' b
            n₁) in
      let moved : commit_immutable c w₁.objects ≡ (w₂.objects, ok stored) =
        ap (λ x. x.commit_immutable c w₁.objects) (sym memory)
        ∙ in_storage-returned (ingestor.storage.commit_immutable c) w₁ w₂ stored h₂ in
      let (k, canonical, (o, there, declared, names, gone), again) =
        commit_immutable-IsCommitted c w₁.objects w₂.objects stored moved in
      let recorded =
        require-returned
          (stored.sha256 == some (digest input.bytes) && stored.byte_length == length input.bytes)
          verification_failed _ w₂ w' b n₂ in
      let blob = new_blob ingestor digest input stored.key in
      ap (λ x. lookup t.key x.0.objects.objects) (sym recorded)
      ∙ ap (λ x. lookup t.key x.objects)
          (in_catalog-objects (ingestor.catalog.record_verified blob) w₂)
      ∙ gone

  deleted-IsFree :
      (k : String) (m : MemoryStorage)
      → is_temporary_key k ≡ true
      → lookup k (ingestor.storage.delete_temporary (record { key = k }) m).0.objects ≡ none
  unfolding delete_temporary
  deleted-IsFree k m temporary =
      ap (λ x. lookup k (x.delete_temporary (record { key = k }) m).0.objects) memory
      ∙ ground (arith, temporary, lookup-delete k k m.objects, eq_iff k k)

  try_store-IsFree :
      (t : TemporaryObject) (w : Stores MemoryStorage T)
      → is_temporary_key t.key ≡ true
      → IsFree t.key (try_store ingestor digest input t w).0
  try_store-IsFree t w temporary = go (store_bytes ingestor digest input t w) refl
    where
      go :
          (out : Stores MemoryStorage T × Result IngestError BlobObject)
          → store_bytes ingestor digest input t w ≡ out
          → IsFree t.key (cleaned ingestor digest input t out).0
      go (w', ok b) e = store_bytes-IsFree t w w' b e
      go (w', err x) e = deleted-IsFree t.key w'.objects temporary

  store_new-IsFree :
      (k : String) (w : Stores MemoryStorage T)
      → temporary_object_key input.workspace_id input.operation_id ≡ ok k
      → IsFree k (store_new ingestor digest input w).0
  unfolding create_temporary_upload
  store_new-IsFree k w key =
      let t : TemporaryObject = record { key = k; expires_at = ingestor.expires_at } in
      let made : ingestor.storage.create_temporary_upload ingestor.expires_at input.workspace_id
            input.operation_id w.objects
          ≡ (w.objects, ok t) =
        ap
          (λ x.
            x.create_temporary_upload ingestor.expires_at input.workspace_id input.operation_id
              w.objects)
          memory
        ∙ ground (arith, key) in
      let goes : store_new ingestor digest input w ≡ try_store ingestor digest input t w =
        ap (λ x. continue (with_storage w x) (try_store ingestor digest input)) made in
      ap (λ x. lookup k x.0.objects.objects) goes
      ∙ try_store-IsFree t w (temporary_object_key_lem input.workspace_id input.operation_id k key)

  store_found-IsFree :
      (o : Option BlobObject) (k : String) (w : Stores MemoryStorage T)
      → temporary_object_key input.workspace_id input.operation_id ≡ ok k
      → IsFree k w
      → IsFree k (store_found ingestor digest input o w).0
  store_found-IsFree none k w key free = store_new-IsFree k w key
  store_found-IsFree (some existing) k w key free = free

  -- If the temporary key of the operation was free, then it is free after an ingest by the
  -- ingestor without operations, whether that returns or throws and whatever the catalog does.
  pub ingest_immutable_clean :
      (k : String) (w : Stores MemoryStorage T)
      → temporary_object_key input.workspace_id input.operation_id ≡ ok k
      → lookup k w.objects.objects ≡ none
      → lookup k (ingest_immutable ingestor digest input w).0.objects.objects ≡ none
  unfolding ingest_immutable
  ingest_immutable_clean k w key free =
      go (ingestor.catalog.find_by_hash input.workspace_id (digest input.bytes) w.tables)
    where
      go :
          (out : T × Result String (Option BlobObject))
          → IsFree k (continue (with_catalog w out) (store_found ingestor digest input)).0
      go (t, ok o) = store_found-IsFree o k (record w { tables = t }) key free
      go (t, err e) = free
