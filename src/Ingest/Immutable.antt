-- ===== src/Ingest/Immutable.antt =====
-- `ImmutableObjectIngestor` of packages/operations/src/object-ingest.ts. The ids and the instants that
-- it draws are arguments.
pub mod Clean
use trust_core.Common.{
  codes-inj, is_hex_text-all, codes-append, after_prefix-append, after_prefix, starts_with,
  contains, is_truthy, ltb, leb, nat_eq, if◌then◌else◌, nat_eq_iff, Bool-cases, Option-cases, Eq,
  ◌==◌, eq_iff, string_eq, number_eq, option_beq, option_beq_iff, option_eq, discrete_beq,
  discrete_beq_iff, discrete_eq, length, length-append, any, all, find, keep, find-keep,
  find-append, find-Any, Any-find, find-Mem, Any-map, All, Any, includes, codes, is_space, is_blank,
  is_empty, is_hex, is_hex_text, Result, ok, err, throw_if, Result-cases, >>=-eq-ok, Dict, lookup,
  insert, delete, values, lookup-insert, lookup-delete, lookup-insert_self, ℕ, zero, suc, ◌+◌, ◌-◌,
  ◌*◌, ◌/◌, ◌%◌, ◌^◌, ◌≤◌, ◌<◌, String, ◌≡◌, refl, sym, ap, ◌∙◌, ◌≢◌, ◌↔◌, ◌⊎◌, inl, inr, Bool,
  true, false, not, ◌&&◌, ◌||◌, Option, none, some, List, [], ◌∷◌, ◌++◌, map, arith,
}
use trust_core.Common.Effect.{
  require, found, run-cases, M, continue, ◌>>=◌, ◌>>◌, pure, throw, lift, modify, read,
}
use trust_core.Core.Types.{BlobObject, provider_managed, verified}
use trust_core.Storage.{ObjectStorage, StorageError, TemporaryObject, ObjectLocator, CommitInput}
use trust_core.Ingest.{
  BlobCatalog, IngestError, storing, thrown, length_mismatch, verification_failed, Stores,
}

pub record ImmutableObjectIngestor (S : Type 0) (T : Type 0) : Type 0 where
  pub storage : ObjectStorage S
  pub catalog : BlobCatalog T
  pub provider : String
  pub now : String
  pub next_id : String
  -- What the clock of the storage gives.
  pub expires_at : String

pub record IngestorInput : Type 0 where
  pub workspace_id : String
  pub bytes : List ℕ
  pub media_type : String
  -- `input.operationId`, or the random one.
  pub operation_id : String

pub record Ingested : Type 0 where
  pub blob : BlobObject
  pub deduplicated : Bool

module _ {S T : Type 0} where
  abbrev pub with_storage :
      {A : Type 0} → Stores S T → S × Result StorageError A → Stores S T × Result IngestError A
  with_storage w (s, ok a) = (record w { objects = s }, ok a)
  with_storage w (s, err e) = (record w { objects = s }, err (storing e))

  abbrev pub in_storage : {A : Type 0} → M S StorageError A → M (Stores S T) IngestError A
  in_storage m w = with_storage w (m w.objects)

  abbrev pub with_catalog :
      {A : Type 0} → Stores S T → T × Result String A → Stores S T × Result IngestError A
  with_catalog w (t, ok a) = (record w { tables = t }, ok a)
  with_catalog w (t, err e) = (record w { tables = t }, err (thrown e))

  abbrev pub in_catalog : {A : Type 0} → M T String A → M (Stores S T) IngestError A
  in_catalog m w = with_catalog w (m w.tables)

module _ {S T : Type 0} (ingestor : ImmutableObjectIngestor S T) (digest : List ℕ → String)
    (input : IngestorInput) where
  abbrev pub locator_of : TemporaryObject → ObjectLocator
  locator_of temporary = record { key = temporary.key }

  abbrev pub new_blob : String → BlobObject
  new_blob storage_key = record {
    id = ingestor.next_id;
    workspace_id = input.workspace_id;
    sha256 = digest input.bytes;
    byte_length = length input.bytes;
    media_type = input.media_type;
    storage_provider = ingestor.provider;
    storage_key = storage_key;
    encryption_state = provider_managed;
    encryption_key_ref = none;
    verification_state = verified;
    created_at = ingestor.now;
    storage_binding_id = none;
    storage_binding_generation = none;
  }

  abbrev pub commit_of : TemporaryObject → CommitInput
  commit_of temporary = record {
    temporary = locator_of temporary;
    workspace_id = input.workspace_id;
    sha256 = digest input.bytes;
    byte_length = length input.bytes;
    media_type = input.media_type;
  }

  -- The body of the `try`.
  pub store_bytes : TemporaryObject → M (Stores S T) IngestError BlobObject
  store_bytes temporary = do
    received ←
        in_storage
          (ingestor.storage.write_temporary (locator_of temporary) input.bytes input.media_type)
    require (received.byte_length == length input.bytes) length_mismatch
    stored ← in_storage (ingestor.storage.commit_immutable (commit_of temporary))
    require (stored.sha256 == some (digest input.bytes) && stored.byte_length == length input.bytes)
        verification_failed
    in_catalog (ingestor.catalog.record_verified (new_blob stored.key))

  -- The `catch`: the temporary object is deleted, and a failure of that is dropped.
  abbrev pub cleaned :
      TemporaryObject
      → Stores S T × Result IngestError BlobObject
      → Stores S T × Result IngestError Ingested
  cleaned temporary (w, ok blob) = (w, ok (record { blob = blob; deduplicated = false }))
  cleaned temporary (w, err e) = (
    record w { objects = (ingestor.storage.delete_temporary (locator_of temporary) w.objects).0 },
    err e,
  )

  abbrev pub try_store : TemporaryObject → M (Stores S T) IngestError Ingested
  try_store temporary w = cleaned temporary (store_bytes temporary w)

  abbrev pub store_new : M (Stores S T) IngestError Ingested
  store_new = do
    temporary ← in_storage (
        ingestor.storage.create_temporary_upload ingestor.expires_at input.workspace_id
          input.operation_id)
    try_store temporary

  abbrev pub store_found : Option BlobObject → M (Stores S T) IngestError Ingested
  store_found (some existing) = pure (record { blob = existing; deduplicated = true })
  store_found none = store_new

  pub ingest_immutable : M (Stores S T) IngestError Ingested
  unfolding store_bytes
  ingest_immutable = do
    existing ← in_catalog (ingestor.catalog.find_by_hash input.workspace_id (digest input.bytes))
    store_found existing
