-- ===== src/Ingest/Stored.antt =====
-- What packages/operations/src/object-ingest.ts leaves in the storage of
-- packages/storage/src/memory-object-storage.ts.
use trust_core.Common.Effect.{run-cases}
use trust_core.Common.{
  if◌then◌else◌, Bool-cases, ◌==◌, eq_iff, string_eq, number_eq, option_eq, length, includes,
  Result, ok, err, Result-cases, lookup, ℕ, String, ◌≡◌, sym, ap, ◌∙◌, inl, inr, Bool, true, false,
  some, List, [], ◌∷◌, arith,
}
use mathlib.Core.Path.{subst}
use trust_core.Storage.Memory.{commit_immutable, create_temporary_upload}
use trust_core.Storage.Keys.{temporary_object_key, canonical_object_key}
use trust_core.Storage.Memory.{MemoryStorage, StoredBytes, memory_object_storage}
use trust_core.Storage.Calls.{StorageCall, writes, commits, run_storage, step_storage}
use trust_core.Storage.Calls.Addressed.{IsSound}
use trust_core.Storage.Calls.Sound.{run_storage-IsSound, run_storage_keeps}
use trust_core.Ingest.{
  immutable_object_committed, checkpoint_eq, key_reused, IngestInput, IngestOperation, IngestError,
  ObjectIngestResult, Stores,
}
use trust_core.Ingest.Effects.{commit_input, ObjectIngestService, Job, Ingesting}
use trust_core.Ingest.Service.{
  ingest, ingest_steps, chosen_storage, begun, caught, start, begin_input,
}
use trust_core.Ingest.Committed.{ingest_steps-IsCommitted}
use trust_core.Storage.Retries.{commit_immutable-IsCommitted}
use trust_core.Ingest.Keeping.{Respects, ingest_steps_respects}

-- A sound storage stays sound and keeps its canonical objects.
abbrev pub Secures : (List ℕ → String) → MemoryStorage → MemoryStorage → Type 0
Secures sha256 m m' =
    IsSound sha256 m
    → IsSound sha256 m'
      × ((w d k : String) (o : StoredBytes)
          → canonical_object_key w d ≡ ok k
          → lookup k m.objects ≡ some o
          → lookup k m'.objects ≡ some o)

module _ (sha256 : List ℕ → String) where
  stays_secure : (m : MemoryStorage) → Secures sha256 m m
  stays_secure m sound = (sound, λ w d k o key there. there)

  chain_secure :
      (m n p : MemoryStorage) → Secures sha256 m n → Secures sha256 n p → Secures sha256 m p
  chain_secure m n p first next sound =
      let (sound_n, kept) = first sound in
      let (sound_p, kept') = next sound_n in
      (sound_p, λ w d k o key there. kept' w d k o key (kept w d k o key there))

  call-Secures :
      (c : StorageCall) (m : MemoryStorage)
      → Secures sha256 m (run_storage sha256 sha256 (c ∷ []) m)
  call-Secures c m sound = (
    run_storage-IsSound sha256 sha256 (c ∷ []) m sound,
    λ w d k o key there. run_storage_keeps sha256 sha256 (c ∷ []) m w d k o sound key there,
  )

  create_temporary_upload-same :
      (e w o : String) (m : MemoryStorage) → (create_temporary_upload e w o m).0 ≡ m
  unfolding create_temporary_upload
  create_temporary_upload-same e w o m = elim (Result-cases (temporary_object_key w o)) [
    | inl (key, made) ↦ ground (arith, made)
    | inr (x, bad) ↦ ground (arith, bad)
  ]

  memory-Respects : Respects (memory_object_storage sha256) (Secures sha256)
  unfolding run_storage step_storage
  memory-Respects = record {
    stays = stays_secure;
    chain = chain_secure;
    creates = λ e w o s.
        subst (λ x. Secures sha256 s x) (sym (create_temporary_upload-same e w o s))
          (stays_secure s);
    writes = λ l body media_type s. call-Secures (writes l body media_type) s;
    commits = λ c s. call-Secures (commits c) s;
  }

module _ {T : Type 0} (service : ObjectIngestService MemoryStorage T) (expires_at : String)
    (digest : List ℕ → String)
    (request_hash_of : (workspace_id media_type sha256 : String) → String)
    (message : IngestError → String) (input : IngestInput MemoryStorage) where
  abbrev Out : Type 0
  Out = Stores MemoryStorage T × Result IngestError ObjectIngestResult

  abbrev run : Stores MemoryStorage T → Out
  run stores = ingest service expires_at digest request_hash_of message input stores

  abbrev the_job : IngestOperation → Job MemoryStorage T
  the_job operation = record {
    service = service;
    expires_at = expires_at;
    sha256 = digest input.bytes;
    input = input;
    operation = operation;
    storage = chosen_storage service input;
  }

  caught-Secures :
      (operation : IngestOperation) (m : MemoryStorage)
      (out : Ingesting MemoryStorage T × Result IngestError ObjectIngestResult)
      → Secures digest m out.0.stores.objects
      → Secures digest m
          (caught service expires_at digest request_hash_of message input operation out).0.objects
  caught-Secures operation m (w, ok r) h = h
  caught-Secures operation m (w, err e) h = h

  branch-Secures :
      (test : Bool) (m : MemoryStorage) (first second : Out)
      → Secures digest m first.0.objects
      → Secures digest m second.0.objects
      → Secures digest m (if test then first else second).0.objects
  branch-Secures true m first second f s = f
  branch-Secures false m first second f s = s

  begun-Secures :
      (hash : String) (stores : Stores MemoryStorage T) (out : T × Result String IngestOperation)
      → chosen_storage service input ≡ memory_object_storage digest
      → Secures digest stores.objects
          (begun service expires_at digest request_hash_of message input hash stores out).0.objects
  begun-Secures hash stores (t, err e) memory = stays_secure digest stores.objects
  begun-Secures hash stores (t, ok operation) memory =
      let stores' = record stores { tables = t } in
      let started = start service expires_at digest request_hash_of message operation stores' in
      let steps = ingest_steps (the_job operation) started in
      branch-Secures (operation.request_hash == hash) stores.objects
        (caught service expires_at digest request_hash_of message input operation steps)
        (stores', err key_reused)
        (caught-Secures operation stores.objects steps (
          ingest_steps_respects (Secures digest) (the_job operation)
            (subst (λ x. Respects x (Secures digest)) (sym memory) (memory-Respects digest))
            started))
        (stays_secure digest stores.objects)

  -- An ingest over a sound storage leaves it sound and keeps every object under a canonical key,
  -- wherever it is resumed, whatever the catalog, the operations and the fault hook do, and
  -- whether it returns or throws.
  pub ingest_keeps :
      (stores : Stores MemoryStorage T)
      → chosen_storage service input ≡ memory_object_storage digest
      → IsSound digest stores.objects
      → IsSound digest (run stores).0.objects
        × ((w d k : String) (o : StoredBytes)
            → canonical_object_key w d ≡ ok k
            → lookup k stores.objects.objects ≡ some o
            → lookup k (run stores).0.objects.objects ≡ some o)
  unfolding ingest
  ingest_keeps stores memory sound =
      let hash = request_hash_of input.workspace_id input.media_type (digest input.bytes) in
      begun-Secures hash stores
        (service.operations.begin (begin_input input hash (digest input.bytes)) stores.tables)
        memory sound

  -- The steps of an ingest that returned.
  ingest-returned :
      (stores stores' : Stores MemoryStorage T) (t : T) (operation : IngestOperation)
      (r : ObjectIngestResult)
      → service.operations.begin
          (begin_input input
            (request_hash_of input.workspace_id input.media_type (digest input.bytes))
            (digest input.bytes))
          stores.tables
        ≡ (t, ok operation)
      → run stores ≡ (stores', ok r)
      → (w : Ingesting MemoryStorage T) × (ingest_steps (the_job operation) (
            start service expires_at digest request_hash_of message operation
              (record stores { tables = t }))
          ≡ (w, ok r))
        × (stores' ≡ w.stores)
  unfolding ingest
  ingest-returned stores stores' t operation r begins h =
      let hash = request_hash_of input.workspace_id input.media_type (digest input.bytes) in
      let started =
        start service expires_at digest request_hash_of message operation
          (record stores { tables = t }) in
      elim (Bool-cases (operation.request_hash == hash)) [
        | inr other ↦ ground (arith, begins, other, h)
        | inl is ↦ elim (run-cases (ingest_steps (the_job operation)) started) [
          | inl (w, a, ran) ↦
              (w, ground (arith, begins, is, ran, h), ground (arith, begins, is, ran, h))
          | inr (w, e, threw) ↦ ground (arith, begins, is, threw, h)
        ]
      ]

  -- Over a sound storage, if the operation had not marked the commit when it began, and the ingest
  -- returns and says that the object was new, then the canonical key of the workspace and the
  -- digest holds an object whose bytes have the digest and the length of the bytes that were
  -- given.
  pub ingest_stored :
      (stores stores' : Stores MemoryStorage T) (t : T) (operation : IngestOperation)
      (r : ObjectIngestResult)
      → chosen_storage service input ≡ memory_object_storage digest
      → IsSound digest stores.objects
      → service.operations.begin
          (begin_input input
            (request_hash_of input.workspace_id input.media_type (digest input.bytes))
            (digest input.bytes))
          stores.tables
        ≡ (t, ok operation)
      → includes operation.checkpoints immutable_object_committed ≡ false
      → run stores ≡ (stores', ok r)
      → r.deduplicated ≡ false
      → (k : String) × (o : StoredBytes) × (canonical_object_key input.workspace_id
            (digest input.bytes)
          ≡ ok k)
        × (lookup k stores'.objects.objects ≡ some o)
        × (digest o.body ≡ digest input.bytes)
        × (length o.body ≡ length input.bytes)
  ingest_stored stores stores' t operation r memory sound begins unmarked h new =
      let (w, ran, after) = ingest-returned stores stores' t operation r begins h in
      let started =
        start service expires_at digest request_hash_of message operation
          (record stores { tables = t }) in
      let (m, key, md, committed) =
        ingest_steps-IsCommitted (the_job operation) started w r unmarked ran new in
      let c = commit_input (the_job operation) key in
      let moved : commit_immutable c m ≡ (w.stores.objects, ok md) =
        ap (λ x. x.commit_immutable c m) (sym memory) ∙ committed in
      let (k, canonical, (o, there, declared, names, gone), again) =
        commit_immutable-IsCommitted c m w.stores.objects md moved in
      let stored : lookup k stores'.objects.objects ≡ some o =
        ap (λ x. lookup k x.objects.objects) after ∙ there in
      let (sound', kept) = ingest_keeps stores memory sound in
      let own = sound'.digests k o (ap (λ x. lookup k x.0.objects.objects) h ∙ stored) in
      (
        k,
        o,
        canonical,
        stored,
        sym own ∙ ground (arith, declared, eq_iff o.sha256 (digest input.bytes)),
        ground (arith, declared, eq_iff (length o.body) (length input.bytes)),
      )
