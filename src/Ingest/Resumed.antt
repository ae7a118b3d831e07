-- ===== src/Ingest/Resumed.antt =====
-- What a resumed ingest of packages/operations/src/object-ingest.ts leaves alone.
use trust_core.Common.{
  string_eq, number_eq, option_eq, includes, if◌then◌else◌, Result, ok, err, ℕ, String, ◌≡◌, refl,
  ◌∙◌, Bool, true, false, Option, none, some, List, ◌∷◌, arith,
}
use trust_core.Common.Effect.{modify}
use trust_core.Core.Types.{BlobObject}
use trust_core.Ingest.{
  authorised, temporary_upload_created, bytes_received, hash_verified, immutable_object_committed,
  metadata_committed, audit_committed, checkpoint_eq, IngestCheckpoint, IngestInput,
  IngestOperation, IngestError, ObjectIngestResult, Stores, key_reused,
}
use trust_core.Ingest.Effects.{
  ObjectIngestService, Ingesting, Job, Ing, checkpoint, authorise, create_temporary, receive_bytes,
  verify_hash, commit_object, commit_metadata,
}
use trust_core.Ingest.Service.{
  ingest, ingest_steps, ingest_found, ingest_existing, ingest_new, chosen_storage, caught, start,
  begin_input,
}
use trust_core.Ingest.Frames.{
  Frame, K, on_tables-K, bind-K, then-K, pure-K, require-K, verify_hash-K, commit_metadata-K,
}
use trust_core.Ingest.Keeping.{any_checkpoint-K, mark_existing-K, finish-K}

-- The checkpoints whose work calls the storage are among those that are done.
pub record HasStored (done : List IngestCheckpoint) : Type 0 where
  pub created : includes done temporary_upload_created ≡ true
  pub received : includes done bytes_received ≡ true
  pub committed : includes done immutable_object_committed ≡ true

later-HasStored :
    (name : IngestCheckpoint) (done : List IngestCheckpoint)
    → HasStored done
    → HasStored (name ∷ done)
later-HasStored name done h = record {
  created = ground (arith, h.created);
  received = ground (arith, h.received);
  committed = ground (arith, h.committed);
}

module _ {S T : Type 0} where
  -- Once they are done, the storage stays as it is.
  abbrev Rests : Ingesting S T → Ingesting S T → Type 0
  Rests w w' = HasStored w.done → (w'.stores.objects ≡ w.stores.objects) × HasStored w'.done

  abbrev rests : Frame Rests
  rests = record {
    Marked = λ name. Unit;
    stays = λ w h. (refl, h);
    chain = λ u v w first next h.
        let (same, h') = first h in let (same', h'') = next h' in (same' ∙ same, h'');
    tables = λ w t h. (refl, h);
    context = λ w c h. (refl, h);
    blob = λ w b h. (refl, h);
    done = λ name m w h. (refl, later-HasStored name w.done h);
  }

  module _ (job : Job S T) where
    -- A checkpoint that is done is passed over, whatever its work is.
    skipped-K :
        (name : IngestCheckpoint) (m : Ing S T (Unit {0}))
        → ((w : Ingesting S T) → HasStored w.done → includes w.done name ≡ true)
        → K Rests rests job (checkpoint job name m)
    unfolding checkpoint
    skipped-K name m reached = record { holds = λ w h. rw (reached w h) (refl, h) }

    marked-K :
        (name : IngestCheckpoint) (m : Ing S T (Unit {0}))
        → K Rests rests job m
        → K Rests rests job (checkpoint job name m)
    marked-K name m k = any_checkpoint-K Rests rests (λ n. tt) job name m k

    set_existing-K :
        (b : BlobObject)
        → K Rests rests job (modify λ w. record w { blob = some b; deduplicated = true })
    set_existing-K b = record { holds = λ w h. (refl, h) }

    existing-K : (b : BlobObject) → K Rests rests job (ingest_existing job b)
    unfolding ingest_existing
    existing-K b =
        then-K Rests rests job (set_existing-K b) (mark_existing-K Rests rests (λ n. tt) job b)

    new-K : K Rests rests job (ingest_new job)
    unfolding ingest_new
    new-K =
        then-K Rests rests job
          (skipped-K temporary_upload_created (create_temporary job) (λ w h. h.created))
          (then-K Rests rests job (skipped-K bytes_received (receive_bytes job) (λ w h. h.received))
            (then-K Rests rests job
              (marked-K hash_verified (verify_hash job) (verify_hash-K Rests rests job))
              (then-K Rests rests job
                (skipped-K immutable_object_committed (commit_object job) (λ w h. h.committed))
                (then-K Rests rests job
                  (marked-K metadata_committed (commit_metadata job)
                    (commit_metadata-K Rests rests job))
                  (marked-K audit_committed _ (pure-K Rests rests job tt))))))

    found-K : (o : Option BlobObject) → K Rests rests job (ingest_found job o)
    found-K none = new-K
    found-K (some b) = existing-K b

    steps-K : K Rests rests job (ingest_steps job)
    unfolding ingest_steps authorise
    steps-K =
        then-K Rests rests job (marked-K authorised (authorise job) (require-K Rests rests job _ _))
          (bind-K Rests rests job
            (on_tables-K Rests rests job
              (job.service.catalog.find_by_hash job.input.workspace_id job.sha256))
            (λ o. then-K Rests rests job (found-K o) (finish-K Rests rests (λ n. tt) job)))

module _ {S T : Type 0} (service : ObjectIngestService S T) (expires_at : String)
    (digest : List ℕ → String)
    (request_hash_of : (workspace_id media_type sha256 : String) → String)
    (message : IngestError → String) (input : IngestInput S) where
  caught_objects :
      (operation : IngestOperation) (out : Ingesting S T × Result IngestError ObjectIngestResult)
      → (caught service expires_at digest request_hash_of message input operation out).0.objects
        ≡ out.0.stores.objects
  caught_objects operation (w, ok r) = refl
  caught_objects operation (w, err e) = refl

  branch_objects :
      (test : Bool) (s : S) (first second : Stores S T × Result IngestError ObjectIngestResult)
      → first.0.objects ≡ s
      → second.0.objects ≡ s
      → (if test then first else second).0.objects ≡ s
  branch_objects true s first second f g = f
  branch_objects false s first second f g = g

  -- When an operation has marked the creation of the temporary upload, the receipt of the bytes and
  -- the commit, an ingest that resumes it leaves the storage exactly as it is, for any storage, and
  -- whatever the catalog, the operations and the fault hook then do.
  pub ingest_resumed :
      (stores : Stores S T) (t : T) (operation : IngestOperation)
      → service.operations.begin
          (begin_input input
            (request_hash_of input.workspace_id input.media_type (digest input.bytes))
            (digest input.bytes))
          stores.tables
        ≡ (t, ok operation)
      → includes operation.checkpoints temporary_upload_created ≡ true
      → includes operation.checkpoints bytes_received ≡ true
      → includes operation.checkpoints immutable_object_committed ≡ true
      → (ingest service expires_at digest request_hash_of message input stores).0.objects
        ≡ stores.objects
  unfolding ingest
  ingest_resumed stores t operation began created received committed =
      let stores' = record stores { tables = t } in
      let started = start service expires_at digest request_hash_of message operation stores' in
      let job : Job S T = record {
        service = service;
        expires_at = expires_at;
        sha256 = digest input.bytes;
        input = input;
        operation = operation;
        storage = chosen_storage service input;
      } in
      let (same, h) =
        (steps-K job).holds started
          (record { created = created; received = received; committed = committed }) in
      rw began (
        branch_objects _ stores.objects
          (caught service expires_at digest request_hash_of message input operation
            (ingest_steps job started))
          (stores', err key_reused) (caught_objects operation (ingest_steps job started) ∙ same)
          refl)
