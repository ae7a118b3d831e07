-- ===== src/Ingest/Keeping.antt =====
-- What an ingest of packages/operations/src/object-ingest.ts can do to the object storage.
use trust_core.Common.{string_eq, number_eq, option_eq, ℕ, String, true, Option, none, some, List}
use trust_core.Common.Effect.{modify}
use trust_core.Core.Types.{BlobObject}
use trust_core.Storage.{ObjectStorage, CommitInput, ObjectLocator}
use trust_core.Ingest.{IngestCheckpoint}
use trust_core.Ingest.Effects.{
  verify_hash, commit_metadata, create_temporary, receive_bytes, commit_object, Ingesting, Job, Ing,
  checkpoint, authorise,
}
use trust_core.Ingest.Service.{
  mark_existing, ingest_existing, ingest_new, ingest_found, finish, ingest_steps,
}
use trust_core.Ingest.Frames.{
  Frame, IsHarmless, K, on_tables-K, bind-K, then-K, read-K, pure-K, require-K, found-K,
  checkpoint-K, create_temporary-K, receive_bytes-K, verify_hash-K, commit_object-K,
  commit_metadata-K, record_existing-K,
}

module _ {S T : Type 0} (R : Ingesting S T → Ingesting S T → Type 0) (frame : Frame R)
    (every : (name : IngestCheckpoint) → frame.Marked name) (job : Job S T) where
  pub any_checkpoint-K :
      (name : IngestCheckpoint) (m : Ing S T (Unit {0}))
      → K R frame job m
      → K R frame job (checkpoint job name m)
  any_checkpoint-K name m k = checkpoint-K R frame job name m (every name) k

  pub mark_existing-K : (existing : BlobObject) → K R frame job (mark_existing job existing)
  unfolding mark_existing
  mark_existing-K existing =
      search
        (then-K R frame job, any_checkpoint-K, record_existing-K R frame job, pure-K R frame job)
        depth 12

  pub finish-K : K R frame job (finish job)
  unfolding finish
  finish-K =
      search
        (
          bind-K R frame job,
          then-K R frame job,
          read-K R frame job,
          found-K R frame job,
          any_checkpoint-K,
          on_tables-K R frame job,
          pure-K R frame job,
        )
        depth 12

-- A relation that every call of the storage respects, too.
pub record Harmless {S T : Type 0} (R : Ingesting S T → Ingesting S T → Type 0)
    (storage : ObjectStorage S) : Type 0 where
  pub creates : (e u o : String) → IsHarmless R (storage.create_temporary_upload e u o)
  pub writes :
      (l : ObjectLocator) (body : List ℕ) (media_type : String)
      → IsHarmless R (storage.write_temporary l body media_type)
  pub commits : (c : CommitInput) → IsHarmless R (storage.commit_immutable c)
  pub sets :
      (b : BlobObject) (w : Ingesting S T) → R w (record w { blob = some b; deduplicated = true })

module _ {S T : Type 0} (R : Ingesting S T → Ingesting S T → Type 0) (frame : Frame R)
    (every : (name : IngestCheckpoint) → frame.Marked name) (job : Job S T)
    (harmless : Harmless R job.storage) where
  each-K :
      (name : IngestCheckpoint) (m : Ing S T (Unit {0}))
      → K R frame job m
      → K R frame job (checkpoint job name m)
  each-K name m k = any_checkpoint-K R frame every job name m k

  set_existing-K :
      (b : BlobObject) → K R frame job (modify λ w. record w { blob = some b; deduplicated = true })
  set_existing-K b = record { holds = harmless.sets b }

  ingest_existing-K : (existing : BlobObject) → K R frame job (ingest_existing job existing)
  unfolding ingest_existing
  ingest_existing-K existing =
      then-K R frame job (set_existing-K existing) (mark_existing-K R frame every job existing)

  creates-K : K R frame job (create_temporary job)
  creates-K = create_temporary-K R frame job harmless.creates

  receives-K : K R frame job (receive_bytes job)
  receives-K = receive_bytes-K R frame job harmless.writes

  verifies-K : K R frame job (verify_hash job)
  verifies-K = verify_hash-K R frame job

  commits-K : K R frame job (commit_object job)
  commits-K = commit_object-K R frame job harmless.commits

  records-K : K R frame job (commit_metadata job)
  records-K = commit_metadata-K R frame job

  finishes-K : K R frame job (finish job)
  finishes-K = finish-K R frame every job

  ingest_new-K : K R frame job (ingest_new job)
  unfolding ingest_new
  ingest_new-K =
      search
        (
          then-K R frame job,
          each-K,
          creates-K,
          receives-K,
          verifies-K,
          commits-K,
          records-K,
          pure-K R frame job,
        )
        depth 12

  ingest_found-K : (o : Option BlobObject) → K R frame job (ingest_found job o)
  ingest_found-K none = ingest_new-K
  ingest_found-K (some existing) = ingest_existing-K existing

  pub ingest_steps-K : K R frame job (ingest_steps job)
  unfolding ingest_steps authorise
  ingest_steps-K =
      search
        (
          bind-K R frame job,
          then-K R frame job,
          each-K,
          require-K R frame job,
          on_tables-K R frame job,
          ingest_found-K,
          finishes-K,
        )
        depth 8

-- A relation on the states of a storage that every call of an ingest respects.
pub record Respects {S : Type 0} (storage : ObjectStorage S) (R : S → S → Type 0) : Type 0 where
  pub stays : (s : S) → R s s
  pub chain : (s t u : S) → R s t → R t u → R s u
  pub creates : (e w o : String) (s : S) → R s (storage.create_temporary_upload e w o s).0
  pub writes :
      (l : ObjectLocator) (body : List ℕ) (media_type : String) (s : S)
      → R s (storage.write_temporary l body media_type s).0
  pub commits : (c : CommitInput) (s : S) → R s (storage.commit_immutable c s).0

module _ {S T : Type 0} (R : S → S → Type 0) (job : Job S T)
    (respects : Respects job.storage R) where
  abbrev Related : Ingesting S T → Ingesting S T → Type 0
  Related w w' = R w.stores.objects w'.stores.objects

  abbrev related : Frame Related
  related = record {
    Marked = λ name. Unit;
    stays = λ w. respects.stays w.stores.objects;
    chain = λ u v w. respects.chain u.stores.objects v.stores.objects w.stores.objects;
    tables = λ w t. respects.stays w.stores.objects;
    context = λ w c. respects.stays w.stores.objects;
    blob = λ w b. respects.stays w.stores.objects;
    done = λ name m w. respects.stays w.stores.objects;
  }

  abbrev harmless : Harmless Related job.storage
  harmless = record {
    creates = λ e u o w. respects.creates e u o w.stores.objects;
    writes = λ l b t w. respects.writes l b t w.stores.objects;
    commits = λ c w. respects.commits c w.stores.objects;
    sets = λ b w. respects.stays w.stores.objects;
  }

  pub ingest_steps_respects :
      (w : Ingesting S T) → R w.stores.objects (ingest_steps job w).0.stores.objects
  ingest_steps_respects w = (ingest_steps-K Related related (λ n. tt) job harmless).holds w
