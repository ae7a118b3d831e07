-- ===== src/Ingest/Frames.antt =====
-- Relations that the checkpoints of packages/operations/src/object-ingest.ts respect.
use trust_core.Common.{
  string_eq, number_eq, option_eq, Result, ok, err, Dict, insert, ℕ, String, Bool, Option, none,
  some, List, ◌∷◌,
}
use trust_core.Common.Effect.{require, found, M, ◌>>=◌, ◌>>◌, pure, modify, read}
use trust_core.Common.Effect.{
  Keeps, pure-Keeps, read-Keeps, require-Keeps, found-Keeps, branch-Keeps, bind-Keeps, then-Keeps,
}
use trust_core.Core.Types.{BlobObject}
use trust_core.Storage.{ObjectMetadata, StorageError, CommitInput, ObjectLocator}
use trust_core.Ingest.{IngestCheckpoint, IngestError, ContextValue, VerifiedIngest}
use trust_core.Ingest.Effects.{
  mark_reached, keep_stored, Ingesting, Job, Ing, on_tables, on_objects, with_tables, with_objects,
  checkpoint, run_checkpoint, create_temporary, receive_bytes, verify_hash, commit_object,
  commit_metadata, record_existing, record_blob, save_context, set_context, set_blob,
  required_context_string,
}

-- A relation between the states of an ingest that the changes of its tables and of its variables
-- respect. It may restrict the checkpoints that are marked.
pub record Frame {S T : Type 0} (R : Ingesting S T → Ingesting S T → Type 0) : Type 1 where
  pub Marked : IngestCheckpoint → Type 0
  pub stays : (w : Ingesting S T) → R w w
  pub chain : (u v w : Ingesting S T) → R u v → R v w → R u w
  pub tables :
      (w : Ingesting S T) (t : T) → R w (record w { stores = record w.stores { tables = t } })
  pub context : (w : Ingesting S T) (c : Dict ContextValue) → R w (record w { context = c })
  pub blob : (w : Ingesting S T) (b : BlobObject) → R w (record w { blob = some b })
  pub done :
      (name : IngestCheckpoint)
      → Marked name
      → (w : Ingesting S T) → R w (record w { done = name ∷ w.done })

-- A call of the storage that the relation respects.
abbrev pub IsHarmless :
    {S T : Type 0} {A : Type 0}
    → (R : Ingesting S T → Ingesting S T → Type 0) → M S StorageError A
    → Type 0
IsHarmless {S} {T} R m =
    (w : Ingesting S T)
    → R w (record w { stores = record w.stores { objects = (m w.stores.objects).0 } })

module _ {S T : Type 0} (R : Ingesting S T → Ingesting S T → Type 0) (frame : Frame R)
    (job : Job S T) where
  abbrev pub K : {A : Type 0} → Ing S T A → Type 0
  K m = Keeps R frame.stays frame.chain m

  pub on_tables-K : {A : Type 0} (m : M T String A) → K (on_tables {S = S} m)
  on_tables-K {A} m = record { holds = λ w. go w (m w.stores.tables) }
    where
      go : (w : Ingesting S T) (out : T × Result String A) → R w (with_tables w out).0
      go w (t, ok a) = frame.tables w t
      go w (t, err e) = frame.tables w t

  pub on_objects-K :
      {A : Type 0} (m : M S StorageError A) → IsHarmless R m → K (on_objects {T = T} m)
  on_objects-K {A} m r = record { holds = λ w. go w (m w.stores.objects) (r w) }
    where
      go :
          (w : Ingesting S T) (out : S × Result StorageError A)
          → R w (record w { stores = record w.stores { objects = out.0 } })
          → R w (with_objects w out).0
      go w (s, ok a) r = r
      go w (s, err e) r = r

  pub bind-K :
      {A B : Type 0} {m : Ing S T A} {f : A → Ing S T B} → K m → ((a : A) → K (f a)) → K (m >>= f)
  bind-K first next = bind-Keeps R frame.stays frame.chain first next

  pub then-K : {B : Type 0} {m : Ing S T (Unit {0})} {n : Ing S T B} → K m → K n → K (m >> n)
  then-K first next = then-Keeps R frame.stays frame.chain first next

  pub read-K : {A : Type 0} (f : Ingesting S T → A) → K (read f)
  read-K f = read-Keeps R frame.stays frame.chain f

  pub pure-K : {A : Type 0} (a : A) → K (pure a)
  pure-K a = pure-Keeps R frame.stays frame.chain a

  pub require-K : (test : Bool) (e : IngestError) → K (require test e)
  require-K test e = require-Keeps R frame.stays frame.chain test e

  pub found-K : {A : Type 0} (o : Option A) (e : IngestError) → K (found o e)
  found-K o e = found-Keeps R frame.stays frame.chain o e

  pub set_context-K : (key : String) (v : ContextValue) → K (set_context key v)
  set_context-K key v = record { holds = λ w. frame.context w (insert key v w.context) }

  pub set_done-K :
      (name : IngestCheckpoint)
      → frame.Marked name
      → K (modify λ w. record w { done = name ∷ w.done })
  set_done-K name marked = record { holds = frame.done name marked }

  pub set_blob-K : (b : BlobObject) → K (set_blob b)
  set_blob-K b = record { holds = λ w. frame.blob w b }

  pub required_context_string-K : (key : String) → K (required_context_string key)
  required_context_string-K key = search (bind-K, read-K, found-K)

  pub save_context-K : (name : IngestCheckpoint) → K (save_context job name)
  save_context-K name = search (bind-K, read-K, on_tables-K)

  pub mark_reached-K : (name : IngestCheckpoint) → frame.Marked name → K (mark_reached job name)
  unfolding mark_reached
  mark_reached-K name marked = then-K (on_tables-K (job.service.after_effect name)) (
      then-K
        (on_tables-K
          (job.service.operations.mark_checkpoint job.input.workspace_id job.operation.id name))
        (set_done-K name marked))

  pub run_checkpoint-K :
      (name : IngestCheckpoint) (m : Ing S T (Unit {0}))
      → frame.Marked name
      → K m
      → K (run_checkpoint job name m)
  unfolding run_checkpoint
  run_checkpoint-K name m marked k = then-K k (mark_reached-K name marked)

  pub checkpoint-K :
      (name : IngestCheckpoint) (m : Ing S T (Unit {0}))
      → frame.Marked name
      → K m
      → K (checkpoint job name m)
  unfolding checkpoint
  checkpoint-K name m marked k = bind-K (read-K _) (λ reached.
      branch-Keeps R frame.stays frame.chain reached (pure tt) (run_checkpoint job name m)
        (pure-K tt) (run_checkpoint-K name m marked k))

  pub create_temporary-K :
      ((e u o : String) → IsHarmless R (job.storage.create_temporary_upload e u o))
      → K (create_temporary job)
  unfolding create_temporary
  create_temporary-K harmless =
      search (bind-K, on_objects-K, harmless, set_context-K, save_context-K)

  pub receive_bytes-K :
      ((l : ObjectLocator) (body : List ℕ) (media_type : String)
        → IsHarmless R (job.storage.write_temporary l body media_type))
      → K (receive_bytes job)
  unfolding receive_bytes
  receive_bytes-K harmless =
      search (bind-K, required_context_string-K, on_objects-K, harmless, require-K)

  pub verify_hash-K : K (verify_hash job)
  unfolding verify_hash
  verify_hash-K = search (then-K, set_context-K, save_context-K)

  pub keep_stored-K : (md : ObjectMetadata) → K (keep_stored job md)
  unfolding keep_stored
  keep_stored-K md = search (then-K, require-K, set_context-K, save_context-K)

  pub commit_object-K :
      ((c : CommitInput) → IsHarmless R (job.storage.commit_immutable c)) → K (commit_object job)
  unfolding commit_object
  commit_object-K harmless =
      search (bind-K, required_context_string-K, on_objects-K, harmless, keep_stored-K)

  pub record_blob-K :
      (commit : Option (VerifiedIngest → M T String BlobObject)) (blob : BlobObject)
      → K (record_blob job commit blob)
  record_blob-K none blob = on_tables-K _
  record_blob-K (some commit) blob = on_tables-K _

  pub record_existing-K :
      (commit : Option (VerifiedIngest → M T String BlobObject)) (blob : BlobObject)
      → K (record_existing job commit blob)
  record_existing-K none blob = pure-K tt
  record_existing-K (some commit) blob = search (bind-K, on_tables-K, set_blob-K)

  pub commit_metadata-K : K (commit_metadata job)
  unfolding commit_metadata
  commit_metadata-K = search (bind-K, required_context_string-K, record_blob-K, set_blob-K)
