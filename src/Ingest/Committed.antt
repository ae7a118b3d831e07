-- ===== src/Ingest/Committed.antt =====
-- An ingest of packages/operations/src/object-ingest.ts that returned has made its commit, unless the
-- catalog had the object or an earlier run had made the commit.
use trust_core.Common.{
  Option-cases, string_eq, number_eq, option_eq, includes, ok, ◌≡◌, refl, sym, ap, ◌∙◌, inl, inr,
  true, false, Option, none, some, arith,
}
use trust_core.Common.Effect.{run-cases, ◌>>◌, pure}
use trust_core.Common.Effect.{bind-returned}
use trust_core.Core.Types.{BlobObject}
use trust_core.Ingest.{
  completed, ObjectIngestResult, immutable_object_committed, metadata_committed, audit_committed,
  authorised, temporary_upload_created, bytes_received, hash_verified, checkpoint_eq,
}
use trust_core.Ingest.Effects.{
  Job, Ingesting, on_tables, checkpoint, commit_object, create_temporary, receive_bytes,
  verify_hash, commit_metadata, authorise,
}
use trust_core.Ingest.Service.{ingest_existing, ingest_new, ingest_found, finish, ingest_steps}
use trust_core.Ingest.Frames.{
  K, on_tables-K, then-K, require-K, pure-K, commit_metadata-K, create_temporary-K, receive_bytes-K,
  verify_hash-K,
}
use trust_core.Ingest.Keeping.{mark_existing-K, finish-K, any_checkpoint-K}
use trust_core.Ingest.Returned.{
  Objects, objects_frame, Unmarked, unmarked_frame, Deduplicated, deduplicated_frame, IsCommitted,
  kept_objects, kept_unmarked, before-K, checkpoint-ran, commit_object-returned,
}

module _ {S T : Type 0} (job : Job S T) where
  create-unmarked :
      K Unmarked unmarked_frame job (checkpoint job temporary_upload_created (create_temporary job))
  create-unmarked =
      before-K job temporary_upload_created (create_temporary job) refl
        (create_temporary-K Unmarked unmarked_frame job (λ e u o w h. h))

  receive-unmarked :
      K Unmarked unmarked_frame job (checkpoint job bytes_received (receive_bytes job))
  receive-unmarked =
      before-K job bytes_received (receive_bytes job) refl
        (receive_bytes-K Unmarked unmarked_frame job (λ l b t w h. h))

  verify-unmarked : K Unmarked unmarked_frame job (checkpoint job hash_verified (verify_hash job))
  verify-unmarked =
      before-K job hash_verified (verify_hash job) refl (verify_hash-K Unmarked unmarked_frame job)

  after_commit-K : K Objects objects_frame job (
      checkpoint job metadata_committed (commit_metadata job)
      >> checkpoint job audit_committed (pure tt))
  after_commit-K =
      let F = objects_frame {S = S} {T = T} in
      then-K Objects F job
        (any_checkpoint-K Objects F (λ n. tt) job metadata_committed (commit_metadata job)
          (commit_metadata-K Objects F job))
        (any_checkpoint-K Objects F (λ n. tt) job audit_committed (pure tt)
          (pure-K Objects F job tt))

  ingest_new-IsCommitted :
      (w w' : Ingesting S T)
      → includes w.done immutable_object_committed ≡ false
      → ingest_new job w ≡ (w', ok tt)
      → IsCommitted job w'.stores.objects
  unfolding ingest_new
  ingest_new-IsCommitted w w' unmarked h =
      let (w₁, a₁, h₁, n₁) =
        bind-returned (checkpoint job temporary_upload_created (create_temporary job)) _ w w' tt
          h in
      let (w₂, a₂, h₂, n₂) =
        bind-returned (checkpoint job bytes_received (receive_bytes job)) _ w₁ w' tt n₁ in
      let (w₃, a₃, h₃, n₃) =
        bind-returned (checkpoint job hash_verified (verify_hash job)) _ w₂ w' tt n₂ in
      let (w₄, a₄, h₄, n₄) =
        bind-returned (checkpoint job immutable_object_committed (commit_object job)) _ w₃ w' tt
          n₃ in
      let u₃ =
        kept_unmarked job verify-unmarked h₃
          (kept_unmarked job receive-unmarked h₂ (kept_unmarked job create-unmarked h₁ unmarked)) in
      let (v, ran, same) =
        checkpoint-ran job immutable_object_committed (commit_object job) w₃ w₄ u₃ h₄ in
      let (key, md, committed) = commit_object-returned job w₃ v ran in
      (
        w₃.stores.objects,
        key,
        md,
        committed ∙ ap (λ s. (s, ok md)) (sym (kept_objects job after_commit-K n₄ ∙ same)),
      )

  -- An ingest of an object that the catalog has already says so.
  existing_deduplicated :
      (existing : BlobObject) (w w' : Ingesting S T)
      → ingest_existing job existing w ≡ (w', ok tt)
      → w'.deduplicated ≡ true
  unfolding ingest_existing
  existing_deduplicated existing w w' h =
      let start = record w { blob = some existing; deduplicated = true } in
      ap (λ x. x.0.deduplicated) (sym h)
      ∙ (mark_existing-K Deduplicated deduplicated_frame (λ n. tt) job existing).holds start refl

  finish_deduplicated :
      (w w' : Ingesting S T) (r : ObjectIngestResult)
      → finish job w ≡ (w', ok r)
      → r.deduplicated ≡ w.deduplicated
  unfolding finish
  finish_deduplicated w w' r h = elim (Option-cases w.blob) [
    | inl missing ↦ ground (arith, missing, h)
    | inr (blob, known) ↦
        let mark = on_tables (
          job.service.operations.complete job.input.workspace_id job.operation.id
            (record { blob = some blob; deduplicated = w.deduplicated })) in
        elim (run-cases (checkpoint job completed mark) w) [
          | inl (v, a, ran) ↦ ground (arith, known, ran, h)
          | inr (v, e, threw) ↦ ground (arith, known, threw, h)
        ]
  ]

  authorise-unmarked : K Unmarked unmarked_frame job (checkpoint job authorised (authorise job))
  unfolding authorise
  authorise-unmarked =
      before-K job authorised (authorise job) refl (require-K Unmarked unmarked_frame job _ _)

  found_new :
      (existing : Option BlobObject) (w v w' : Ingesting S T) (r : ObjectIngestResult)
      → includes w.done immutable_object_committed ≡ false
      → ingest_found job existing w ≡ (v, ok tt)
      → finish job v ≡ (w', ok r)
      → r.deduplicated ≡ false
      → IsCommitted job w'.stores.objects
  found_new (some existing) w v w' r unmarked h finished new =
      ground (arith, existing_deduplicated existing w v h, finish_deduplicated v w' r finished, new)
  found_new none w v w' r unmarked h finished new =
      let (s, key, md, committed) = ingest_new-IsCommitted w v unmarked h in
      (
        s,
        key,
        md,
        committed
            ∙ ap (λ x. (x, ok md))
                (sym (kept_objects job (finish-K Objects objects_frame (λ n. tt) job) finished)),
      )

  -- If the steps return, and the object is new to the catalog, then the commit was made.
  pub ingest_steps-IsCommitted :
      (w w' : Ingesting S T) (r : ObjectIngestResult)
      → includes w.done immutable_object_committed ≡ false
      → ingest_steps job w ≡ (w', ok r)
      → r.deduplicated ≡ false
      → IsCommitted job w'.stores.objects
  unfolding ingest_steps authorise
  ingest_steps-IsCommitted w w' r unmarked h new =
      let (w₁, a₁, h₁, n₁) = bind-returned (checkpoint job authorised (authorise job)) _ w w' r h in
      let (w₂, existing, h₂, n₂) =
        bind-returned
          (on_tables (job.service.catalog.find_by_hash job.input.workspace_id job.sha256)) _ w₁ w' r
          n₁ in
      let (w₃, a₃, h₃, n₃) = bind-returned (ingest_found job existing) _ w₂ w' r n₂ in
      let u₁ = kept_unmarked job authorise-unmarked h₁ unmarked in
      let u₂ =
        kept_unmarked job
          (on_tables-K Unmarked unmarked_frame job
            (job.service.catalog.find_by_hash job.input.workspace_id job.sha256))
          h₂ u₁ in
      found_new existing w₂ w₃ w' r u₂ h₃ n₃ new
