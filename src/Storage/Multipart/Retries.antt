-- ===== src/Storage/Multipart/Retries.antt =====
-- A completion of packages/storage/src/memory-object-storage.ts that is done again.
use trust_core.Common.{
  Option-cases, eq_iff, string_eq, number_eq, option_eq, length, ok, lookup, insert,
  lookup-insert_self, ℕ, String, ◌≡◌, refl, sym, ap, ◌∙◌, inl, inr, true, false, none, some, List,
  arith,
}
use trust_core.Storage.{ObjectMetadata}
use trust_core.Storage.Multipart.Targets.{upload_of}
use trust_core.Storage.Memory.{
  aborted, completed, initiated, uploading, SessionStatus, open_read_stream, MemoryStorage,
  MemoryMultipartSession, described, StoredBytes,
}
use trust_core.Storage.Multipart.{
  is_closed, CompleteInput, complete_multipart_upload, complete_first, declared_object, gather,
  sort_parts, same_target, finished_session, assembled_object, reconcile_parts, is_run,
  complete_found,
}

module _ (sha256 : List ℕ → String) (c : CompleteInput) where
  -- The upload stands as completed, with its object.
  abbrev IsDone : MemoryStorage → ObjectMetadata → Type 0
  IsDone m md =
      (s : MemoryMultipartSession) × (o : StoredBytes) × (lookup c.upload.upload_id m.multipart
        ≡ some s)
      × (same_target s c.upload ≡ true)
      × (s.session.status ≡ completed)
      × (lookup c.upload.locator.key m.objects ≡ some o)
      × (declared_object sha256 o c ≡ true)
      × (md ≡ described c.upload.locator.key o)

  done_again :
      (m : MemoryStorage) (md : ObjectMetadata)
      → IsDone m md
      → complete_multipart_upload sha256 c m ≡ (m, ok md)
  unfolding complete_multipart_upload
  done_again m md (s, o, kept, target, status, there, declared, described_so) =
      ground (arith, kept, target, status, there, declared, described_so)

  complete_first-IsDone :
      (s : MemoryMultipartSession) (m m' : MemoryStorage) (md : ObjectMetadata)
      → same_target s c.upload ≡ true
      → complete_first sha256 c s m ≡ (m', ok md)
      → (body : List ℕ) × (gather s.part_bodies (sort_parts c.parts) ≡ some body)
        × (is_run 1 (sort_parts c.parts) ≡ true)
        × (lookup c.upload.locator.key m'.objects ≡ some (assembled_object sha256 s body))
        × IsDone m' md
  unfolding reconcile_parts
  complete_first-IsDone s m m' md target h =
      elim (Option-cases (gather s.part_bodies (sort_parts c.parts))) [
        | inl missing ↦ ground (arith, missing, h)
        | inr (body, gathered) ↦
            let o = assembled_object sha256 s body in
            let put = lookup-insert_self c.upload.locator.key o m.objects in
            let set = lookup-insert_self c.upload.upload_id (finished_session s c) m.multipart in
            let passed : is_run 1 (sort_parts c.parts) ≡ true = ground (arith, gathered, h) in
            let declared : declared_object sha256 o c ≡ true = ground (arith, gathered, h) in
            let after : m' ≡ (record {
              objects = insert c.upload.locator.key o m.objects;
              multipart = insert c.upload.upload_id (finished_session s c) m.multipart;
            }) =
              ground (arith, gathered, h) in
            let names : md ≡ described c.upload.locator.key o = ground (arith, gathered, h) in
            (
              body,
              gathered,
              passed,
              ap (λ x. lookup c.upload.locator.key x.objects) after ∙ put,
              (
                finished_session s c,
                o,
                ap (λ x. lookup c.upload.upload_id x.multipart) after ∙ set,
                target,
                refl,
                ap (λ x. lookup c.upload.locator.key x.objects) after ∙ put,
                declared,
                names,
              ),
            )
      ]

  complete_found-IsDone :
      (s : MemoryMultipartSession) (status : SessionStatus) (m m' : MemoryStorage)
      (md : ObjectMetadata)
      → lookup c.upload.upload_id m.multipart ≡ some s
      → same_target s c.upload ≡ true
      → s.session.status ≡ status
      → complete_found sha256 c s status m ≡ (m', ok md)
      → IsDone m' md
  complete_found-IsDone s aborted m m' md kept target status h = cc
  complete_found-IsDone s completed m m' md kept target status h =
      elim (Option-cases (lookup c.upload.locator.key m.objects)) [
        | inl missing ↦ ground (arith, missing, h)
        | inr (o, there) ↦
            let unchanged : m' ≡ m = ground (arith, there, h) in
            (
              s,
              o,
              ap (λ x. lookup c.upload.upload_id x.multipart) unchanged ∙ kept,
              target,
              status,
              ap (λ x. lookup c.upload.locator.key x.objects) unchanged ∙ there,
              ground (arith, there, h),
              ground (arith, there, h),
            )
      ]
  complete_found-IsDone s initiated m m' md kept target status h =
      let (body, gathered, run, there, is_done) = complete_first-IsDone s m m' md target h in
      is_done
  complete_found-IsDone s uploading m m' md kept target status h =
      let (body, gathered, run, there, is_done) = complete_first-IsDone s m m' md target h in
      is_done

  -- A completion that returned returns the same when it is called again next, and changes nothing.
  pub complete_multipart_upload_retried :
      (m m' : MemoryStorage) (md : ObjectMetadata)
      → complete_multipart_upload sha256 c m ≡ (m', ok md)
      → complete_multipart_upload sha256 c m' ≡ (m', ok md)
  unfolding complete_multipart_upload
  complete_multipart_upload_retried m m' md h = elim (upload_of c.upload m) [
    | inr (e, bad) ↦ ground (arith, bad, h)
    | inl (s, kept, key, reads, target) ↦ done_again m' md (
        complete_found-IsDone s s.session.status m m' md kept target refl
          (ground (arith, reads, h)))
  ]

  complete_found_pending :
      (s : MemoryMultipartSession) (status : SessionStatus) (m : MemoryStorage)
      → is_closed status ≡ false
      → complete_found sha256 c s status m ≡ complete_first sha256 c s m
  complete_found_pending s aborted m pending = cc
  complete_found_pending s completed m pending = cc
  complete_found_pending s initiated m pending = refl
  complete_found_pending s uploading m pending = refl

  -- When the completion of an upload that was neither completed nor aborted returns, the declared
  -- parts are numbered 1, 2, … once they are sorted, the key holds the bodies of these parts one
  -- after another, and that text has the expected digest and length.
  pub complete_multipart_upload_assembled :
      (s : MemoryMultipartSession) (m m' : MemoryStorage) (md : ObjectMetadata)
      → lookup c.upload.upload_id m.multipart ≡ some s
      → is_closed s.session.status ≡ false
      → complete_multipart_upload sha256 c m ≡ (m', ok md)
      → (body : List ℕ) × (gather s.part_bodies (sort_parts c.parts) ≡ some body)
        × (is_run 1 (sort_parts c.parts) ≡ true)
        × (open_read_stream c.upload.locator none m' ≡ (m', ok body))
        × (sha256 body ≡ c.expected_sha256)
        × (length body ≡ c.expected_byte_length)
  unfolding complete_multipart_upload open_read_stream
  complete_multipart_upload_assembled s m m' md here pending h = elim (upload_of c.upload m) [
    | inr (e, bad) ↦ ground (arith, bad, h)
    | inl (t, kept, key, reads, target) ↦
        let same : t ≡ s = ground (arith, kept, here) in
        let is_open : is_closed t.session.status ≡ false =
          ap (λ x. is_closed x.session.status) same ∙ pending in
        let (body, gathered, run, there, (s', o, kept', target', status, stored, declared, names)) =
          complete_first-IsDone t m m' md target (
            sym (complete_found_pending t t.session.status m is_open) ∙ ground (arith, reads, h)) in
        let declared_body : declared_object sha256 (assembled_object sha256 t body) c ≡ true =
          ground (arith, there, stored, declared) in
        (
          body,
          ap (λ x. gather x.part_bodies (sort_parts c.parts)) (sym same) ∙ gathered,
          run,
          ground (arith, there),
          ground (arith, declared_body, eq_iff (sha256 body) c.expected_sha256),
          ground (arith, declared_body, eq_iff (length body) c.expected_byte_length),
        )
  ]
