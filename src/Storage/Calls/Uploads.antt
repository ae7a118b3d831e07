-- ===== src/Storage/Calls/Uploads.antt =====
-- What the multipart calls of packages/storage/src/memory-object-storage.ts can change.
use trust_core.Common.{
  leb, if◌then◌else◌, Bool-cases, Option-cases, ◌==◌, string_eq, number_eq, option_eq, length, all,
  find, is_blank, ok, err, lookup, ℕ, String, ◌≡◌, refl, sym, ap, ◌∙◌, ◌⊎◌, inl, inr, Bool, true,
  not, ◌&&◌, Option, none, some, List, [], arith,
}
use mathlib.Core.Path.{subst}
use trust_core.Storage.{StorageError, storage, invalid_request}
use trust_core.Storage.Keys.{is_temporary_key}
use trust_core.Storage.Memory.{
  MemoryStorage, MemoryMultipartSession, MultipartUploadedPart, SessionStatus, initiated, uploading,
  completed, aborted, max_safe_integer,
}
use trust_core.Storage.Multipart.{
  finished_session, aborted_session, same_part, recorded_part, is_run, InitiateInput, UploadRef,
  CompleteInput, initiate_multipart_upload, upload_multipart_part, complete_multipart_upload,
  abort_multipart_upload, initiate_found, upload_found, complete_found, complete_first, same_target,
  with_part, new_part, is_part, is_closed, gather, sort_parts, reconcile_parts, declared_object,
  assembled_object, min_part_size, max_part_size, max_parts, new_session,
}
use trust_core.Storage.Multipart.Targets.{upload_of}
use trust_core.Storage.Calls.Changes.{Change, same, bound, finished, IsTargeted}

module _ (sha256 etag_of : List ℕ → String) where
  abbrev Chg : MemoryStorage → MemoryStorage → Type 0
  Chg m m' = Change sha256 m m'

  initiate_found-Change :
      (ref created_at day_later : String) (i : InitiateInput) (m : MemoryStorage)
      (o : Option MemoryMultipartSession)
      → is_temporary_key i.locator.key ≡ true
      → Chg m (initiate_found ref created_at day_later i o m).0
  initiate_found-Change ref created_at day_later i m none temp =
      bound i.upload_id
        (record { session = new_session ref created_at day_later i; part_bodies = [] }) temp refl
  initiate_found-Change ref created_at day_later i m (some s) temp = same (ground arith)

  pub initiate_multipart_upload-Change :
      (relaxed : Bool) (ref created_at day_later : String) (i : InitiateInput) (m : MemoryStorage)
      → Chg m (initiate_multipart_upload relaxed ref created_at day_later i m).0
  unfolding initiate_multipart_upload
  initiate_multipart_upload-Change relaxed ref created_at day_later i m =
      elim (Bool-cases (
        is_temporary_key i.locator.key
        && not (is_blank i.media_type)
        && (leb i.part_size max_safe_integer
            && leb (if relaxed then 1 else min_part_size) i.part_size
            && leb i.part_size max_part_size))) [
              | inr bad ↦ same (ground (arith, bad))
              | inl is ↦
                  subst (λ x. Chg m x) (ground (arith, is))
                    (initiate_found-Change ref created_at day_later i m
                      (lookup i.upload_id m.multipart) (ground (arith, is)))
            ]

  upload_found-Change :
      (u : UploadRef) (s : MemoryMultipartSession) (p : MultipartUploadedPart) (body : List ℕ)
      (o : Option MultipartUploadedPart) (m : MemoryStorage)
      → is_temporary_key s.session.locator.key ≡ true
      → Chg m (upload_found u s p body o m).0
  upload_found-Change u s p body none m temp = bound u.upload_id (with_part s p body) temp refl
  upload_found-Change u s p body (some q) m temp = same (ground arith)

  pub upload_multipart_part-Change :
      (u : UploadRef) (n : ℕ) (body : List ℕ) (size : ℕ) (m : MemoryStorage)
      → IsTargeted m
      → Chg m (upload_multipart_part etag_of u n body size m).0
  unfolding upload_multipart_part
  upload_multipart_part-Change u n body size m targets = elim (upload_of u m) [
    | inr (e, bad) ↦ same (ground (arith, bad))
    | inl (s, stored, key, reads, target) ↦
        elim (Bool-cases (
          not (is_closed s.session.status)
          && (leb 1 n && leb n max_parts)
          && length body == size
          && leb (length body) max_part_size)) [
            | inr bad ↦ same (ground (arith, reads, bad))
            | inl is ↦
                subst (λ x. Chg m x) (ground (arith, reads, is))
                  (upload_found-Change u s (new_part etag_of n body) body
                    (find (is_part n) s.session.parts) m (targets u.upload_id s stored))
          ]
  ]

  reconcile-cases :
      (recorded declared : List MultipartUploadedPart) (m : MemoryStorage)
      → (reconcile_parts recorded declared m ≡ (m, ok tt))
        ⊎ ((e : StorageError) × (reconcile_parts recorded declared m ≡ (m, err e)))
  unfolding reconcile_parts
  reconcile-cases recorded declared m =
      elim (Bool-cases (
        length recorded == length declared
        && all (λ p. same_part p (recorded_part p.part_number recorded)) declared
        && is_run 1 (sort_parts declared))) [
          | inl is ↦ inl (ground (arith, is))
          | inr bad ↦ inr (storage invalid_request, ground (arith, bad))
        ]

  complete_first-Change :
      (c : CompleteInput) (s : MemoryMultipartSession) (m : MemoryStorage)
      → is_temporary_key s.session.locator.key ≡ true
      → is_temporary_key c.upload.locator.key ≡ true
      → Chg m (complete_first sha256 c s m).0
  complete_first-Change c s m temp here = elim (reconcile-cases s.session.parts c.parts m) [
    | inr (e, bad) ↦ same (ground (arith, bad))
    | inl passed ↦ elim (Option-cases (gather s.part_bodies (sort_parts c.parts))) [
      | inl missing ↦ same (ground (arith, passed, missing))
      | inr (body, gathered) ↦
          elim (Bool-cases (declared_object sha256 (assembled_object sha256 s body) c)) [
            | inr bad ↦ same (ground (arith, passed, gathered, bad))
            | inl is ↦
                finished c.upload.locator.key (assembled_object sha256 s body) c.upload.upload_id
                  (finished_session s c) here refl temp (ground (arith, passed, gathered, is))
          ]
    ]
  ]

  complete_found-Change :
      (c : CompleteInput) (s : MemoryMultipartSession) (status : SessionStatus) (m : MemoryStorage)
      → is_temporary_key s.session.locator.key ≡ true
      → is_temporary_key c.upload.locator.key ≡ true
      → Chg m (complete_found sha256 c s status m).0
  complete_found-Change c s aborted m temp here = same refl
  complete_found-Change c s completed m temp here =
      elim (Option-cases (lookup c.upload.locator.key m.objects)) [
        | inl missing ↦ same (ground (arith, missing))
        | inr (o, stored) ↦ same (ground (arith, stored))
      ]
  complete_found-Change c s initiated m temp here = complete_first-Change c s m temp here
  complete_found-Change c s uploading m temp here = complete_first-Change c s m temp here

  pub complete_multipart_upload-Change :
      (c : CompleteInput) (m : MemoryStorage)
      → IsTargeted m
      → Chg m (complete_multipart_upload sha256 c m).0
  unfolding complete_multipart_upload
  complete_multipart_upload-Change c m targets = elim (upload_of c.upload m) [
    | inr (e, bad) ↦ same (ground (arith, bad))
    | inl (s, stored, key, reads, target) ↦
        let temp = targets c.upload.upload_id s stored in
        subst (λ x. Chg m x) (ground (arith, reads))
          (complete_found-Change c s s.session.status m temp (ap is_temporary_key (sym key) ∙ temp))
  ]

  pub abort_multipart_upload-Change :
      (u : UploadRef) (m : MemoryStorage) → IsTargeted m → Chg m (abort_multipart_upload u m).0
  unfolding abort_multipart_upload
  abort_multipart_upload-Change u m targets = elim (Option-cases (lookup u.upload_id m.multipart)) [
    | inl missing ↦ same (ground (arith, missing))
    | inr (s, stored) ↦ elim (Bool-cases (same_target s u)) [
      | inr other ↦ same (ground (arith, stored, other))
      | inl is ↦
          bound u.upload_id (aborted_session s) (targets u.upload_id s stored)
            (ground (arith, stored, is))
    ]
  ]
