-- ===== src/Storage/Multipart/Targets.antt =====
-- The check by packages/storage/src/memory-object-storage.ts of the upload that a call names.
use trust_core.Common.{
  Bool-cases, Option-cases, eq_iff, string_eq, number_eq, option_eq, ok, err, lookup, ◌≡◌, ◌⊎◌, inl,
  inr, true, some, arith,
}
use trust_core.Storage.{StorageError, storage, not_found, conflict}
use trust_core.Storage.Memory.{MemoryStorage, MemoryMultipartSession}
use trust_core.Storage.Multipart.{UploadRef, required_multipart, same_target}

-- The upload that a call names, if it passes the check of its target.
pub upload_of :
    (u : UploadRef) (m : MemoryStorage)
    → ((s : MemoryMultipartSession) × (lookup u.upload_id m.multipart ≡ some s)
        × (s.session.locator.key ≡ u.locator.key)
        × (required_multipart u m ≡ (m, ok s))
        × (same_target s u ≡ true))
      ⊎ ((e : StorageError) × (required_multipart u m ≡ (m, err e)))
upload_of u m = elim (Option-cases (lookup u.upload_id m.multipart)) [
  | inl missing ↦ inr (storage not_found, ground (arith, missing))
  | inr (s, stored) ↦ elim (Bool-cases (same_target s u)) [
    | inr other ↦ inr (storage conflict, ground (arith, stored, other))
    | inl is ↦ inl (
      s,
      stored,
      ground (arith, is, eq_iff s.session.locator.key u.locator.key),
      ground (arith, stored, is),
      is,
    )
  ]
]
