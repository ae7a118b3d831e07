-- ===== src/Upload/Examples.antt =====
-- Uploads at concrete states.
use trust_core.Common.{
  string_eq, number_eq, option_eq, Any, ok, err, ◌≡◌, refl, ◌↔◌, ◌⊎◌, false, List, [], ◌∷◌,
}
use trust_core.Upload.{
  UploadState, requested, authorised, temporary_upload_created, bytes_received, hash_verified,
  immutable_object_committed, metadata_committed, audit_committed, completed, failed_retryable,
  quarantined, can_transition, run_upload, invalid,
}
use trust_core.Upload.Runs.{
  IsTerminal, IsTerminal-iff, straight_way, run_upload-straight, run_upload-audited,
  completed_reachable,
}

-- A request whose bytes are received twice, after a failure.
abbrev retried : List UploadState
retried =
    authorised ∷ temporary_upload_created ∷ bytes_received ∷ failed_retryable ∷ bytes_received
    ∷ hash_verified ∷ immutable_object_committed ∷ metadata_committed ∷ audit_committed ∷ completed
    ∷ []

test-IsTerminal :
    ((t : UploadState) → can_transition quarantined t ≡ false) ↔ IsTerminal quarantined
test-IsTerminal = IsTerminal-iff quarantined

run_upload-straight_example : straight_way ≡ straight_way
unfolding run_upload
run_upload-straight_example = run_upload-straight straight_way refl refl

run_upload-audited_example : Any (λ t. t ≡ audit_committed) (requested ∷ retried)
unfolding run_upload
run_upload-audited_example = run_upload-audited requested retried (λ h. cc) refl

completed_reachable_example :
    IsTerminal failed_retryable
    ⊎ ((ts : List UploadState) × (run_upload failed_retryable ts ≡ ok completed))
completed_reachable_example = completed_reachable failed_retryable

-- No checkpoint is skipped.
test_skip : run_upload requested (bytes_received ∷ []) ≡ err (invalid requested bytes_received)
unfolding run_upload
test_skip = refl
