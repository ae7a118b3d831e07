-- ===== src/Upload.antt =====
-- packages/operations/src/upload-state-machine.ts over the states of packages/protocol/src/index.ts.
pub mod Runs
mod Examples
use trust_core.Common.{
  ◌≡◌, Bool, List, [], ◌∷◌, Eq, discrete_eq, includes, Result, ok, err, ◌>>=◌, if◌then◌else◌,
}

pub data UploadState : Type 0 where
  requested authorised temporary_upload_created bytes_received hash_verified : UploadState
  immutable_object_committed metadata_committed audit_committed completed : UploadState
  rejected failed_retryable failed_terminal quarantined : UploadState

abbrev pub UploadState-discrete : Discrete UploadState
UploadState-discrete = hlevel

instance abbrev pub upload_state_eq : Eq UploadState
upload_state_eq = discrete_eq UploadState-discrete

abbrev pub transitions : UploadState → List UploadState
transitions requested = authorised ∷ rejected ∷ failed_terminal ∷ []
transitions authorised = temporary_upload_created ∷ failed_retryable ∷ failed_terminal ∷ []
transitions temporary_upload_created = bytes_received ∷ failed_retryable ∷ quarantined ∷ []
transitions bytes_received = hash_verified ∷ failed_retryable ∷ failed_terminal ∷ quarantined ∷ []
transitions hash_verified = immutable_object_committed ∷ failed_retryable ∷ quarantined ∷ []
transitions immutable_object_committed = metadata_committed ∷ failed_retryable ∷ quarantined ∷ []
transitions metadata_committed = audit_committed ∷ failed_retryable ∷ quarantined ∷ []
transitions audit_committed = completed ∷ failed_retryable ∷ []
transitions completed = []
transitions rejected = []
transitions failed_retryable =
    authorised ∷ temporary_upload_created ∷ bytes_received ∷ hash_verified
    ∷ immutable_object_committed ∷ metadata_committed ∷ audit_committed ∷ failed_terminal
    ∷ quarantined ∷ []
transitions failed_terminal = []
transitions quarantined = []

-- The error's `from` and `to`.
pub data InvalidOperationTransition : Type 0 where
  invalid : (from to : UploadState) → InvalidOperationTransition

pub can_transition : UploadState → UploadState → Bool
can_transition from to = includes (transitions from) to

pub transition_upload : UploadState → UploadState → Result InvalidOperationTransition UploadState
unfolding can_transition
transition_upload from to = if can_transition from to then ok to else err (invalid from to)

-- A sequence of requested transitions, from a state.
pub run_upload : UploadState → List UploadState → Result InvalidOperationTransition UploadState
unfolding transition_upload
run_upload s [] = ok s
run_upload s (t ∷ ts) = do s' ← transition_upload s t; run_upload s' ts
