-- ===== src/Upload/Runs.antt =====
-- What sequences of transitions of packages/operations/src/upload-state-machine.ts can do.
use trust_core.Common.{
  ◌≡◌, refl, false, List, [], ◌∷◌, ok, arith, inl, inr, ◌⊎◌, ap, includes, ◌↔◌, ◌≢◌, true, Any,
}
use trust_core.Upload.{
  UploadState, requested, authorised, temporary_upload_created, bytes_received, hash_verified,
  immutable_object_committed, metadata_committed, audit_committed, completed, rejected,
  failed_retryable, failed_terminal, quarantined, can_transition, run_upload, upload_state_eq,
  UploadState-discrete,
}

-- The states that end an upload.
abbrev pub IsTerminal : UploadState → Type 0
IsTerminal s = (s ≡ completed) ⊎ (s ≡ rejected) ⊎ (s ≡ failed_terminal) ⊎ (s ≡ quarantined)

-- The way of an upload in which nothing fails.
abbrev pub straight_way : List UploadState
straight_way =
    authorised ∷ temporary_upload_created ∷ bytes_received ∷ hash_verified
    ∷ immutable_object_committed ∷ metadata_committed ∷ audit_committed ∷ completed ∷ []

terminal_stays : (s : UploadState) → IsTerminal s → (t : UploadState) → can_transition s t ≡ false
unfolding can_transition
terminal_stays completed e t = refl
terminal_stays rejected e t = refl
terminal_stays failed_terminal e t = refl
terminal_stays quarantined e t = refl
terminal_stays _ e t = ground arith

-- A state that allows some transition.
onward : (s : UploadState) → ((t : UploadState) → can_transition s t ≡ false) → IsTerminal s
unfolding can_transition
onward requested h = cc (h authorised)
onward authorised h = cc (h failed_retryable)
onward temporary_upload_created h = cc (h failed_retryable)
onward bytes_received h = cc (h failed_retryable)
onward hash_verified h = cc (h failed_retryable)
onward immutable_object_committed h = cc (h failed_retryable)
onward metadata_committed h = cc (h failed_retryable)
onward audit_committed h = cc (h failed_retryable)
onward completed h = inl refl
onward rejected h = inr (inl refl)
onward failed_retryable h = cc (h authorised)
onward failed_terminal h = inr (inr (inl refl))
onward quarantined h = inr (inr (inr refl))

-- No transition leaves a state exactly when it is completed, rejected, failed_terminal or quarantined.
pub IsTerminal-iff :
    (s : UploadState) → ((t : UploadState) → can_transition s t ≡ false) ↔ IsTerminal s
IsTerminal-iff s = (onward s, terminal_stays s)

module _ (ts : List UploadState) where
  abbrev Completes : UploadState → Type 0
  Completes s = run_upload s ts ≡ ok completed

  abbrev NoRetry : Type 0
  NoRetry = includes ts failed_retryable ≡ false

from_rejected : (ts : List UploadState) → ¬ Completes ts rejected
unfolding run_upload
from_rejected [] h = cc
from_rejected (t ∷ ts) h = cc

from_failed_terminal : (ts : List UploadState) → ¬ Completes ts failed_terminal
unfolding run_upload
from_failed_terminal [] h = cc
from_failed_terminal (t ∷ ts) h = cc

from_quarantined : (ts : List UploadState) → ¬ Completes ts quarantined
unfolding run_upload
from_quarantined [] h = cc
from_quarantined (t ∷ ts) h = cc

from_completed : (ts : List UploadState) → Completes ts completed → ts ≡ []
unfolding run_upload
from_completed [] h = refl
from_completed (t ∷ ts) h = cc

from_audit :
    (ts : List UploadState) → Completes ts audit_committed → NoRetry ts → ts ≡ completed ∷ []
unfolding run_upload
from_audit [] h n = cc
from_audit (completed ∷ ts) h n = ap (◌∷◌ completed) (from_completed ts h)
from_audit (failed_retryable ∷ ts) h n = cc
from_audit (_ ∷ ts) h n = cc

from_metadata :
    (ts : List UploadState)
    → Completes ts metadata_committed
    → NoRetry ts
    → ts ≡ audit_committed ∷ completed ∷ []
unfolding run_upload
from_metadata [] h n = cc
from_metadata (audit_committed ∷ ts) h n = ap (◌∷◌ audit_committed) (from_audit ts h n)
from_metadata (quarantined ∷ ts) h n = absurd (from_quarantined ts h)
from_metadata (failed_retryable ∷ ts) h n = cc
from_metadata (_ ∷ ts) h n = cc

from_immutable :
    (ts : List UploadState)
    → Completes ts immutable_object_committed
    → NoRetry ts
    → ts ≡ metadata_committed ∷ audit_committed ∷ completed ∷ []
unfolding run_upload
from_immutable [] h n = cc
from_immutable (metadata_committed ∷ ts) h n = ap (◌∷◌ metadata_committed) (from_metadata ts h n)
from_immutable (quarantined ∷ ts) h n = absurd (from_quarantined ts h)
from_immutable (failed_retryable ∷ ts) h n = cc
from_immutable (_ ∷ ts) h n = cc

from_hash :
    (ts : List UploadState)
    → Completes ts hash_verified
    → NoRetry ts
    → ts ≡ immutable_object_committed ∷ metadata_committed ∷ audit_committed ∷ completed ∷ []
unfolding run_upload
from_hash [] h n = cc
from_hash (immutable_object_committed ∷ ts) h n =
    ap (◌∷◌ immutable_object_committed) (from_immutable ts h n)
from_hash (quarantined ∷ ts) h n = absurd (from_quarantined ts h)
from_hash (failed_retryable ∷ ts) h n = cc
from_hash (_ ∷ ts) h n = cc

-- The states that follow the bytes.
abbrev after_bytes : List UploadState
after_bytes =
    hash_verified ∷ immutable_object_committed ∷ metadata_committed ∷ audit_committed ∷ completed
    ∷ []

from_bytes : (ts : List UploadState) → Completes ts bytes_received → NoRetry ts → ts ≡ after_bytes
unfolding run_upload
from_bytes [] h n = cc
from_bytes (hash_verified ∷ ts) h n = ap (◌∷◌ hash_verified) (from_hash ts h n)
from_bytes (quarantined ∷ ts) h n = absurd (from_quarantined ts h)
from_bytes (failed_terminal ∷ ts) h n = absurd (from_failed_terminal ts h)
from_bytes (failed_retryable ∷ ts) h n = cc
from_bytes (_ ∷ ts) h n = cc

from_temporary :
    (ts : List UploadState)
    → Completes ts temporary_upload_created
    → NoRetry ts
    → ts ≡ bytes_received ∷ after_bytes
unfolding run_upload
from_temporary [] h n = cc
from_temporary (bytes_received ∷ ts) h n = ap (◌∷◌ bytes_received) (from_bytes ts h n)
from_temporary (quarantined ∷ ts) h n = absurd (from_quarantined ts h)
from_temporary (failed_retryable ∷ ts) h n = cc
from_temporary (_ ∷ ts) h n = cc

from_authorised :
    (ts : List UploadState)
    → Completes ts authorised
    → NoRetry ts
    → ts ≡ temporary_upload_created ∷ bytes_received ∷ after_bytes
unfolding run_upload
from_authorised [] h n = cc
from_authorised (temporary_upload_created ∷ ts) h n =
    ap (◌∷◌ temporary_upload_created) (from_temporary ts h n)
from_authorised (failed_terminal ∷ ts) h n = absurd (from_failed_terminal ts h)
from_authorised (failed_retryable ∷ ts) h n = cc
from_authorised (_ ∷ ts) h n = cc

-- A sequence of transitions that takes a requested upload to completed, and that names no
-- failed_retryable, is the straight way through all eight checkpoints in their order.
pub run_upload-straight :
    (ts : List UploadState)
    → run_upload requested ts ≡ ok completed
    → includes ts failed_retryable ≡ false
    → ts ≡ straight_way
unfolding run_upload
run_upload-straight [] h n = cc
run_upload-straight (authorised ∷ ts) h n = ap (◌∷◌ authorised) (from_authorised ts h n)
run_upload-straight (rejected ∷ ts) h n = absurd (from_rejected ts h)
run_upload-straight (failed_terminal ∷ ts) h n = absurd (from_failed_terminal ts h)
run_upload-straight (_ ∷ ts) h n = cc

step_to_completed : (s : UploadState) → can_transition s completed ≡ true → s ≡ audit_committed
unfolding can_transition
step_to_completed audit_committed h = refl
step_to_completed _ h = cc

-- An accepted sequence of transitions that reaches completed, from any state but completed, starts
-- at audit_committed or enters it, whatever fails and is retried on the way.
pub run_upload-audited :
    (s : UploadState) (ts : List UploadState)
    → s ≢ completed
    → run_upload s ts ≡ ok completed
    → Any (λ t. t ≡ audit_committed) (s ∷ ts)
unfolding run_upload
run_upload-audited s [] other h = absurd (other (cc))
run_upload-audited s (t ∷ ts) other h = elim (UploadState-discrete t completed) [
  | yes last ↦ inl (step_to_completed s (ground (arith, last)))
  | no more ↦ inr (run_upload-audited t ts more (ground arith))
]

-- From every state but the terminal ones some sequence of transitions reaches completed.
pub completed_reachable :
    (s : UploadState) → IsTerminal s ⊎ ((ts : List UploadState) × (run_upload s ts ≡ ok completed))
unfolding run_upload
completed_reachable requested = inr (straight_way, refl)
completed_reachable authorised = inr (temporary_upload_created ∷ bytes_received ∷ after_bytes, refl)
completed_reachable temporary_upload_created = inr (bytes_received ∷ after_bytes, refl)
completed_reachable bytes_received = inr (after_bytes, refl)
completed_reachable hash_verified = inr (failed_retryable ∷ audit_committed ∷ completed ∷ [], refl)
completed_reachable immutable_object_committed =
    inr (metadata_committed ∷ audit_committed ∷ completed ∷ [], refl)
completed_reachable metadata_committed = inr (audit_committed ∷ completed ∷ [], refl)
completed_reachable audit_committed = inr (completed ∷ [], refl)
completed_reachable completed = inl (inl refl)
completed_reachable rejected = inl (inr (inl refl))
completed_reachable failed_retryable = inr (audit_committed ∷ completed ∷ [], refl)
completed_reachable failed_terminal = inl (inr (inr (inl refl)))
completed_reachable quarantined = inl (inr (inr (inr refl)))
