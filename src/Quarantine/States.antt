-- ===== src/Quarantine/States.antt =====
-- The state machine of packages/operations/src/quarantine-scan.ts, over the states and outcomes of
-- packages/protocol/src/index.ts.
pub mod Runs
mod Examples
use trust_core.Common.{
  if◌then◌else◌, Eq, ◌==◌, string_eq, number_eq, option_eq, discrete_eq, includes, Result, ok, err,
  ◌>>=◌, ◌>>◌, ◌-◌, String, Bool, List, [], ◌∷◌, arith,
}

pub data ScanState : Type 0 where
  pending_upload uploaded scan_queued scanning accepted : ScanState
  rejected manual_review promotion_pending promoted failed : ScanState

abbrev pub ScanState-discrete : Discrete ScanState
ScanState-discrete = hlevel

instance abbrev pub scan_state_eq : Eq ScanState
scan_state_eq = discrete_eq ScanState-discrete

pub data ScanOutcome : Type 0 where
  clean malicious suspicious unsupported error timeout : ScanOutcome

abbrev pub ScanOutcome-discrete : Discrete ScanOutcome
ScanOutcome-discrete = hlevel

instance abbrev pub scan_outcome_eq : Eq ScanOutcome
scan_outcome_eq = discrete_eq ScanOutcome-discrete

-- The outcomes are strings in the source.
abbrev pub outcome_name : ScanOutcome → String
outcome_name clean = "clean"
outcome_name malicious = "malicious"
outcome_name suspicious = "suspicious"
outcome_name unsupported = "unsupported"
outcome_name error = "error"
outcome_name timeout = "timeout"

abbrev pub transitions : ScanState → List ScanState
transitions pending_upload = uploaded ∷ failed ∷ []
transitions uploaded = scan_queued ∷ failed ∷ []
transitions scan_queued = scanning ∷ failed ∷ []
transitions scanning = accepted ∷ rejected ∷ manual_review ∷ failed ∷ []
transitions accepted = promotion_pending ∷ failed ∷ []
transitions rejected = []
transitions manual_review = accepted ∷ rejected ∷ failed ∷ []
transitions promotion_pending = promoted ∷ failed ∷ []
transitions promoted = []
transitions failed = scan_queued ∷ []

pub data InvalidQuarantineTransition : Type 0 where
  invalid : (from to : ScanState) → InvalidQuarantineTransition

pub can_transition_quarantine : ScanState → ScanState → Bool
can_transition_quarantine from to = includes (transitions from) to

-- A transition to the state itself is always allowed.
unfoldable pub transition_quarantine :
    ScanState → ScanState → Result InvalidQuarantineTransition ScanState
unfolding can_transition_quarantine
transition_quarantine from to =
    if from == to
    then ok from
    else (if can_transition_quarantine from to then ok to else err (invalid from to))

unfoldable pub outcome_state : ScanOutcome → ScanState
outcome_state clean = accepted
outcome_state malicious = rejected
outcome_state suspicious = manual_review
outcome_state unsupported = failed
outcome_state error = failed
outcome_state timeout = failed

-- A sequence of requested transitions, from a state.
pub run_quarantine : ScanState → List ScanState → Result InvalidQuarantineTransition ScanState
unfolding transition_quarantine
run_quarantine s [] = ok s
run_quarantine s (t ∷ ts) = do s' ← transition_quarantine s t; run_quarantine s' ts
