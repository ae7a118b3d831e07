-- ===== src/Quarantine/States/Examples.antt =====
-- Scans at concrete states.
use trust_core.Common.{string_eq, number_eq, option_eq, Any, ◌≡◌, refl, inl, inr, List, [], ◌∷◌}
use trust_core.Quarantine.States.{
  ScanState, scan_queued, scanning, accepted, rejected, promotion_pending, promoted, failed,
  run_quarantine,
}
use trust_core.Quarantine.States.Runs.{run_quarantine-rejected, run_quarantine-promoted, IsCleared}

-- A scan that fails once and is run again.
abbrev rescanned : List ScanState
rescanned =
    scanning ∷ failed ∷ scan_queued ∷ scanning ∷ accepted ∷ promotion_pending ∷ promoted ∷ []

scan_queued_unclear : ¬ IsCleared scan_queued
scan_queued_unclear (inl h) = cc
scan_queued_unclear (inr (inl h)) = cc
scan_queued_unclear (inr (inr h)) = cc

run_quarantine-rejected_example : rejected ≡ rejected
unfolding run_quarantine
run_quarantine-rejected_example = run_quarantine-rejected (rejected ∷ rejected ∷ []) rejected refl

run_quarantine-promoted_example : Any (λ t. t ≡ accepted) rescanned
unfolding run_quarantine
run_quarantine-promoted_example =
    run_quarantine-promoted scan_queued rescanned scan_queued_unclear refl
