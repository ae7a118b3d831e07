-- ===== src/Quarantine/Orchestrator.antt =====
-- `QuarantineScanOrchestrator` of packages/operations/src/quarantine-scan.ts over the in-memory
-- store. The scanner and the clock are arguments of each call: whether `submit` succeeds, and the
-- call's successive readings of the clock. `submitted` is the history of what was given to the scanner.
pub mod Callbacks
pub mod Queueing
mod Examples
use Prim.Native.String.{◌++◌ as text_append}
use trust_core.Common.{
  if◌then◌else◌, ◌==◌, string_eq, number_eq, option_eq, discrete_eq, includes, Result, ok, err, ℕ,
  String, Bool, not, ◌&&◌, none, some, List, ◌∷◌, arith,
}
use trust_core.Common.Effect.{M, ◌>>=◌, ◌>>◌, pure, throw, modify, read}
use trust_core.Quarantine.States.{
  ScanState, ScanOutcome, uploaded, scan_queued, scanning, accepted, InvalidQuarantineTransition,
  invalid, transition_quarantine, outcome_state, outcome_name, scan_state_eq, scan_outcome_eq,
}
use trust_core.Quarantine.Store.{
  QuarantineScanRecord, QuarantineScanConflict, ScanStore, save, get_by_scan_job_id,
}

pub record ScanInput : Type 0 where
  pub scan_job_id : String
  pub workspace_id : String
  pub upload_id : String
  pub storage_key : String

pub record ScanCallback : Type 0 where
  pub scan_job_id : String
  pub workspace_id : String
  pub outcome : ScanOutcome
  pub authentic : Bool

pub record Orchestrator : Type 0 where
  pub store : ScanStore
  pub processed_callbacks : List String
  pub submitted : List ScanInput

pub data ScanError : Type 0 where
  not_authentic unknown_job submit_failed : ScanError
  conflict : QuarantineScanConflict → ScanError
  transition : InvalidQuarantineTransition → ScanError

abbrev pub O : Type 0 → Type 0
O A = M Orchestrator ScanError A

abbrev pub on_store_result :
    Orchestrator
    → ScanStore × Result QuarantineScanConflict (Unit {0})
    → Orchestrator × Result ScanError (Unit {0})
on_store_result o (m, ok u) = (record o { store = m }, ok u)
on_store_result o (m, err e) = (record o { store = m }, err (conflict e))

pub store_save : QuarantineScanRecord → O (Unit {0})
store_save r o = on_store_result o (save r o.store)

abbrev pub moved : Result InvalidQuarantineTransition ScanState → O ScanState
moved (ok s) = pure s
moved (err e) = throw (transition e)

pub submit : (ScanInput → Bool) → ScanInput → O (Unit {0})
submit accepts input o = (
  record o { submitted = input ∷ o.submitted },
  if accepts input then ok tt else err submit_failed,
)

module _ (accepts : ScanInput → Bool) (clock : ℕ → String) where
  abbrev pub uploaded_record : ScanInput → QuarantineScanRecord
  uploaded_record input = record {
    scan_job_id = input.scan_job_id;
    workspace_id = input.workspace_id;
    upload_id = input.upload_id;
    storage_key = input.storage_key;
    state = uploaded;
    outcome = none;
    created_at = clock 0;
    updated_at = clock 0;
  }

  -- `queueUploaded` for a job that has no record yet.
  pub queue_fresh : ScanInput → O QuarantineScanRecord
  unfolding store_save submit
  queue_fresh input = do
    queued ← moved (transition_quarantine uploaded scan_queued)
    let first = record (uploaded_record input) { state = queued; updated_at = clock 1 }
    store_save first
    started ← moved (transition_quarantine first.state scanning)
    let second = record first { state = started; updated_at = clock 2 }
    submit accepts input
    store_save second
    pure second

  pub queue_uploaded : ScanInput → O QuarantineScanRecord
  queue_uploaded input = do
    existing ← read (λ o. get_by_scan_job_id input.workspace_id input.scan_job_id o.store)
    let fresh = queue_fresh input
    elim existing [ some r ↦ pure r | none ↦ fresh ]

unfoldable pub callback_key : ScanCallback → String
callback_key c = text_append c.scan_job_id (text_append ":" (outcome_name c.outcome))

pub mark_processed : String → O (Unit {0})
mark_processed key = modify λ o. record o { processed_callbacks = key ∷ o.processed_callbacks }

module _ (now : String) where
  -- `handleCallback` once the record is found: a replay, a callback that was already applied, one
  -- that comes too late, or the outcome of the running scan.
  pub apply_callback : ScanCallback → QuarantineScanRecord → O QuarantineScanRecord
  unfolding store_save mark_processed
  apply_callback c r = do
    processed ← read (λ o. includes o.processed_callbacks (callback_key c))
    let applied = r.outcome == some c.outcome && r.state == outcome_state c.outcome
    let again = (do mark_processed (callback_key c); pure r)
    let late = throw (transition (invalid r.state accepted))
    let finish = (do
      next ← moved (transition_quarantine r.state (outcome_state c.outcome))
      let updated = record r { state = next; outcome = some c.outcome; updated_at = now }
      mark_processed (callback_key c)
      store_save updated
      pure updated)
    (if processed
        then pure r
        else if applied
        then again
        else if not (r.state == scanning)
        then late
        else finish)

  pub handle_callback : ScanCallback → O QuarantineScanRecord
  handle_callback c = do
    found ← read (λ o. get_by_scan_job_id c.workspace_id c.scan_job_id o.store)
    (if not c.authentic then throw not_authentic else elim found [
      | none ↦ throw unknown_job
      | some r ↦
          if not (r.workspace_id == c.workspace_id) then throw unknown_job else apply_callback c r
    ])
