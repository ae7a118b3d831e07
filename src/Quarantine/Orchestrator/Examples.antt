-- ===== src/Quarantine/Orchestrator/Examples.antt =====
-- A scan that is queued, started and called back.
use trust_core.Common.{
  string_eq, number_eq, option_eq, ok, err, lookup, insert, String, ◌≡◌, refl, ◌⊎◌, true, false,
  some, [], ◌∷◌,
}
use trust_core.Quarantine.States.{
  scanning, scan_queued, accepted, clean, outcome_state, transition_quarantine,
}
use trust_core.Quarantine.Store.{
  QuarantineScanRecord, save, get_by_upload_id, get_by_scan_job_id, resolve_quarantine_scan_save,
}
use trust_core.Quarantine.Store.Examples.{running, singleton-IsIndexed}
use trust_core.Quarantine.Orchestrator.{
  ScanInput, ScanCallback, Orchestrator, handle_callback, queue_uploaded, apply_callback,
  submit_failed, not_authentic,
}
use trust_core.Quarantine.Orchestrator.Callbacks.{
  handle_callback_refused, handle_callback_accepted, handle_callback-handle_callback,
}
use trust_core.Quarantine.Orchestrator.Queueing.{
  IsFresh, queue_uploaded_started, queue_uploaded_lost,
}

abbrev scanned : Orchestrator
scanned = record { store = ("job-1", running) ∷ []; processed_callbacks = []; submitted = [] }

abbrev is_clean : ScanCallback
is_clean = record { scan_job_id = "job-1"; workspace_id = "w-1"; outcome = clean; authentic = true }

abbrev forged : ScanCallback
forged = record is_clean { authentic = false }

abbrev cleared : QuarantineScanRecord
cleared = record running {
  state = accepted;
  outcome = some clean;
  updated_at = "2026-01-01T00:01:00.000Z";
}

abbrev at : String
at = "2026-01-01T00:01:00.000Z"

abbrev job : String
job = "job-1"

abbrev fresh : ScanInput
fresh = record {
  scan_job_id = "job-2";
  workspace_id = "w-1";
  upload_id = "u-2";
  storage_key = "quarantine/w-1/u-2";
}

fresh-IsFresh : IsFresh fresh scanned.store
unfolding lookup get_by_upload_id
fresh-IsFresh = record { job = refl; upload = refl }

handle_callback_refused_example : (handle_callback at forged scanned).0 ≡ scanned
unfolding handle_callback
handle_callback_refused_example =
    handle_callback_refused at forged scanned not_authentic (singleton-IsIndexed running) refl

handle_callback_accepted_example :
    (lookup "job-1" scanned.store ≡ some cleared)
    ⊎ ((r : QuarantineScanRecord) × (true ≡ true)
        × (job ≡ is_clean.scan_job_id)
        × (lookup "job-1" scanned.store ≡ some r)
        × (r.state ≡ scanning)
        × (cleared ≡ record r { state = accepted; outcome = some clean; updated_at = at }))
unfolding handle_callback apply_callback save get_by_scan_job_id lookup insert get_by_upload_id
    resolve_quarantine_scan_save transition_quarantine outcome_state
handle_callback_accepted_example =
    handle_callback_accepted at is_clean scanned "job-1" cleared (singleton-IsIndexed running) refl

handle_callback-handle_callback_example :
    handle_callback "2026-01-02T00:00:00.000Z" is_clean (handle_callback at is_clean scanned).0
    ≡ ((handle_callback at is_clean scanned).0, ok cleared)
unfolding handle_callback apply_callback save get_by_scan_job_id lookup insert get_by_upload_id
    resolve_quarantine_scan_save transition_quarantine outcome_state
handle_callback-handle_callback_example =
    handle_callback-handle_callback at "2026-01-02T00:00:00.000Z" is_clean scanned cleared
      (singleton-IsIndexed running) refl

queue_uploaded_started_example :
    (r : QuarantineScanRecord) × (o' : Orchestrator) × (queue_uploaded
        (λ input. true)
        (λ n. at)
        fresh
        scanned
      ≡ (o', ok r))
    × (r.state ≡ scanning)
    × (o'.submitted ≡ fresh ∷ [])
    × (queue_uploaded (λ input. false) (λ n. at) fresh o' ≡ (o', ok r))
queue_uploaded_started_example =
    queue_uploaded_started (λ input. true) (λ input. false) (λ n. at) (λ n. at) fresh scanned
      fresh-IsFresh refl

queue_uploaded_lost_example :
    (r : QuarantineScanRecord) × (o' : Orchestrator) × (queue_uploaded
        (λ input. false)
        (λ n. at)
        fresh
        scanned
      ≡ (o', err submit_failed))
    × (r.state ≡ scan_queued)
    × (queue_uploaded (λ input. true) (λ n. at) fresh o' ≡ (o', ok r))
queue_uploaded_lost_example =
    queue_uploaded_lost (λ input. false) (λ input. true) (λ n. at) (λ n. at) fresh scanned
      fresh-IsFresh refl
