-- ===== src/Quarantine/Orchestrator/Queueing.antt =====
-- `queueUploaded` of packages/operations/src/quarantine-scan.ts.
use trust_core.Common.{
  if◌then◌else◌, string_eq, number_eq, option_eq, ok, err, lookup, insert, lookup-insert_self, ℕ,
  String, ◌≡◌, refl, Bool, none, ◌∷◌, arith, true, false, some, eq_iff,
}
use trust_core.Quarantine.States.{scan_queued, scanning, transition_quarantine}
use trust_core.Quarantine.Store.{
  QuarantineScanRecord, ScanStore, save, get_by_upload_id, get_by_scan_job_id,
}
use trust_core.Quarantine.Store.Index.{save_update}
use trust_core.Quarantine.Orchestrator.{
  Orchestrator, ScanInput, submit_failed, queue_fresh, uploaded_record, get_by_scan_job_id,
  queue_uploaded,
}

-- No record has the job id or is of the upload.
pub record IsFresh (input : ScanInput) (m : ScanStore) : Type 0 where
  pub job : lookup input.scan_job_id m ≡ none
  pub upload : get_by_upload_id input.workspace_id input.upload_id m ≡ none

save_fresh :
    (r : QuarantineScanRecord) (m : ScanStore)
    → lookup r.scan_job_id m ≡ none
    → get_by_upload_id r.workspace_id r.upload_id m ≡ none
    → save r m ≡ (insert r.scan_job_id r m, ok tt)
unfolding save
save_fresh r m j u = ground (arith, j, u)

module _ (accepts : ScanInput → Bool) (clock : ℕ → String) (input : ScanInput) (o : Orchestrator)
    (f : IsFresh input o.store) where
  abbrev queued : QuarantineScanRecord
  queued = record (uploaded_record accepts clock input) {
    state = scan_queued;
    updated_at = clock 1;
  }

  abbrev running : QuarantineScanRecord
  running = record queued { state = scanning; updated_at = clock 2 }

  abbrev queued_store : ScanStore
  queued_store = insert input.scan_job_id queued o.store

  first_save : save queued o.store ≡ (queued_store, ok tt)
  first_save = save_fresh queued o.store f.job f.upload

  second_save : save running queued_store ≡ (insert input.scan_job_id running queued_store, ok tt)
  second_save =
      save_update running queued queued_store (lookup-insert_self input.scan_job_id queued o.store)
        refl refl refl refl

  queue_fresh_result : queue_fresh accepts clock input o ≡ (
      if accepts input
      then (
        record o {
          store = insert input.scan_job_id running queued_store;
          submitted = input ∷ o.submitted;
        },
        ok running,
      )
      else (record o { store = queued_store; submitted = input ∷ o.submitted }, err submit_failed))
  unfolding queue_fresh transition_quarantine
  queue_fresh_result = ground (arith, first_save, second_save)

  get_queued :
      (r : QuarantineScanRecord) (m : ScanStore)
      → r.workspace_id ≡ input.workspace_id
      → get_by_scan_job_id input.workspace_id input.scan_job_id (insert input.scan_job_id r m)
        ≡ some r
  unfolding get_by_scan_job_id
  get_queued r m w =
      ground
        (arith, lookup-insert_self input.scan_job_id r m, eq_iff r.workspace_id input.workspace_id)

  not_queued : get_by_scan_job_id input.workspace_id input.scan_job_id o.store ≡ none
  unfolding get_by_scan_job_id
  not_queued = ground (arith, f.job)

  queue_uploaded_fresh : queue_uploaded accepts clock input o ≡ queue_fresh accepts clock input o
  unfolding queue_uploaded
  queue_uploaded_fresh = ground (arith, not_queued)

-- A job that has a record is neither queued again nor given to the scanner again.
queue_uploaded_known :
    (accepts : ScanInput → Bool) (clock : ℕ → String) (input : ScanInput) (o : Orchestrator)
    (r : QuarantineScanRecord)
    → get_by_scan_job_id input.workspace_id input.scan_job_id o.store ≡ some r
    → queue_uploaded accepts clock input o ≡ (o, ok r)
unfolding queue_uploaded
queue_uploaded_known accepts clock input o r h = ground (arith, h)

-- If no record has the job or is of the upload, and the scanner takes the job, then the call
-- returns a record that is being scanned, the job was given to the scanner once, and asking again
-- next returns that record and changes nothing, whatever the scanner and the clock then do.
pub queue_uploaded_started :
    (accepts again : ScanInput → Bool) (clock later : ℕ → String) (input : ScanInput)
    (o : Orchestrator)
    → IsFresh input o.store
    → accepts input ≡ true
    → (r : QuarantineScanRecord) × (o' : Orchestrator) × (queue_uploaded accepts clock input o
        ≡ (o', ok r))
      × (r.state ≡ scanning)
      × (o'.submitted ≡ input ∷ o.submitted)
      × (queue_uploaded again later input o' ≡ (o', ok r))
queue_uploaded_started accepts again clock later input o f h = (
  r,
  o',
  ground (
    arith,
    queue_uploaded_fresh accepts clock input o f,
    queue_fresh_result accepts clock input o f,
    h,
  ),
  refl,
  refl,
  queue_uploaded_known again later input o' r
      (get_queued accepts clock input o f r (queued_store accepts clock input o f) refl),
)
  where
    r : QuarantineScanRecord
    r = running accepts clock input o f

    o' : Orchestrator
    o' = record o {
      store = insert input.scan_job_id r (queued_store accepts clock input o f);
      submitted = input ∷ o.submitted;
    }

-- If no record has the job or is of the upload, and the scanner refuses the job, then the call
-- fails, a record of the job stays scan_queued, and asking again next returns that record and
-- gives nothing to the scanner, whatever the scanner and the clock then do.
pub queue_uploaded_lost :
    (accepts again : ScanInput → Bool) (clock later : ℕ → String) (input : ScanInput)
    (o : Orchestrator)
    → IsFresh input o.store
    → accepts input ≡ false
    → (r : QuarantineScanRecord) × (o' : Orchestrator) × (queue_uploaded accepts clock input o
        ≡ (o', err submit_failed))
      × (r.state ≡ scan_queued)
      × (queue_uploaded again later input o' ≡ (o', ok r))
queue_uploaded_lost accepts again clock later input o f h = (
  r,
  o',
  ground (
    arith,
    queue_uploaded_fresh accepts clock input o f,
    queue_fresh_result accepts clock input o f,
    h,
  ),
  refl,
  queue_uploaded_known again later input o' r (get_queued accepts clock input o f r o.store refl),
)
  where
    r : QuarantineScanRecord
    r = queued accepts clock input o f

    o' : Orchestrator
    o' = record o { store = queued_store accepts clock input o f; submitted = input ∷ o.submitted }
