-- ===== src/Quarantine/Store/Examples.antt =====
-- Concrete records of scans.
use trust_core.Common.{
  eq_iff, string_eq, number_eq, option_eq, lookup, insert, String, ◌≡◌, refl, ◌≢◌, none, some, [],
  ◌∷◌, arith,
}
use trust_core.Quarantine.States.{scanning, scan_queued}
use trust_core.Quarantine.Store.{
  QuarantineScanRecord, ScanStore, save, get_by_upload_id, get_by_scan_job_id,
  resolve_quarantine_scan_save, immutable_fields,
}
use trust_core.Quarantine.Store.Index.{IsIndexed, save_refused, save-IsIndexed, save-lookup}

abbrev pub running : QuarantineScanRecord
running = record {
  scan_job_id = "job-1";
  workspace_id = "w-1";
  upload_id = "u-1";
  storage_key = "quarantine/w-1/u-1";
  state = scanning;
  outcome = none;
  created_at = "2026-01-01T00:00:00.000Z";
  updated_at = "2026-01-01T00:00:02.000Z";
}

-- The same job, as it was queued and as it would stand with another key.
abbrev queued : QuarantineScanRecord
queued = record running { state = scan_queued; updated_at = "2026-01-01T00:00:01.000Z" }

abbrev moved : QuarantineScanRecord
moved = record running { storage_key = "quarantine/w-1/u-2" }

abbrev one_job : ScanStore
one_job = ("job-1", queued) ∷ []

pub singleton-IsIndexed : (r : QuarantineScanRecord) → IsIndexed ((r.scan_job_id, r) ∷ [])
unfolding lookup
singleton-IsIndexed r = record {
  keyed = (refl, tt);
  unique = λ i j a b e f w u. ground (arith, eq_iff r.scan_job_id i, eq_iff r.scan_job_id j, e, f);
}

save_refused_example : (save moved one_job).0 ≡ one_job
unfolding save resolve_quarantine_scan_save lookup get_by_upload_id insert
save_refused_example = save_refused moved one_job immutable_fields refl

save-IsIndexed_example : IsIndexed (save running one_job).0
save-IsIndexed_example = save-IsIndexed running one_job (singleton-IsIndexed queued)

save-lookup_example :
    (get_by_scan_job_id "w-1" "job-1" (save running one_job).0 ≡ some running)
    × ((j : String) → j ≢ "job-1" → lookup j (save running one_job).0 ≡ lookup j one_job)
    × ((s : QuarantineScanRecord)
        → lookup "job-1" one_job ≡ some s
        → (s.workspace_id ≡ "w-1")
          × (s.upload_id ≡ "u-1")
          × (s.storage_key ≡ "quarantine/w-1/u-1")
          × (s.created_at ≡ "2026-01-01T00:00:00.000Z"))
unfolding save resolve_quarantine_scan_save lookup get_by_upload_id insert
save-lookup_example = save-lookup running one_job (singleton-IsIndexed queued) refl
