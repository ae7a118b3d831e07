-- ===== src/Quarantine/Store.antt =====
-- packages/operations/src/quarantine-scan-store.ts: the records of scans by job id.
pub mod Index
pub mod Examples
use trust_core.Common.{
  if◌then◌else◌, ◌==◌, string_eq, number_eq, option_eq, discrete_eq, find, Result, ok, err, Dict,
  lookup, insert, values, String, Bool, not, ◌&&◌, Option, none, some, arith,
}
use trust_core.Common.Effect.{M, ◌>>=◌, ◌>>◌, lift, modify, read}
use trust_core.Quarantine.States.{ScanState, ScanOutcome}

pub record QuarantineScanRecord : Type 0 where
  pub scan_job_id : String
  pub workspace_id : String
  pub upload_id : String
  pub storage_key : String
  pub state : ScanState
  pub outcome : Option ScanOutcome
  pub created_at : String
  pub updated_at : String

-- The conflict's message.
pub data QuarantineScanConflict : Type 0 where
  job_bound_elsewhere immutable_fields upload_has_other_job : QuarantineScanConflict

pub data SaveAction : Type 0 where
  insert_record update_record : SaveAction

abbrev same_identity : QuarantineScanRecord → QuarantineScanRecord → Bool
same_identity r s = r.storage_key == s.storage_key && r.created_at == s.created_at

unfoldable pub resolve_quarantine_scan_save :
    Option QuarantineScanRecord
    → Option QuarantineScanRecord
    → QuarantineScanRecord
    → Result QuarantineScanConflict SaveAction
resolve_quarantine_scan_save (some by_job) by_upload incoming =
    if not (by_job.workspace_id == incoming.workspace_id && by_job.upload_id == incoming.upload_id)
    then err job_bound_elsewhere
    else if not (same_identity by_job incoming)
    then err immutable_fields
    else ok update_record
resolve_quarantine_scan_save none (some by_upload) incoming =
    if not (by_upload.scan_job_id == incoming.scan_job_id)
    then err upload_has_other_job
    else if not (same_identity by_upload incoming)
    then err immutable_fields
    else ok update_record
resolve_quarantine_scan_save none none incoming = ok insert_record

-- `byJobId`. The records are values here, so the source's copies are the records themselves.
abbrev pub ScanStore : Type 0
ScanStore = Dict QuarantineScanRecord

abbrev pub is_upload : String → String → QuarantineScanRecord → Bool
is_upload workspace upload r = r.workspace_id == workspace && r.upload_id == upload

unfoldable pub get_by_upload_id : String → String → ScanStore → Option QuarantineScanRecord
get_by_upload_id workspace upload m = find (is_upload workspace upload) (values m)

abbrev in_workspace : String → Option QuarantineScanRecord → Option QuarantineScanRecord
in_workspace workspace none = none
in_workspace workspace (some r) = if r.workspace_id == workspace then some r else none

unfoldable pub get_by_scan_job_id : String → String → ScanStore → Option QuarantineScanRecord
get_by_scan_job_id workspace job m = in_workspace workspace (lookup job m)

unfoldable pub save : QuarantineScanRecord → M ScanStore QuarantineScanConflict (Unit {0})
unfolding resolve_quarantine_scan_save
save r = do
  by_job ← read (lookup r.scan_job_id)
  by_upload ← read (get_by_upload_id r.workspace_id r.upload_id)
  action ← lift (resolve_quarantine_scan_save by_job by_upload r)
  modify (insert r.scan_job_id r)
