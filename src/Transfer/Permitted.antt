-- ===== src/Transfer/Permitted.antt =====
-- What `issue` of packages/operations/src/transfer-grants.ts asks of a request before it is signed.
use trust_core.Common.{
  string_eq, number_eq, option_eq, ℕ, String, ◌≡◌, refl, ap, ◌≢◌, true, false, Option, some, arith,
}
use trust_core.Common.Time.{ℤ}
use trust_core.Policy.Actions.{PolicyAction, object_ingest, blob_read}
use trust_core.Policy.Evaluate.{evaluate_policy, allowed}
use trust_core.Transfer.{
  upload, download, is_blocked, TransferGrantOperation, IssueTransferGrantInput, action_of,
}
use trust_core.Transfer.Service.{TransferGrantService, is_available}

module _ {S : Type 0} (service : TransferGrantService S) (parse : String → Option ℤ)
    (now grant_id : String) (expires_at_of : (ttl_seconds : ℕ) → String) (redact : String → String)
    (input : IssueTransferGrantInput S) where
  abbrev state : Option String
  state = input.target.quarantine_state

  barred : (s : String) → is_blocked (some s) ≡ true → is_blocked state ≡ false → state ≢ some s
  barred s blocked free e = ground (arith, ap is_blocked e, blocked, free)

  -- A quarantine state that leaves an object to be downloaded.
  abbrev pub IsFree : Type 0
  IsFree =
      (state ≢ some "pending_upload")
      × (state ≢ some "uploaded")
      × (state ≢ some "scan_queued")
      × (state ≢ some "scanning")
      × (state ≢ some "rejected")
      × (state ≢ some "manual_review")
      × (state ≢ some "quarantined")
      × (state ≢ some "failed")

  is_blocked-IsFree : is_blocked state ≡ false → IsFree
  is_blocked-IsFree h = (
    barred "pending_upload" refl h,
    barred "uploaded" refl h,
    barred "scan_queued" refl h,
    barred "scanning" refl h,
    barred "rejected" refl h,
    barred "manual_review" refl h,
    barred "quarantined" refl h,
    barred "failed" refl h,
  )

  -- The policy allows an action in the workspace of the request.
  abbrev pub IsAllowed : PolicyAction → Type 0
  IsAllowed action =
      allowed (
        evaluate_policy parse now (record input.policy_input {
          action = action;
          scope = record input.policy_input.scope { workspace_id = input.workspace_id };
        }))
      ≡ true

  abbrev pub IsPermitted : TransferGrantOperation → Type 0
  IsPermitted upload = IsAllowed object_ingest
  IsPermitted download = IsAllowed blob_read × (input.target.downloadable ≡ true) × IsFree

  pub permitted :
      (o : TransferGrantOperation)
      → IsAllowed (action_of o)
      → is_available service parse now grant_id expires_at_of redact input o ≡ true
      → IsPermitted o
  permitted upload p h = p
  permitted download p h = (p, ground (arith, h), is_blocked-IsFree (ground (arith, h)))
