-- ===== src/Transfer/Service.antt =====
-- `TransferGrantService` of packages/operations/src/transfer-grants.ts. The instants, the id of the
-- grant and `redactSensitive` are arguments.
use trust_core.Common.{
  or_default, leb, if◌then◌else◌, ◌==◌, string_eq, number_eq, option_eq, is_blank, Result, ok, err,
  ℕ, String, Bool, true, not, ◌&&◌, Option, none, some,
}
use trust_core.Common.Effect.{require, M, ◌>>=◌, ◌>>◌, pure, throw}
use trust_core.Common.Time.{ℤ}
use trust_core.Storage.Memory.{max_safe_integer}
use trust_core.Policy.Evaluate.{
  PolicyEvaluationInput, PolicyDecision, evaluate_policy, denied, allowed_by_role,
  allowed_by_break_glass,
}
use trust_core.Transfer.{
  TransferGrantOperation, upload, download, Signed, Method, put, get, ClientTransferGrant,
  TransferSigner, GrantMetadata, refused, issued, GrantAudit, GrantError, missing_workspace,
  workspace_mismatch, invalid_object, not_downloadable, invalid_ttl, policy_denied, signer_failed,
  audit_failed, IssueTransferGrantInput, is_blocked, looks_like_client_key_injection, action_of,
  given_text, given_name, smaller,
}

pub record TransferGrantService (S : Type 0) : Type 0 where
  pub max_ttl_seconds : ℕ
  pub signer : TransferSigner S
  pub record_audit : GrantAudit → M S String (Unit {0})

-- The constructor.
pub new_transfer_grant_service :
    {S : Type 0} → TransferGrantService S → Option (TransferGrantService S)
new_transfer_grant_service service =
    if leb 1 service.max_ttl_seconds && leb service.max_ttl_seconds max_safe_integer
    then some service
    else none

-- A call that throws another error than the one that it met.
abbrev pub with_error : {S E F A : Type 0} → (E → F) → S × Result E A → S × Result F A
with_error wrap (s, ok a) = (s, ok a)
with_error wrap (s, err e) = (s, err (wrap e))

abbrev pub rethrow : {S E F A : Type 0} → (E → F) → M S E A → M S F A
rethrow wrap m s = with_error wrap (m s)

module _ {S : Type 0} (service : TransferGrantService S) (parse : String → Option ℤ)
    (now grant_id : String) (expires_at_of : (ttl_seconds : ℕ) → String) (redact : String → String)
    (input : IssueTransferGrantInput S) where
  abbrev pub policy_request : PolicyEvaluationInput
  policy_request = record input.policy_input {
    action = action_of input.operation;
    scope = record input.policy_input.scope { workspace_id = input.workspace_id };
  }

  abbrev pub audit_entry : GrantMetadata → GrantAudit
  audit_entry metadata = record {
    operation = input.operation;
    actor_id = input.actor_id;
    workspace_id = input.workspace_id;
    subject_id = input.target.object_id;
    request_id = input.request_id;
    correlation_id = input.correlation_id;
    metadata = metadata;
  }

  abbrev pub audited : GrantMetadata → M S GrantError (Unit {0})
  audited metadata = rethrow audit_failed (service.record_audit (audit_entry metadata))

  abbrev pub authorise_grant : PolicyDecision → M S GrantError (Unit {0})
  authorise_grant (denied reason) = do audited (refused reason); throw (policy_denied reason)
  authorise_grant (allowed_by_role id) = pure tt
  authorise_grant (allowed_by_break_glass id reason) = pure tt

  abbrev pub is_available : TransferGrantOperation → Bool
  is_available upload = true
  is_available download =
      input.target.downloadable && not (is_blocked input.target.quarantine_state)

  abbrev pub ttl_seconds : ℕ
  ttl_seconds = smaller input.requested_ttl_seconds service.max_ttl_seconds

  abbrev pub expires_at : String
  expires_at = expires_at_of ttl_seconds

  abbrev pub sign : TransferGrantOperation → M S String Signed
  sign upload =
      (or_default service.signer input.signer).sign_upload input.target.storage_key expires_at
        (given_text input.target.media_type) input.target.expected_byte_length
  sign download =
      (or_default service.signer input.signer).sign_download input.target.storage_key expires_at
        (given_name input.file_name)

  abbrev pub method_of : TransferGrantOperation → Method
  method_of upload = put
  method_of download = get

  abbrev pub grant_of : Signed → ClientTransferGrant
  grant_of transfer = record {
    grant_id = grant_id;
    operation = input.operation;
    object_id = input.target.object_id;
    workspace_id = input.workspace_id;
    expires_at = expires_at;
    method = method_of input.operation;
    transfer = transfer;
  }

  -- What follows the checks.
  unfoldable pub sign_and_audit : M S GrantError ClientTransferGrant
  sign_and_audit = do
    transfer ← rethrow (λ e. signer_failed (redact e)) (sign input.operation)
    audited (issued grant_id ttl_seconds expires_at)
    pure (grant_of transfer)

  unfoldable pub issue : M S GrantError ClientTransferGrant
  issue = do
    require (not (is_blank input.workspace_id)) missing_workspace
    require (input.target.workspace_id == input.workspace_id) workspace_mismatch
    require (not (looks_like_client_key_injection input.target.object_id)) invalid_object
    authorise_grant (evaluate_policy parse now policy_request)
    require (is_available input.operation) not_downloadable
    require (leb 1 input.requested_ttl_seconds) invalid_ttl
    sign_and_audit
