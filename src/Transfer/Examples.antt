-- ===== src/Transfer/Examples.antt =====
-- A grant for a download, and the name of a file.
use trust_core.Common.{
  contains, nat_eq, if◌then◌else◌, string_eq, number_eq, option_eq, length, all, codes, is_blank,
  Result, ok, ℕ, ◌≤◌, String, ◌≡◌, refl, true, Option, none, some, List, [], ◌∷◌,
}
use trust_core.Common.Time.{ℤ}
use trust_core.Policy.Actions.{blob_read}
use trust_core.Policy.Roles.{capabilities_for_role, parse_role, role_name, role_capabilities}
use trust_core.Policy.Evaluate.{
  PolicyEvaluationInput, evaluate_policy, user, first_grant, claimed_role_assignments,
  assignment_matches, scope_covers,
}
use trust_core.Transfer.{
  GrantError, Signed, GrantAudit, IssueTransferGrantInput, ClientTransferGrant, download, get,
  looks_like_client_key_injection, sanitize_file_name, is_name_char,
}
use trust_core.Transfer.Service.{TransferGrantService, issue, sign_and_audit}
use trust_core.Transfer.Permitted.{IsPermitted}
use trust_core.Transfer.Issued.{IsSigned, issue-IsSigned}
use trust_core.Transfer.Names.{sanitize_file_name-safe}

abbrev signed : Signed
signed = record { url = "https://transfer.example/1"; headers = [] }

abbrev service : TransferGrantService (List GrantAudit)
service = record {
  max_ttl_seconds = 900;
  signer = record {
    sign_upload = λ key at mt n s. (s, ok signed);
    sign_download = λ key at name s. (s, ok signed);
  };
  record_audit = λ entry s. (entry ∷ s, ok tt);
}

abbrev no_dates : String → Option ℤ
no_dates text = none

abbrev now : String
now = "2026-01-01T00:00:00Z"

abbrev owned : PolicyEvaluationInput
owned = record {
  principal = record {
    id = "user-1";
    principal_type = user;
    roles = "owner" ∷ [];
    workspace_ids = "w-1" ∷ [];
  };
  action = blob_read;
  scope = record { workspace_id = "w-1"; dataset_id = none; application_id = none };
  assignments = [];
  applications = [];
  break_glass_grants = [];
  at = none;
}

abbrev input : IssueTransferGrantInput (List GrantAudit)
input = record {
  actor_id = "user-1";
  workspace_id = "w-1";
  operation = download;
  target = record {
    workspace_id = "w-1";
    object_id = "asset-1";
    storage_key = "workspaces/w-1/objects/aa/a";
    media_type = none;
    expected_byte_length = none;
    downloadable = true;
    quarantine_state = some "promoted";
  };
  requested_ttl_seconds = 3600;
  request_id = "request-1";
  correlation_id = "correlation-1";
  file_name = none;
  signer = none;
  policy_input = owned;
}

abbrev expiry : ℕ → String
expiry ttl = if nat_eq ttl 900 then "2026-01-01T00:15:00Z" else "later"

abbrev run : List GrantAudit × Result GrantError ClientTransferGrant
run = issue service no_dates now "grant-1" expiry (λ e. e) input []

abbrev grant : ClientTransferGrant
grant = record {
  grant_id = "grant-1";
  operation = download;
  object_id = "asset-1";
  workspace_id = "w-1";
  expires_at = "2026-01-01T00:15:00Z";
  method = get;
  transfer = signed;
}

run_issues : run ≡ (run.0, ok grant)
unfolding issue sign_and_audit looks_like_client_key_injection is_blank contains evaluate_policy
    first_grant claimed_role_assignments assignment_matches scope_covers capabilities_for_role
    parse_role role_name role_capabilities
run_issues = refl

issue-IsSigned_example :
    (input.target.workspace_id ≡ input.workspace_id)
    × IsPermitted service no_dates now "grant-1" expiry (λ e. e) input download
    × (1 ≤ 3600)
    × IsSigned service no_dates now "grant-1" expiry (λ e. e) input [] run.0 grant
issue-IsSigned_example =
    issue-IsSigned service no_dates now "grant-1" expiry (λ e. e) input [] run.0 grant run_issues

-- A name with a quote and a line end.
abbrev broken_name : List ℕ
broken_name = codes "plan\"\r\n.pdf"

test_sanitized : sanitize_file_name broken_name ≡ codes "plan_.pdf"
unfolding sanitize_file_name is_name_char
test_sanitized = refl

sanitize_file_name-safe_example :
    (all is_name_char (sanitize_file_name broken_name) ≡ true)
    × (length (sanitize_file_name broken_name) ≤ 180)
    × (sanitize_file_name (sanitize_file_name broken_name) ≡ sanitize_file_name broken_name)
sanitize_file_name-safe_example = sanitize_file_name-safe broken_name
