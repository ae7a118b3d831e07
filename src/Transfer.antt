-- ===== src/Transfer.antt =====
-- packages/operations/src/transfer-grants.ts. The signer and the audit sink, which throw texts, work on
-- the state `S`. The instants and the id that a grant draws are arguments, and a TTL is a whole number.
-- A name of a file is its list of code points.
pub mod Service
pub mod Permitted
pub mod Issued
pub mod Names
mod Examples
use trust_core.Common.{
  codes-inj, is_hex_text-all, codes-append, after_prefix-append, after_prefix, starts_with,
  contains, is_truthy, ltb, leb, nat_eq, if◌then◌else◌, nat_eq_iff, Bool-cases, Option-cases, Eq,
  ◌==◌, eq_iff, string_eq, number_eq, option_beq, option_beq_iff, option_eq, discrete_beq,
  discrete_beq_iff, discrete_eq, length, length-append, any, all, find, keep, find-keep,
  find-append, find-Any, Any-find, find-Mem, Any-map, All, Any, includes, codes, is_space, is_blank,
  is_empty, is_hex, is_hex_text, Result, ok, err, throw_if, Result-cases, >>=-eq-ok, Dict, lookup,
  insert, delete, values, lookup-insert, lookup-delete, lookup-insert_self, ℕ, zero, suc, ◌+◌, ◌-◌,
  ◌*◌, ◌/◌, ◌%◌, ◌^◌, ◌≤◌, ◌<◌, String, ◌≡◌, refl, sym, ap, ◌∙◌, ◌≢◌, ◌↔◌, ◌⊎◌, inl, inr, Bool,
  true, false, not, ◌&&◌, ◌||◌, Option, none, some, List, [], ◌∷◌, ◌++◌, map, arith,
}
use trust_core.Common.Effect.{
  require, found, run-cases, M, continue, ◌>>=◌, ◌>>◌, pure, throw, lift, modify, read,
}
use trust_core.Common.Time.{ℤ}
use trust_core.Policy.Actions.{PolicyAction, object_ingest, blob_read}
use trust_core.Policy.Evaluate.{
  PolicyEvaluationInput, PolicyScope, PolicyDecision, DenialReason, evaluate_policy, denied,
  allowed_by_role, allowed_by_break_glass,
}

pub data TransferGrantOperation : Type 0 where
  upload download : TransferGrantOperation

pub record TransferTarget : Type 0 where
  pub workspace_id : String
  pub object_id : String
  pub storage_key : String
  pub media_type : Option String
  pub expected_byte_length : Option ℕ
  pub downloadable : Bool
  pub quarantine_state : Option String

pub record Signed : Type 0 where
  pub url : String
  pub headers : Dict String

pub data Method : Type 0 where
  put get : Method

pub record ClientTransferGrant : Type 0 where
  pub grant_id : String
  pub operation : TransferGrantOperation
  pub object_id : String
  pub workspace_id : String
  pub expires_at : String
  pub method : Method
  pub transfer : Signed

pub record TransferSigner (S : Type 0) : Type 0 where
  pub sign_upload :
      (storage_key expires_at : String) (media_type : Option String)
      (expected_byte_length : Option ℕ)
      → M S String Signed
  pub sign_download :
      (storage_key expires_at : String) (file_name : Option (List ℕ)) → M S String Signed

-- `metadata`.
pub data GrantMetadata : Type 0 where
  refused : DenialReason → GrantMetadata
  issued : (grant_id : String) (ttl_seconds : ℕ) (expires_at : String) → GrantMetadata

pub record GrantAudit : Type 0 where
  pub operation : TransferGrantOperation
  pub actor_id : String
  pub workspace_id : String
  pub subject_id : String
  pub request_id : String
  pub correlation_id : String
  pub metadata : GrantMetadata

pub data GrantError : Type 0 where
  missing_workspace workspace_mismatch invalid_object not_downloadable invalid_ttl : GrantError
  policy_denied : DenialReason → GrantError
  signer_failed audit_failed : String → GrantError

pub record IssueTransferGrantInput (S : Type 0) : Type 0 where
  pub actor_id : String
  pub workspace_id : String
  pub operation : TransferGrantOperation
  pub target : TransferTarget
  pub requested_ttl_seconds : ℕ
  pub request_id : String
  pub correlation_id : String
  pub file_name : Option (List ℕ)
  pub signer : Option (TransferSigner S)
  pub policy_input : PolicyEvaluationInput

abbrev pub blocked_download_states : List String
blocked_download_states =
    "pending_upload" ∷ "uploaded" ∷ "scan_queued" ∷ "scanning" ∷ "rejected" ∷ "manual_review"
    ∷ "quarantined" ∷ "failed" ∷ []

abbrev pub is_blocked : Option String → Bool
is_blocked none = false
is_blocked (some s) = not (is_empty s) && includes blocked_download_states s

-- `toLowerCase`, as far as it gives a letter of ASCII: the Kelvin sign is one of those.
abbrev pub lower : ℕ → ℕ
lower c = if leb b'A' c && leb c b'Z' then c + 32 else if nat_eq c 0x212A then b'k' else c

pub looks_like_client_key_injection : String → Bool
unfolding contains
looks_like_client_key_injection id =
    contains (codes "/") (codes id)
    || contains (codes "workspaces/") (map lower (codes id))
    || contains (codes "..") (codes id)

-- [\w.\- ()[\]]
pub is_name_char : ℕ → Bool
is_name_char c =
    (leb b'A' c && leb c b'Z')
    || (leb b'a' c && leb c b'z')
    || (leb b'0' c && leb c b'9')
    || includes (b'_' ∷ b'.' ∷ b'-' ∷ b' ' ∷ b'(' ∷ b')' ∷ b'[' ∷ b']' ∷ []) c

-- Whether the text starts with a run of other characters, and the text with its runs replaced.
abbrev pub add_char : ℕ → Bool × List ℕ → Bool × List ℕ
add_char c (in_run, out) =
    if is_name_char c then (false, c ∷ out) else (true, if in_run then out else b'_' ∷ out)

abbrev pub replace_runs : List ℕ → Bool × List ℕ
replace_runs [] = (false, [])
replace_runs (c ∷ cs) = add_char c (replace_runs cs)

-- `slice(0, n)`.
abbrev pub first_of : ℕ → List ℕ → List ℕ
first_of zero cs = []
first_of (suc n) [] = []
first_of (suc n) (c ∷ cs) = c ∷ first_of n cs

pub sanitize_file_name : List ℕ → List ℕ
sanitize_file_name name = first_of 180 (replace_runs name).1

abbrev pub action_of : TransferGrantOperation → PolicyAction
action_of upload = object_ingest
action_of download = blob_read

abbrev pub given_text : Option String → Option String
given_text text = if is_truthy text then text else none

abbrev pub given_name : Option (List ℕ) → Option (List ℕ)
given_name none = none
given_name (some []) = none
given_name (some (c ∷ cs)) = some (sanitize_file_name (c ∷ cs))

abbrev pub smaller : ℕ → ℕ → ℕ
smaller a b = if leb a b then a else b
