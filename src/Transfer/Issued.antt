-- ===== src/Transfer/Issued.antt =====
-- What `issue` of packages/operations/src/transfer-grants.ts has checked when it returns a grant.
use trust_core.Common.{
  leb, ◌==◌, eq_iff, string_eq, number_eq, option_eq, is_blank, Bool-cases, or_default, Result, ok,
  err, ℕ, ◌≤◌, String, ◌≡◌, refl, sym, ap, ◌∙◌, ◌⊎◌, inl, inr, Bool, true, false, not, Option,
  arith,
}
use mathlib.Core.Path.{subst}
use trust_core.Common.Effect.{require, run-cases, M, ◌>>◌}
use trust_core.Common.Effect.{bind-returned, require-returned}
use trust_core.Common.Time.{ℤ}
use trust_core.Transfer.Permitted.{IsPermitted, permitted}
use trust_core.Policy.Evaluate.{
  PolicyDecision, evaluate_policy, allowed, denied, allowed_by_role, allowed_by_break_glass,
}
use trust_core.Transfer.{
  upload, download, TransferGrantOperation, refused, smaller, ClientTransferGrant, GrantError,
  missing_workspace, workspace_mismatch, invalid_object, not_downloadable, invalid_ttl,
  IssueTransferGrantInput, looks_like_client_key_injection, issued, Signed, signer_failed,
  audit_failed, put, get, given_text, given_name,
}
use trust_core.Transfer.Service.{
  TransferGrantService, issue, sign_and_audit, policy_request, authorise_grant, is_available,
  audit_entry, audited, rethrow, with_error, sign, grant_of, method_of,
}

rethrow-returned :
    {S E F A : Type 0} (wrap : E → F) (m : M S E A) (s s' : S) (a : A)
    → rethrow wrap m s ≡ (s', ok a)
    → m s ≡ (s', ok a)
rethrow-returned {S} {E} {F} {A} wrap m s s' a h = go (m s) h
  where
    go : (out : S × Result E A) → with_error wrap out ≡ (s', ok a) → out ≡ (s', ok a)
    go (t, ok b) e = ground (arith, e)
    go (t, err x) e = cc

guard-passed :
    {S E B : Type 0} (test : Bool) (e : E) (n : M S E B) (s s' : S) (b : B)
    → (require test e >> n) s ≡ (s', ok b)
    → test ≡ true
guard-passed true e n s s' b h = refl
guard-passed false e n s s' b h = cc

module _ {S : Type 0} (service : TransferGrantService S) (parse : String → Option ℤ)
    (now grant_id : String) (expires_at_of : (ttl_seconds : ℕ) → String) (redact : String → String)
    (input : IssueTransferGrantInput S) where
  authorised :
      (d : PolicyDecision) (n : M S GrantError ClientTransferGrant) (s s' : S)
      (g : ClientTransferGrant)
      → (authorise_grant service parse now grant_id expires_at_of redact input d >> n) s
        ≡ (s', ok g)
      → (allowed d ≡ true) × (n s ≡ (s', ok g))
  authorised (allowed_by_role id) n s s' g h = (refl, h)
  authorised (allowed_by_break_glass id reason) n s s' g h = (refl, h)
  authorised (denied reason) n s s' g h =
      elim (run-cases
        (audited service parse now grant_id expires_at_of redact input (refused reason)) s) [
          | inl (t, a, recorded) ↦ ground (arith, recorded, h)
          | inr (t, e, threw) ↦ ground (arith, threw, h)
        ]

  -- The smaller of the requested and the largest TTL.
  abbrev pub IsClamped : ℕ → Type 0
  IsClamped ttl =
      (ttl ≤ input.requested_ttl_seconds)
      × (ttl ≤ service.max_ttl_seconds)
      × ((ttl ≡ input.requested_ttl_seconds) ⊎ (ttl ≡ service.max_ttl_seconds))

  smaller-IsClamped : IsClamped (smaller input.requested_ttl_seconds service.max_ttl_seconds)
  smaller-IsClamped = elim (Bool-cases (leb input.requested_ttl_seconds service.max_ttl_seconds)) [
    | inl least ↦ (ground (arith, least), ground (arith, least), inl (ground (arith, least)))
    | inr above ↦ (ground (arith, above), ground (arith, above), inr (ground (arith, above)))
  ]

  -- The call of the signer, and the method of the transfer.
  abbrev pub IsTransfer : TransferGrantOperation → S → S → ClientTransferGrant → Type 0
  IsTransfer upload s t g =
      ((or_default service.signer input.signer).sign_upload input.target.storage_key g.expires_at
          (given_text input.target.media_type) input.target.expected_byte_length s
        ≡ (t, ok g.transfer))
      × (g.method ≡ put)
  IsTransfer download s t g =
      ((or_default service.signer input.signer).sign_download input.target.storage_key g.expires_at
          (given_name input.file_name) s
        ≡ (t, ok g.transfer))
      × (g.method ≡ get)

  -- The grant is of the requested object, was signed in one call with its own expiry, and audited
  -- in the last one.
  abbrev pub IsSigned : S → S → ClientTransferGrant → Type 0
  IsSigned s s' g =
      (g.grant_id ≡ grant_id)
      × (g.operation ≡ input.operation)
      × (g.object_id ≡ input.target.object_id)
      × (g.workspace_id ≡ input.workspace_id)
      × ((ttl : ℕ) × (t : S) × IsClamped ttl
          × (g.expires_at ≡ expires_at_of ttl)
          × IsTransfer input.operation s t g
          × (service.record_audit
                (record {
                  operation = input.operation;
                  actor_id = input.actor_id;
                  workspace_id = input.workspace_id;
                  subject_id = input.target.object_id;
                  request_id = input.request_id;
                  correlation_id = input.correlation_id;
                  metadata = issued grant_id ttl g.expires_at;
                })
                t
              ≡ (s', ok tt)))

  -- The transfer of the grant that a service makes for an operation.
  transferred :
      (o : TransferGrantOperation) (s t : S) (transfer : Signed)
      → sign service parse now grant_id expires_at_of redact input o s ≡ (t, ok transfer)
      → IsTransfer o s t
          (record (grant_of service parse now grant_id expires_at_of redact input transfer) {
            method = method_of service parse now grant_id expires_at_of redact input o;
          })
  transferred upload s t transfer h = (h, refl)
  transferred download s t transfer h = (h, refl)

  sign_and_audit-IsSigned :
      (s s' : S) (g : ClientTransferGrant)
      → sign_and_audit service parse now grant_id expires_at_of redact input s ≡ (s', ok g)
      → IsSigned s s' g
  unfolding sign_and_audit
  sign_and_audit-IsSigned s s' g h =
      let wrap : String → GrantError = λ e. signer_failed (redact e) in
      let signing = sign service parse now grant_id expires_at_of redact input input.operation in
      let (t, transfer, h₁, n₁) = bind-returned (rethrow wrap signing) _ s s' g h in
      let made = grant_of service parse now grant_id expires_at_of redact input transfer in
      let ttl = smaller input.requested_ttl_seconds service.max_ttl_seconds in
      let entry =
        audit_entry service parse now grant_id expires_at_of redact input
          (issued grant_id ttl made.expires_at) in
      let (u, a, h₂, n₂) =
        bind-returned (rethrow audit_failed (service.record_audit entry)) _ t s' g n₁ in
      let same : g ≡ made = ground (arith, n₂) in
      let last : u ≡ s' = ground (arith, n₂) in
      let recorded = rethrow-returned audit_failed (service.record_audit entry) t u a h₂ in
      subst (IsSigned s s') (sym same) (
        refl,
        refl,
        refl,
        refl,
        (
          ttl,
          t,
          smaller-IsClamped,
          refl,
          transferred input.operation s t transfer (rethrow-returned wrap signing s t transfer h₁),
          recorded ∙ ap (λ x. (x, ok tt)) last,
        ),
      )

  -- When a grant is issued, the target is of the workspace of the request; the policy allows the
  -- ingest (for an upload) or the read of the blob (for a download) in that workspace; a target to
  -- be downloaded is downloadable and in none of the eight blocked quarantine states; the requested
  -- TTL is positive; and the grant names the requested object, expires by the smaller of the
  -- requested and the largest TTL, was signed for the storage key in one call with that expiry, and
  -- was audited with its id, that TTL and that expiry in the last call.
  pub issue-IsSigned :
      (s s' : S) (g : ClientTransferGrant)
      → issue service parse now grant_id expires_at_of redact input s ≡ (s', ok g)
      → (input.target.workspace_id ≡ input.workspace_id)
        × IsPermitted service parse now grant_id expires_at_of redact input input.operation
        × (1 ≤ input.requested_ttl_seconds)
        × IsSigned s s' g
  unfolding issue
  issue-IsSigned s s' g h =
      let spaced =
        require-returned (not (is_blank input.workspace_id)) missing_workspace _ s s' g h in
      let same_test = input.target.workspace_id == input.workspace_id in
      let same = guard-passed same_test workspace_mismatch _ s s' g spaced in
      let named = require-returned same_test workspace_mismatch _ s s' g spaced in
      let name_test = not (looks_like_client_key_injection input.target.object_id) in
      let decided = require-returned name_test invalid_object _ s s' g named in
      let request = policy_request service parse now grant_id expires_at_of redact input in
      let (is_allowed, checked) = authorised (evaluate_policy parse now request) _ s s' g decided in
      let open_test =
        is_available service parse now grant_id expires_at_of redact input input.operation in
      let open_to = guard-passed open_test not_downloadable _ s s' g checked in
      let timed = require-returned open_test not_downloadable _ s s' g checked in
      let positive = guard-passed (leb 1 input.requested_ttl_seconds) invalid_ttl _ s s' g timed in
      let signs = require-returned (leb 1 input.requested_ttl_seconds) invalid_ttl _ s s' g timed in
      (
        (eq_iff input.target.workspace_id input.workspace_id).0 same,
        permitted service parse now grant_id expires_at_of redact input input.operation is_allowed
            open_to,
        ground (arith, positive),
        sign_and_audit-IsSigned s s' g signs,
      )
