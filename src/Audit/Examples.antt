-- ===== src/Audit/Examples.antt =====
-- A chain of two events.
use trust_core.Common.{
  string_eq, number_eq, option_eq, String, ◌≡◌, refl, ◌↔◌, Bool, true, List, [], ◌∷◌, ◌++◌, map,
}
use Prim.Native.String.{◌++◌ as text_append}
use Prim.Native.String.{compare as text_compare}
use text.Mathlib.Text.{is_lt as text_is_lt}
use trust_core.Audit.{
  AuditEventBody, ChainedAuditEvent, append_audit_event, verify_audit_chain, verify_from,
  canonical_value, literal, string, object, array, field, no_field, item, no_item, system,
}
use trust_core.Audit.Chained.{
  appended, last_hash, verify_audit_chain_iff, verify_audit_chain-append_audit_event,
}

abbrev quote : String → String
quote s = text_append "'" (text_append s "'")

abbrev before : String → String → Bool
before s t = text_is_lt (text_compare s t)

-- In place of a digest.
abbrev digest : String → String
digest s = text_append "#" s

abbrev created : AuditEventBody
created = record {
  id = "event-1";
  workspace_id = "w-1";
  actor_type = system;
  actor_id = "worker";
  action = "revision.created";
  subject_kind = "resource";
  subject_id = "res-1";
  timestamp = "2026-01-01T00:00:00.000Z";
  request_id = "request-1";
  correlation_id = "correlation-1";
  metadata = object (field "revisionNumber" (literal "1") no_field);
}

abbrev deleted : AuditEventBody
deleted = record created { id = "event-2"; action = "resource.deleted_logically" }

abbrev chain : List ChainedAuditEvent
chain = appended quote before digest "" (created ∷ [])

verify_audit_chain_iff_example :
    (verify_audit_chain quote before digest chain ≡ true)
    ↔ (chain ≡ appended quote before digest "" (map (λ e. e.body) chain))
verify_audit_chain_iff_example = verify_audit_chain_iff quote before digest chain

verify_audit_chain-append_audit_event_example :
    verify_audit_chain quote before digest
      (chain ++ append_audit_event quote before digest deleted (last_hash "" chain) ∷ [])
    ≡ true
unfolding append_audit_event
verify_audit_chain-append_audit_event_example =
    verify_audit_chain-append_audit_event quote before digest chain deleted
      ((verify_audit_chain_iff quote before digest chain).1 refl)

-- The keys of an object are written in order.
test_sorted :
    canonical_value quote before (
      object (
        field "b"
          (array (item (literal "1") (item (literal "2") no_item)))
          (field "a" (string "x") no_field)))
    ≡ "{'a':'x','b':[1,2]}"
unfolding canonical_value trust_core.Audit.join trust_core.Audit.sorted
test_sorted = refl
