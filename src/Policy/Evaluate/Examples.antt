-- ===== src/Policy/Evaluate/Examples.antt =====
-- Decisions on concrete requests.
use mathlib.Core.List.{Memᴰ}
use trust_core.Common.{
  if◌then◌else◌, ◌==◌, string_eq, number_eq, option_eq, is_blank, String, ◌≡◌, refl, ◌↔◌, true,
  Option, none, some, [], ◌∷◌,
}
use trust_core.Common.Time.{ℤ, pos}
use trust_core.Policy.Actions.{
  dataset_read, action_boundary, content, action_name, is_break_glass_eligible_action,
}
use trust_core.Policy.Evaluate.{
  PolicyPrincipal, ScopedPolicyAssignment, ActiveBreakGlassGrant, PolicyEvaluationInput, user,
  workspace_scope, evaluate_policy, allowed, first_grant, claimed_role_assignments,
  assignment_matches, active_break_glass_grant, denied, no_matching_assignment,
}
use trust_core.Policy.Evaluate.Spec.{evaluate_policy_iff, IsOpen, IsCleared, IsGranted}
use trust_core.Policy.Evaluate.Isolation.{
  own_workspace, evaluate_policy-own_workspace, evaluate_policy-break_glass,
}

-- The instants of the texts below.
abbrev date_parse : String → Option ℤ
date_parse text =
    if text == "2026-01-01T00:00:00Z"
    then some (pos 1767225600000)
    else if text == "2026-01-01T01:00:00Z"
    then some (pos 1767229200000)
    else none

abbrev now : String
now = "2026-01-01T00:00:00Z"

abbrev auditor : PolicyPrincipal
auditor = record { id = "user-1"; principal_type = user; roles = []; workspace_ids = "w-1" ∷ [] }

abbrev foreign_owner : ScopedPolicyAssignment
foreign_owner = record {
  id = "assignment-1";
  workspace_id = "w-2";
  principal_type = user;
  principal_id = "user-1";
  role = "owner";
  scope_kind = workspace_scope;
  scope_id = "w-2";
  revoked_at = none;
}

abbrev emergency : ActiveBreakGlassGrant
emergency = record {
  id = "grant-1";
  workspace_id = "w-1";
  principal_id = "user-1";
  reason = "incident 7";
  actions = "dataset:read" ∷ [];
  granted_at = "2026-01-01T00:00:00Z";
  expires_at = "2026-01-01T01:00:00Z";
  revoked_at = none;
}

-- An owner of another workspace asks, in an emergency.
abbrev request : PolicyEvaluationInput
request = record {
  principal = auditor;
  action = dataset_read;
  scope = record { workspace_id = "w-1"; dataset_id = some "d-1"; application_id = none };
  assignments = foreign_owner ∷ [];
  applications = [];
  break_glass_grants = emergency ∷ [];
  at = none;
}

evaluate_policy_iff_example :
    (allowed (evaluate_policy date_parse now request) ≡ true)
    ↔ (IsCleared date_parse now request × IsGranted date_parse now request)
evaluate_policy_iff_example = evaluate_policy_iff date_parse now request

evaluate_policy-own_workspace_example :
    evaluate_policy date_parse now (own_workspace request) ≡ evaluate_policy date_parse now request
evaluate_policy-own_workspace_example = evaluate_policy-own_workspace request date_parse now

evaluate_policy-break_glass_example :
    (first_grant request (foreign_owner ∷ claimed_role_assignments request) ≡ none)
    × (action_boundary dataset_read ≡ content)
    × ((g : ActiveBreakGlassGrant) × Memᴰ g request.break_glass_grants
        × IsOpen date_parse now request g
        × (g.id ≡ "grant-1")
        × (g.reason ≡ "incident 7"))
unfolding is_blank evaluate_policy first_grant assignment_matches claimed_role_assignments
    active_break_glass_grant is_break_glass_eligible_action action_name
evaluate_policy-break_glass_example =
    evaluate_policy-break_glass request date_parse now "grant-1" "incident 7" refl

-- A grant has ended at the very instant of its end.
test_ended :
    evaluate_policy date_parse "2026-01-01T01:00:00Z" request ≡ denied no_matching_assignment
unfolding is_blank evaluate_policy first_grant assignment_matches claimed_role_assignments
    active_break_glass_grant is_break_glass_eligible_action action_name
test_ended = refl
