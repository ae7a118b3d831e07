-- ===== src/Policy/Roles/Examples.antt =====
-- Roles at concrete names and actions.
use trust_core.Common.{string_eq, number_eq, option_eq, includes, String, ◌≡◌, refl, false}
use trust_core.Policy.Actions.{
  policy_action_eq, dataset_read, operation_process, action_boundary, content, revision_create,
  action_name, is_break_glass_eligible_action,
}
use trust_core.Policy.Roles.{capabilities_for_role, parse_role, role_name, role_capabilities}
use trust_core.Policy.Roles.Privileges.{
  process_is_worker, owner_and_admin, infrastructure_no_content, break_glass_is_content,
}

abbrev worker_name : String
worker_name = "worker"

test_worker : worker_name ≡ "worker"
unfolding capabilities_for_role parse_role role_name role_capabilities
test_worker = process_is_worker worker_name refl

test_owner_and_admin :
    (includes (capabilities_for_role "owner") operation_process ≡ false)
    × (includes (capabilities_for_role "admin") operation_process ≡ false)
test_owner_and_admin = owner_and_admin operation_process

test_infrastructure :
    (includes (capabilities_for_role "worker") revision_create ≡ false)
    × (includes (capabilities_for_role "infrastructure_operator") revision_create ≡ false)
unfolding action_boundary
test_infrastructure = infrastructure_no_content revision_create refl

test_break_glass : action_boundary dataset_read ≡ content
unfolding is_break_glass_eligible_action action_name
test_break_glass = break_glass_is_content dataset_read refl

-- A name that is no role has no action.
test_unknown : includes (capabilities_for_role "superuser") dataset_read ≡ false
unfolding capabilities_for_role parse_role role_name
test_unknown = refl
