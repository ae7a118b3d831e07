-- ===== src/Policy/Roles.antt =====
-- The roles of packages/policy/src/index.ts and what each may do.
pub mod Privileges
mod Examples
use trust_core.Common.{
  if◌then◌else◌, ◌==◌, string_eq, number_eq, option_eq, find, String, Option, none, some, List, [],
  ◌∷◌,
}
use trust_core.Policy.Actions.{
  PolicyAction, policy_actions, policy_action_eq, workspace_read, workspace_manage, control_read,
  dataset_read, dataset_write, dataset_manage, resource_read, revision_create, resource_delete,
  resource_restore, blob_read, object_ingest, relation_read, relation_write, history_read,
  audit_read, verification_run, retention_manage, purge_execute, access_manage, break_glass_grant,
  break_glass_revoke, health_read, storage_probe_ingest, storage_manage, operation_process,
  portability_read, portability_export, portability_plan, portability_execute,
}

pub data PolicyRole : Type 0 where
  owner admin editor recovery_operator auditor worker infrastructure_operator : PolicyRole

unfoldable pub role_name : PolicyRole → String
role_name owner = "owner"
role_name admin = "admin"
role_name editor = "editor"
role_name recovery_operator = "recovery_operator"
role_name auditor = "auditor"
role_name worker = "worker"
role_name infrastructure_operator = "infrastructure_operator"

abbrev pub policy_roles : List PolicyRole
policy_roles =
    owner ∷ admin ∷ editor ∷ recovery_operator ∷ auditor ∷ worker ∷ infrastructure_operator ∷ []

-- `isPolicyRole`, with the role that the string is.
unfoldable pub parse_role : String → Option PolicyRole
unfolding role_name
parse_role value = find (λ r. role_name r == value) policy_roles

abbrev but_process : List PolicyAction → List PolicyAction
but_process [] = []
but_process (a ∷ rest) = if a == operation_process then but_process rest else a ∷ but_process rest

unfoldable pub role_capabilities : PolicyRole → List PolicyAction
role_capabilities owner = but_process policy_actions
role_capabilities admin =
    workspace_read ∷ workspace_manage ∷ control_read ∷ dataset_read ∷ dataset_write ∷ dataset_manage
    ∷ resource_read ∷ revision_create ∷ resource_delete ∷ resource_restore ∷ blob_read
    ∷ object_ingest ∷ relation_read ∷ relation_write ∷ history_read ∷ audit_read ∷ verification_run
    ∷ retention_manage ∷ purge_execute ∷ access_manage ∷ break_glass_grant ∷ break_glass_revoke
    ∷ health_read ∷ storage_probe_ingest ∷ storage_manage ∷ portability_read ∷ portability_export
    ∷ portability_plan ∷ portability_execute ∷ []
role_capabilities editor =
    dataset_read ∷ dataset_write ∷ resource_read ∷ revision_create ∷ blob_read ∷ object_ingest
    ∷ relation_read ∷ relation_write ∷ []
role_capabilities recovery_operator =
    dataset_read ∷ resource_read ∷ resource_restore ∷ history_read ∷ portability_read
    ∷ portability_plan ∷ portability_execute ∷ []
role_capabilities auditor =
    workspace_read ∷ control_read ∷ dataset_read ∷ resource_read ∷ blob_read ∷ relation_read
    ∷ history_read ∷ audit_read ∷ verification_run ∷ health_read ∷ portability_read ∷ []
role_capabilities worker = health_read ∷ operation_process ∷ []
role_capabilities infrastructure_operator =
    workspace_read ∷ control_read ∷ audit_read ∷ verification_run ∷ health_read ∷ portability_read
    ∷ []

abbrev pub capabilities_of : Option PolicyRole → List PolicyAction
capabilities_of none = []
capabilities_of (some r) = role_capabilities r

unfoldable pub capabilities_for_role : String → List PolicyAction
unfolding role_capabilities
capabilities_for_role role = capabilities_of (parse_role role)
