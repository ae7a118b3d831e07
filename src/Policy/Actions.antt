-- ===== src/Policy/Actions.antt =====
-- The actions of packages/policy/src/index.ts, their names and their boundaries.
use trust_core.Common.{
  Eq, ◌==◌, string_eq, number_eq, option_eq, discrete_eq, any, find, String, ◌≡◌, refl, Bool, ◌&&◌,
  Option, some, List, [], ◌∷◌,
}

pub data PolicyAction : Type 0 where
  workspace_read workspace_manage control_read dataset_read : PolicyAction
  dataset_write dataset_manage resource_read revision_create : PolicyAction
  resource_delete resource_restore blob_read object_ingest : PolicyAction
  relation_read relation_write history_read audit_read : PolicyAction
  verification_run retention_manage purge_execute access_manage : PolicyAction
  break_glass_grant break_glass_revoke break_glass_use health_read : PolicyAction
  storage_probe_ingest storage_manage operation_process portability_read : PolicyAction
  portability_export portability_plan portability_execute : PolicyAction

abbrev pub PolicyAction-discrete : Discrete PolicyAction
PolicyAction-discrete = hlevel

instance abbrev pub policy_action_eq : Eq PolicyAction
policy_action_eq = discrete_eq PolicyAction-discrete

-- An action is the string that it is written as.
unfoldable pub action_name : PolicyAction → String
action_name workspace_read = "workspace:read"
action_name workspace_manage = "workspace:manage"
action_name control_read = "control:read"
action_name dataset_read = "dataset:read"
action_name dataset_write = "dataset:write"
action_name dataset_manage = "dataset:manage"
action_name resource_read = "resource:read"
action_name revision_create = "revision:create"
action_name resource_delete = "resource:delete"
action_name resource_restore = "resource:restore"
action_name blob_read = "blob:read"
action_name object_ingest = "object:ingest"
action_name relation_read = "relation:read"
action_name relation_write = "relation:write"
action_name history_read = "history:read"
action_name audit_read = "audit:read"
action_name verification_run = "verification:run"
action_name retention_manage = "retention:manage"
action_name purge_execute = "purge:execute"
action_name access_manage = "access:manage"
action_name break_glass_grant = "break_glass:grant"
action_name break_glass_revoke = "break_glass:revoke"
action_name break_glass_use = "break_glass:use"
action_name health_read = "health:read"
action_name storage_probe_ingest = "storage:probe_ingest"
action_name storage_manage = "storage:manage"
action_name operation_process = "operation:process"
action_name portability_read = "portability:read"
action_name portability_export = "portability:export"
action_name portability_plan = "portability:plan"
action_name portability_execute = "portability:execute"

abbrev pub policy_actions : List PolicyAction
policy_actions =
    workspace_read ∷ workspace_manage ∷ control_read ∷ dataset_read ∷ dataset_write ∷ dataset_manage
    ∷ resource_read ∷ revision_create ∷ resource_delete ∷ resource_restore ∷ blob_read
    ∷ object_ingest ∷ relation_read ∷ relation_write ∷ history_read ∷ audit_read ∷ verification_run
    ∷ retention_manage ∷ purge_execute ∷ access_manage ∷ break_glass_grant ∷ break_glass_revoke
    ∷ break_glass_use ∷ health_read ∷ storage_probe_ingest ∷ storage_manage ∷ operation_process
    ∷ portability_read ∷ portability_export ∷ portability_plan ∷ portability_execute ∷ []

-- The action that a string is, if it is one.
pub parse_action : String → Option PolicyAction
unfolding action_name
parse_action value = find (λ a. action_name a == value) policy_actions

-- `isPolicyAction`.
pub is_policy_action : String → Bool
unfolding action_name
is_policy_action value = any (λ a. action_name a == value) policy_actions

abbrev pub break_glass_eligible_actions : List PolicyAction
break_glass_eligible_actions =
    dataset_read ∷ resource_read ∷ resource_restore ∷ blob_read ∷ history_read ∷ []

-- `isBreakGlassEligibleAction`.
unfoldable pub is_break_glass_eligible_action : String → Bool
unfolding is_policy_action
is_break_glass_eligible_action value =
    is_policy_action value && any (λ a. action_name a == value) break_glass_eligible_actions

pub data ActionBoundary : Type 0 where
  content infrastructure security : ActionBoundary

unfoldable pub action_boundary : PolicyAction → ActionBoundary
action_boundary dataset_read = content
action_boundary dataset_write = content
action_boundary dataset_manage = content
action_boundary resource_read = content
action_boundary revision_create = content
action_boundary resource_delete = content
action_boundary resource_restore = content
action_boundary blob_read = content
action_boundary object_ingest = content
action_boundary relation_read = content
action_boundary relation_write = content
action_boundary history_read = content
action_boundary retention_manage = content
action_boundary purge_execute = content
action_boundary workspace_read = infrastructure
action_boundary control_read = infrastructure
action_boundary audit_read = infrastructure
action_boundary verification_run = infrastructure
action_boundary health_read = infrastructure
action_boundary storage_probe_ingest = infrastructure
action_boundary storage_manage = infrastructure
action_boundary operation_process = infrastructure
action_boundary portability_read = infrastructure
action_boundary workspace_manage = security
action_boundary access_manage = security
action_boundary break_glass_grant = security
action_boundary break_glass_revoke = security
action_boundary break_glass_use = security
action_boundary portability_plan = security
action_boundary portability_export = security
action_boundary portability_execute = security

parse-name : (a : PolicyAction) → parse_action (action_name a) ≡ some a
unfolding parse_action
parse-name workspace_read = refl
parse-name _ = refl
