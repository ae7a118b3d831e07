-- ===== src/Policy/Roles/Privileges.antt =====
-- What the roles of packages/policy/src/index.ts may and may not do.
use trust_core.Common.{
  Option-cases, ◌==◌, eq_iff, string_eq, number_eq, option_eq, find-Mem, includes, String, ◌≡◌,
  refl, ap, ◌∙◌, inl, inr, true, false, not, ◌||◌, some, arith,
}
use trust_core.Policy.Actions.{
  PolicyAction, content, action_boundary, policy_action_eq, operation_process, break_glass_use,
  is_break_glass_eligible_action, action_name, dataset_read,
}
use trust_core.Policy.Roles.{
  PolicyRole, worker, role_name, parse_role, role_capabilities, capabilities_for_role, policy_roles,
}

parse_role-name : (role : String) (r : PolicyRole) → parse_role role ≡ some r → role ≡ role_name r
unfolding parse_role
parse_role-name role r h =
    let (hit, _) = find-Mem (λ q. role_name q == role) policy_roles r h in
    ground (arith, eq_iff (role_name r) role, hit)

has_process :
    (r : PolicyRole) → includes (role_capabilities r) operation_process ≡ true → r ≡ worker
unfolding role_capabilities
has_process worker h = refl
has_process _ h = cc

-- Only the role named worker may process operations: no other name, of a role or not, has that action.
pub process_is_worker :
    (role : String)
    → includes (capabilities_for_role role) operation_process ≡ true
    → role ≡ "worker"
unfolding capabilities_for_role role_name
process_is_worker role h = elim (Option-cases (parse_role role)) [
  | inl other ↦ ground (arith, other)
  | inr (r, known) ↦
      let same = has_process r (ground (arith, known)) in
      parse_role-name role r known ∙ ap role_name same
]

-- An owner may do everything but process operations, and an admin everything but that and using a
-- break-glass grant.
pub owner_and_admin :
    (a : PolicyAction)
    → (includes (capabilities_for_role "owner") a ≡ not (a == operation_process))
      × (includes (capabilities_for_role "admin") a
          ≡ not (a == operation_process || a == break_glass_use))
unfolding capabilities_for_role parse_role
owner_and_admin dataset_read = (refl, refl)
owner_and_admin _ = (refl, refl)

-- The worker and the infrastructure operator may do nothing that touches content.
pub infrastructure_no_content :
    (a : PolicyAction)
    → action_boundary a ≡ content
    → (includes (capabilities_for_role "worker") a ≡ false)
      × (includes (capabilities_for_role "infrastructure_operator") a ≡ false)
unfolding capabilities_for_role parse_role action_boundary
infrastructure_no_content dataset_read h = (refl, refl)
infrastructure_no_content _ h = ground arith

-- Break-glass grants reach content only.
pub break_glass_is_content :
    (a : PolicyAction)
    → is_break_glass_eligible_action (action_name a) ≡ true
    → action_boundary a ≡ content
unfolding is_break_glass_eligible_action action_boundary action_name
break_glass_is_content dataset_read h = refl
break_glass_is_content _ h = ground arith
