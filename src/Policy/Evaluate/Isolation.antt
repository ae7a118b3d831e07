-- ===== src/Policy/Evaluate/Isolation.antt =====
-- Workspaces do not reach one another in packages/policy/src/index.ts.
use mathlib.Core.List.{Memᴰ}
use trust_core.Common.{
  find-Mem, Bool-cases, Option-cases, ◌==◌, string_eq, number_eq, option_eq, keep, find-keep,
  find-Mem, ℕ, suc, String, ◌≡◌, refl, ap, inl, inr, true, false, Option, none, some, List, [], ◌∷◌,
  ◌++◌, arith,
}
use trust_core.Common.Time.{ℤ}
use trust_core.Policy.Actions.{
  content, action_boundary, action_name, is_break_glass_eligible_action,
}
use trust_core.Policy.Roles.Privileges.{break_glass_is_content}
use trust_core.Policy.Evaluate.{
  PolicyEvaluationInput, ScopedPolicyAssignment, evaluate_policy, first_grant, assignment_matches,
  claimed_role_assignments, claims_from, claim, registered_application, is_registration,
  active_break_glass_grant, is_open_grant, allowed_by_break_glass, ActiveBreakGlassGrant,
}
use trust_core.Policy.Evaluate.Spec.{is_open_grant-IsOpen, IsOpen}

-- The input without what belongs to other workspaces.
abbrev pub own_workspace : PolicyEvaluationInput → PolicyEvaluationInput
own_workspace i = record i {
  assignments = keep (λ a. a.workspace_id == i.scope.workspace_id) i.assignments;
  applications = keep (λ a. a.workspace_id == i.scope.workspace_id) i.applications;
  break_glass_grants = keep (λ g. g.workspace_id == i.scope.workspace_id) i.break_glass_grants;
}

claims_same :
    (i : PolicyEvaluationInput) (n : ℕ) (roles : List String)
    → claims_from (own_workspace i) n roles ≡ claims_from i n roles
unfolding claims_from claim
claims_same i n [] = refl
claims_same i n (role ∷ roles) = ap (◌∷◌ (claim i n role)) (claims_same i (suc n) roles)

claimed_same :
    (i : PolicyEvaluationInput)
    → claimed_role_assignments (own_workspace i) ≡ claimed_role_assignments i
unfolding claimed_role_assignments
claimed_same i = rw (claims_same i 0 i.principal.roles)

module _ (i : PolicyEvaluationInput) where
  matches_same :
      (a : ScopedPolicyAssignment) → assignment_matches a (own_workspace i) ≡ assignment_matches a i
  unfolding assignment_matches
  matches_same a = refl

  foreign_assignment :
      (a : ScopedPolicyAssignment)
      → (a.workspace_id == i.scope.workspace_id) ≡ false
      → assignment_matches a i ≡ false
  unfolding assignment_matches
  foreign_assignment a h = ground (arith, h)

  rest_same : (l : List ScopedPolicyAssignment) → first_grant (own_workspace i) l ≡ first_grant i l
  unfolding first_grant
  rest_same [] = refl
  rest_same (a ∷ l) = rw (matches_same a, rest_same l)

  kept_same :
      (l rest : List ScopedPolicyAssignment)
      → first_grant (own_workspace i) (keep (λ a. a.workspace_id == i.scope.workspace_id) l ++ rest)
        ≡ first_grant i (l ++ rest)
  unfolding first_grant
  kept_same [] rest = rest_same rest
  kept_same (a ∷ l) rest = elim (Bool-cases (a.workspace_id == i.scope.workspace_id)) [
    | inl own ↦ rw own (rw (matches_same a, kept_same l rest))
    | inr foreign ↦ rw foreign (rw (foreign_assignment a foreign, kept_same l rest))
  ]

  first_grant_same :
      first_grant
        (own_workspace i)
        ((own_workspace i).assignments ++ claimed_role_assignments (own_workspace i))
      ≡ first_grant i (i.assignments ++ claimed_role_assignments i)
  first_grant_same = rw (claimed_same i) (kept_same i.assignments (claimed_role_assignments i))

  registered_same : registered_application (own_workspace i) ≡ registered_application i
  unfolding registered_application
  registered_same =
      find-keep (is_registration i) (λ a. a.workspace_id == i.scope.workspace_id)
        (λ a h. ground arith) i.applications

  module _ (parse : String → Option ℤ) (now : String) where
    break_glass_same :
        active_break_glass_grant parse now (own_workspace i) ≡ active_break_glass_grant parse now i
    unfolding active_break_glass_grant
    break_glass_same = rw (
        find-keep (is_open_grant parse now i) (λ g. g.workspace_id == i.scope.workspace_id)
          (λ g h. ground arith) i.break_glass_grants)

    -- Assignments, applications and break-glass grants of other workspaces make no difference to a
    -- decision: the input without them is decided the same, down to the ids that are named.
    pub evaluate_policy-own_workspace :
        evaluate_policy parse now (own_workspace i) ≡ evaluate_policy parse now i
    unfolding evaluate_policy
    evaluate_policy-own_workspace =
        ground (arith, registered_same, first_grant_same, break_glass_same)

    abbrev named : Option String
    named = first_grant i (i.assignments ++ claimed_role_assignments i)

    opened :
        (g : ActiveBreakGlassGrant)
        → active_break_glass_grant parse now i ≡ some g
        → (is_break_glass_eligible_action (action_name i.action) ≡ true)
          × IsOpen parse now i g
          × Memᴰ g i.break_glass_grants
    unfolding active_break_glass_grant
    opened g h = elim (Bool-cases (is_break_glass_eligible_action (action_name i.action))) [
      | inr barred ↦ ground (arith, barred, h)
      | inl eligible ↦
          let (passed, listed) =
            find-Mem (is_open_grant parse now i) i.break_glass_grants g
              (ground (arith, eligible, h)) in
          (eligible, is_open_grant-IsOpen parse now i g passed, listed)
    ]

    -- A request is allowed by a break-glass grant only where no assignment grants it and the action
    -- touches content; the grant that is named is one of the input's grants, is open, and its reason
    -- is the one that is given.
    pub evaluate_policy-break_glass :
        (id reason : String)
        → evaluate_policy parse now i ≡ allowed_by_break_glass id reason
        → (first_grant i (i.assignments ++ claimed_role_assignments i) ≡ none)
          × (action_boundary i.action ≡ content)
          × ((g : ActiveBreakGlassGrant) × Memᴰ g i.break_glass_grants
              × IsOpen parse now i g
              × (g.id ≡ id)
              × (g.reason ≡ reason))
    unfolding evaluate_policy
    evaluate_policy-break_glass id reason h = elim (Option-cases named) [
      | inr (a, found) ↦ ground (arith, found, h)
      | inl missed ↦ elim (Option-cases (active_break_glass_grant parse now i)) [
        | inl closed ↦ ground (arith, missed, closed, h)
        | inr (g, found) ↦
            let (eligible, is_open, listed) = opened g found in
            (
              missed,
              break_glass_is_content i.action eligible,
              (
                g,
                listed,
                is_open,
                ground (arith, missed, found, h),
                ground (arith, missed, found, h),
              ),
            )
      ]
    ]
