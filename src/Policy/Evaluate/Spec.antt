-- ===== src/Policy/Evaluate/Spec.antt =====
-- What `evaluatePolicy` of packages/policy/src/index.ts decides, said without its loops.
use trust_core.Common.{
  is_truthy, Bool-cases, Option-cases, ◌==◌, eq_iff, string_eq, number_eq, option_eq, any, find,
  find-Any, Any-find, Any-map, Any, includes, is_blank, String, ◌≡◌, refl, ◌≢◌, ◌↔◌, inl, inr, true,
  false, Option, none, some, List, [], ◌∷◌, ◌++◌, arith,
}
use trust_core.Common.Time.{ℤ, is_before, is_at_most}
use trust_core.Policy.Actions.{action_name, is_break_glass_eligible_action}
use trust_core.Policy.Roles.{capabilities_for_role}
use trust_core.Policy.Evaluate.{
  PolicyEvaluationInput, ScopedPolicyAssignment, RegisteredApplication, ActiveBreakGlassGrant,
  PolicyScope, ScopeKind, workspace_scope, dataset_scope, application_scope, application, allowed,
  evaluate_policy, first_grant, assignment_matches, scope_covers, claimed_role_assignments,
  registered_application, active_break_glass_grant, is_open_grant, instant, principal_type_eq,
  policy_action_eq, grants, PolicyDecision, assignment_decision,
}

abbrev pub Covers : ScopeKind → String → PolicyScope → Type 0
Covers workspace_scope id s = id ≡ s.workspace_id
Covers dataset_scope id s = s.dataset_id ≡ some id
Covers application_scope id s = s.application_id ≡ some id

-- The assignment is not revoked, belongs to the principal in the workspace of the request, covers
-- the scope of the request, and its role has the action.
pub record Grants (i : PolicyEvaluationInput) (a : ScopedPolicyAssignment) : Type 0 where
  pub live : is_truthy a.revoked_at ≡ false
  pub workspace : a.workspace_id ≡ i.scope.workspace_id
  pub kind : a.principal_type ≡ i.principal.principal_type
  pub principal : a.principal_id ≡ i.principal.id
  pub covered : Covers a.scope_kind a.scope_id i.scope
  pub capable : includes (capabilities_for_role a.role) i.action ≡ true

scope_covers-Covers :
    (k : ScopeKind) (id : String) (s : PolicyScope) → (scope_covers k id s ≡ true) ↔ Covers k id s
unfolding scope_covers
scope_covers-Covers workspace_scope id s = eq_iff id s.workspace_id
scope_covers-Covers dataset_scope id s = eq_iff s.dataset_id (some id)
scope_covers-Covers application_scope id s = eq_iff s.application_id (some id)

pub grants-Grants :
    (i : PolicyEvaluationInput) (a : ScopedPolicyAssignment) → grants i a ≡ true → Grants i a
unfolding assignment_matches
grants-Grants i a h =
    let covered : scope_covers a.scope_kind a.scope_id i.scope ≡ true = ground arith in
    record {
      live = ground arith;
      workspace = ground (arith, eq_iff a.workspace_id i.scope.workspace_id);
      kind = ground (arith, eq_iff a.principal_type i.principal.principal_type);
      principal = ground (arith, eq_iff a.principal_id i.principal.id);
      covered = (scope_covers-Covers a.scope_kind a.scope_id i.scope).0 covered;
      capable = ground arith;
    }

Grants-grants :
    (i : PolicyEvaluationInput) (a : ScopedPolicyAssignment) → Grants i a → grants i a ≡ true
unfolding assignment_matches
Grants-grants i a g = ground (
  arith,
  (eq_iff a.workspace_id i.scope.workspace_id).1 g.workspace,
  (eq_iff a.principal_type i.principal.principal_type).1 g.kind,
  (eq_iff a.principal_id i.principal.id).1 g.principal,
  (scope_covers-Covers a.scope_kind a.scope_id i.scope).1 g.covered,
  g.live,
  g.capable,
)

-- The first assignment that grants is the one that is named, if there is any.
pub first_grant-find :
    (i : PolicyEvaluationInput) (l : List ScopedPolicyAssignment)
    → first_grant i l ≡ (elim (find (grants i) l) [ none ↦ none | some a ↦ some a.id ])
unfolding first_grant
first_grant-find i [] = refl
first_grant-find i (a ∷ l) = ground (arith, first_grant-find i l)

module _ (parse : String → Option ℤ) (now : String) (i : PolicyEvaluationInput) where
  -- The grant is the principal's in the workspace of the request, is not revoked, states a reason,
  -- names the action, and the instant of the request lies from its start to before its end.
  pub record IsOpen (g : ActiveBreakGlassGrant) : Type 0 where
    pub workspace : g.workspace_id ≡ i.scope.workspace_id
    pub principal : g.principal_id ≡ i.principal.id
    pub live : is_truthy g.revoked_at ≡ false
    pub reason : is_blank g.reason ≡ false
    pub named : any (λ a. a == action_name i.action) g.actions ≡ true
    pub started : is_at_most (parse g.granted_at) (instant parse now i) ≡ true
    pub not_ended : is_before (instant parse now i) (parse g.expires_at) ≡ true

  pub is_open_grant-IsOpen :
      (g : ActiveBreakGlassGrant) → is_open_grant parse now i g ≡ true → IsOpen g
  is_open_grant-IsOpen g h = record {
    workspace = ground (arith, eq_iff g.workspace_id i.scope.workspace_id);
    principal = ground (arith, eq_iff g.principal_id i.principal.id);
    live = ground arith;
    reason = ground arith;
    named = ground arith;
    started = ground arith;
    not_ended = ground arith;
  }

  IsOpen-is_open_grant : (g : ActiveBreakGlassGrant) → IsOpen g → is_open_grant parse now i g ≡ true
  IsOpen-is_open_grant g o = ground (
    arith,
    (eq_iff g.workspace_id i.scope.workspace_id).1 o.workspace,
    (eq_iff g.principal_id i.principal.id).1 o.principal,
    o.live,
    o.reason,
    o.named,
    o.started,
    o.not_ended,
  )

  -- Some assignment grants, or some open grant does where the action is eligible.
  pub data IsGranted : Type 0 where
    by_role : Any (Grants i) (i.assignments ++ claimed_role_assignments i) → IsGranted
    by_break_glass :
        is_break_glass_eligible_action (action_name i.action) ≡ true
        → Any IsOpen i.break_glass_grants
        → IsGranted

  -- An application asks only through an active registration in the workspace that has the action.
  pub data IsCleared : Type 0 where
    no_application : i.principal.principal_type ≢ application → IsCleared
    capable_application :
        (a : RegisteredApplication)
        → registered_application i ≡ some a
        → any (λ c. c == action_name i.action) a.capabilities ≡ true
        → IsCleared

  break_glass_sound :
      (g : ActiveBreakGlassGrant) → active_break_glass_grant parse now i ≡ some g → IsGranted
  unfolding active_break_glass_grant
  break_glass_sound g h =
      elim (Bool-cases (is_break_glass_eligible_action (action_name i.action))) [
        | inl eligible ↦ by_break_glass eligible (
            Any-map is_open_grant-IsOpen i.break_glass_grants (
              find-Any (is_open_grant parse now i) i.break_glass_grants g
                (ground (arith, eligible))))
        | inr barred ↦ ground (arith, barred)
      ]

  break_glass_complete :
      is_break_glass_eligible_action (action_name i.action) ≡ true
      → Any IsOpen i.break_glass_grants
      → active_break_glass_grant parse now i ≢ none
  unfolding active_break_glass_grant
  break_glass_complete eligible a h =
      Any-find (is_open_grant parse now i) i.break_glass_grants (ground (arith, eligible))
        (Any-map IsOpen-is_open_grant i.break_glass_grants a)

  abbrev decision : PolicyDecision
  decision =
      assignment_decision parse now (first_grant i (i.assignments ++ claimed_role_assignments i)) i

  decision_sound : allowed decision ≡ true → IsGranted
  decision_sound h =
      elim (Option-cases (find (grants i) (i.assignments ++ claimed_role_assignments i))) [
        | inr (a, found) ↦ by_role (Any-map (grants-Grants i) _ (find-Any (grants i) _ a found))
        | inl missed ↦ elim (Option-cases (active_break_glass_grant parse now i)) [
          | inr (g, found) ↦ break_glass_sound g found
          | inl none_open ↦ ground (
            arith,
            first_grant-find i (i.assignments ++ claimed_role_assignments i),
            missed,
            none_open,
          )
        ]
      ]

  decision_complete : IsGranted → allowed decision ≡ true
  decision_complete (by_role a) =
      elim (Option-cases (find (grants i) (i.assignments ++ claimed_role_assignments i))) [
        | inl missed ↦ absurd (Any-find (grants i) _ missed (Any-map (Grants-grants i) _ a))
        | inr (b, found) ↦
            ground (arith, first_grant-find i (i.assignments ++ claimed_role_assignments i), found)
      ]
  decision_complete (by_break_glass eligible a) =
      elim (Option-cases (active_break_glass_grant parse now i)) [
        | inl missed ↦ absurd (break_glass_complete eligible a missed)
        | inr (g, found) ↦ ground (arith, found)
      ]

  -- A request is allowed exactly when it is cleared and granted. It is cleared when its principal
  -- is no application, or is one whose registration has the action among its capabilities. It is
  -- granted when some assignment, or role claimed in the workspace, is live, is the principal's,
  -- covers the scope and has a role with the action; or when the action is eligible for
  -- break-glass and some grant of it is open.
  pub evaluate_policy_iff : (allowed (evaluate_policy parse now i) ≡ true) ↔ (IsCleared × IsGranted)
  unfolding evaluate_policy
  evaluate_policy_iff = (sound, complete)
    where
      sound : allowed (evaluate_policy parse now i) ≡ true → IsCleared × IsGranted
      sound h = elim (Bool-cases (i.principal.principal_type == application)) [
        | inr other ↦ (
          no_application (ground (arith, other, eq_iff i.principal.principal_type application)),
          decision_sound (ground (arith, other, h)),
        )
        | inl app ↦ elim (Option-cases (registered_application i)) [
          | inl missing ↦ ground (arith, app, missing, h)
          | inr (a, found) ↦ (
            capable_application a found (ground (arith, app, found, h)),
            decision_sound (ground (arith, app, found, h)),
          )
        ]
      ]

      complete : IsCleared × IsGranted → allowed (evaluate_policy parse now i) ≡ true
      complete (no_application other, g) =
          ground (arith, eq_iff i.principal.principal_type application, decision_complete g)
      complete (capable_application a found capable, g) =
          ground (arith, found, capable, decision_complete g)
