-- ===== src/Policy/Evaluate.antt =====
-- `evaluatePolicy` of packages/policy/src/index.ts. `Date.parse` and the present instant are
-- arguments. A list that the input leaves out is the empty list, as the source reads it.
pub mod Spec
pub mod Isolation
mod Examples
use Prim.Native.String.{◌++◌ as text_append}
use trust_core.Common.Time.{ℤ, is_before, is_at_most}
use trust_core.Policy.Actions.{
  PolicyAction, action_name, is_break_glass_eligible_action, policy_action_eq,
}
use trust_core.Policy.Roles.{capabilities_for_role}
use trust_core.Common.{
  is_truthy, ltb, if◌then◌else◌, Eq, ◌==◌, string_eq, number_eq, option_eq, discrete_eq, any, find,
  includes, is_blank, ℕ, zero, suc, ◌+◌, ◌-◌, ◌/◌, ◌%◌, String, Bool, true, false, not, ◌&&◌, ◌||◌,
  Option, none, some, List, [], ◌∷◌, ◌++◌, arith,
}

pub data PrincipalType : Type 0 where
  user service application : PrincipalType

abbrev pub PrincipalType-discrete : Discrete PrincipalType
PrincipalType-discrete = hlevel

instance abbrev pub principal_type_eq : Eq PrincipalType
principal_type_eq = discrete_eq PrincipalType-discrete

pub data ScopeKind : Type 0 where
  workspace_scope dataset_scope application_scope : ScopeKind

pub record PolicyPrincipal : Type 0 where
  pub id : String
  pub principal_type : PrincipalType
  pub roles : List String
  pub workspace_ids : List String

pub record PolicyScope : Type 0 where
  pub workspace_id : String
  pub dataset_id : Option String
  pub application_id : Option String

pub record ScopedPolicyAssignment : Type 0 where
  pub id : String
  pub workspace_id : String
  pub principal_type : PrincipalType
  pub principal_id : String
  pub role : String
  pub scope_kind : ScopeKind
  pub scope_id : String
  pub revoked_at : Option String

pub data ApplicationStatus : Type 0 where
  active suspended revoked : ApplicationStatus

abbrev pub is_active : ApplicationStatus → Bool
is_active active = true
is_active _ = false

pub record RegisteredApplication : Type 0 where
  pub id : String
  pub workspace_id : String
  pub namespace : String
  pub capabilities : List String
  pub status : ApplicationStatus

pub record ActiveBreakGlassGrant : Type 0 where
  pub id : String
  pub workspace_id : String
  pub principal_id : String
  pub reason : String
  pub actions : List String
  pub granted_at : String
  pub expires_at : String
  pub revoked_at : Option String

pub record PolicyEvaluationInput : Type 0 where
  pub principal : PolicyPrincipal
  pub action : PolicyAction
  pub scope : PolicyScope
  pub assignments : List ScopedPolicyAssignment
  pub applications : List RegisteredApplication
  pub break_glass_grants : List ActiveBreakGlassGrant
  pub at : Option String

pub data DenialReason : Type 0 where
  unregistered_application application_capability_denied no_matching_assignment : DenialReason

pub data PolicyDecision : Type 0 where
  allowed_by_role : (assignment_id : String) → PolicyDecision
  allowed_by_break_glass : (grant_id reason : String) → PolicyDecision
  denied : DenialReason → PolicyDecision

abbrev pub allowed : PolicyDecision → Bool
allowed (denied reason) = false
allowed _ = true

-- Does the assignment's scope cover the request's?
unfoldable pub scope_covers : ScopeKind → String → PolicyScope → Bool
scope_covers workspace_scope id s = id == s.workspace_id
scope_covers dataset_scope id s = s.dataset_id == some id
scope_covers application_scope id s = s.application_id == some id

unfoldable pub assignment_matches : ScopedPolicyAssignment → PolicyEvaluationInput → Bool
assignment_matches a i =
    not (
      is_truthy a.revoked_at
      || not (a.workspace_id == i.scope.workspace_id)
      || not (a.principal_type == i.principal.principal_type)
      || not (a.principal_id == i.principal.id))
    && scope_covers a.scope_kind a.scope_id i.scope

-- The digits of a number in a template literal, with at least as much fuel as digits.
abbrev digit : ℕ → String
digit zero = "0"
digit (suc zero) = "1"
digit (suc (suc zero)) = "2"
digit (suc (suc (suc zero))) = "3"
digit (suc (suc (suc (suc zero)))) = "4"
digit (suc (suc (suc (suc (suc zero))))) = "5"
digit (suc (suc (suc (suc (suc (suc zero)))))) = "6"
digit (suc (suc (suc (suc (suc (suc (suc zero))))))) = "7"
digit (suc (suc (suc (suc (suc (suc (suc (suc zero)))))))) = "8"
digit _ = "9"

decimal_from : ℕ → ℕ → String
decimal_from zero n = ""
decimal_from (suc fuel) n =
    let front = decimal_from fuel (n / 10) in
    if ltb n 10 then digit n else text_append front (digit (n % 10))

decimal : ℕ → String
unfolding decimal_from
decimal n = decimal_from (suc n) n

claim : PolicyEvaluationInput → ℕ → String → ScopedPolicyAssignment
unfolding decimal
claim i index role = record {
  id = text_append "identity-claim:" (text_append (decimal index) (text_append ":" role));
  workspace_id = i.scope.workspace_id;
  principal_type = i.principal.principal_type;
  principal_id = i.principal.id;
  role = role;
  scope_kind = workspace_scope;
  scope_id = i.scope.workspace_id;
  revoked_at = none;
}

claims_from : PolicyEvaluationInput → ℕ → List String → List ScopedPolicyAssignment
claims_from i index [] = []
claims_from i index (role ∷ roles) = claim i index role ∷ claims_from i (suc index) roles

unfoldable pub claimed_role_assignments : PolicyEvaluationInput → List ScopedPolicyAssignment
unfolding claims_from claim
claimed_role_assignments i =
    if not (includes i.principal.workspace_ids i.scope.workspace_id)
    then []
    else claims_from i 0 i.principal.roles

abbrev pub is_registration : PolicyEvaluationInput → RegisteredApplication → Bool
is_registration i a =
    a.workspace_id == i.scope.workspace_id
    && is_active a.status
    && (a.id == i.principal.id || a.namespace == i.principal.id)

pub registered_application : PolicyEvaluationInput → Option RegisteredApplication
registered_application i = find (is_registration i) i.applications

-- What the loop over the assignments returns, if it returns.
abbrev pub grants : PolicyEvaluationInput → ScopedPolicyAssignment → Bool
grants i a = assignment_matches a i && includes (capabilities_for_role a.role) i.action

unfoldable pub first_grant : PolicyEvaluationInput → List ScopedPolicyAssignment → Option String
first_grant i [] = none
first_grant i (a ∷ rest) =
    let later = first_grant i rest in
    if not (assignment_matches a i)
    then later
    else if includes (capabilities_for_role a.role) i.action
    then some a.id
    else later

module _ (parse : String → Option ℤ) (now : String) where
  abbrev pub instant : PolicyEvaluationInput → Option ℤ
  instant i = parse (elim i.at [ none ↦ now | some t ↦ t ])

  abbrev pub is_open_grant : PolicyEvaluationInput → ActiveBreakGlassGrant → Bool
  is_open_grant i g =
      g.workspace_id == i.scope.workspace_id
      && g.principal_id == i.principal.id
      && not (is_truthy g.revoked_at)
      && not (is_blank g.reason)
      && any (λ a. a == action_name i.action) g.actions
      && is_at_most (parse g.granted_at) (instant i)
      && is_before (instant i) (parse g.expires_at)

  pub active_break_glass_grant : PolicyEvaluationInput → Option ActiveBreakGlassGrant
  active_break_glass_grant i =
      if not (is_break_glass_eligible_action (action_name i.action))
      then none
      else find (is_open_grant i) i.break_glass_grants

  abbrev pub break_glass_decision : Option ActiveBreakGlassGrant → PolicyDecision
  break_glass_decision none = denied no_matching_assignment
  break_glass_decision (some g) = allowed_by_break_glass g.id g.reason

  abbrev pub assignment_decision : Option String → PolicyEvaluationInput → PolicyDecision
  assignment_decision (some id) i = allowed_by_role id
  assignment_decision none i = break_glass_decision (active_break_glass_grant i)

  -- The check that only an application's request takes.
  pub application_denial :
      PolicyEvaluationInput → Option RegisteredApplication → Option DenialReason
  application_denial i none = some unregistered_application
  application_denial i (some a) =
      if not (any (λ c. c == action_name i.action) a.capabilities)
      then some application_capability_denied
      else none

  unfoldable pub evaluate_policy : PolicyEvaluationInput → PolicyDecision
  unfolding application_denial
  evaluate_policy i =
      let denial =
        if i.principal.principal_type == application
        then application_denial i (registered_application i)
        else none in
      let decision =
        assignment_decision (first_grant i (i.assignments ++ claimed_role_assignments i)) i in
      elim denial [ some reason ↦ denied reason | none ↦ decision ]
