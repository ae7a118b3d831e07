-- ===== src/Core/Invariants/Laws.antt =====
-- What the assertions of packages/core/src/invariants.ts let through.
use trust_core.Common.Time.{pos}
use trust_core.Core.Types.{Resource, Revision, RetentionPolicy, JsNumber, whole}
use trust_core.Core.Invariants.{is_day_count, assert_next_revision, assert_retention_policy}
use trust_core.Common.{
  eq_iff, string_eq, number_eq, option_eq, is_blank, ok, ℕ, ◌+◌, ◌≤◌, ◌≡◌, refl, ◌↔◌, true, false,
  Option, none, some, arith,
}

module _ {P : Type 0} where
  -- The first revision has number 1 and no parent; a later one has the head as its parent, and the
  -- next number.
  abbrev pub Extends : Resource → Option (Revision P) → Revision P → Type 0
  Extends resource none proposed =
      (proposed.parent_revision_id ≡ none) × (proposed.revision_number ≡ 1)
  Extends resource (some current) proposed =
      (resource.current_revision_id ≡ some current.id)
      × (proposed.parent_revision_id ≡ some current.id)
      × (proposed.revision_number ≡ current.revision_number + 1)

  pub record IsNext (resource : Resource) (current : Option (Revision P)) (proposed : Revision P)
      : Type 0 where
    pub resource_same : proposed.resource_id ≡ resource.id
    pub workspace_same : proposed.workspace_id ≡ resource.workspace_id
    pub dataset_same : proposed.dataset_id ≡ resource.dataset_id
    pub extends : Extends resource current proposed

  IsNext-sound :
      (resource : Resource) (current : Option (Revision P)) (proposed : Revision P)
      → assert_next_revision resource current proposed ≡ ok tt
      → IsNext resource current proposed
  unfolding assert_next_revision
  IsNext-sound resource none proposed h = ground (
    arith,
    eq_iff proposed.resource_id resource.id,
    eq_iff proposed.workspace_id resource.workspace_id,
    eq_iff proposed.dataset_id resource.dataset_id,
    eq_iff proposed.parent_revision_id none,
  )
  IsNext-sound resource (some current) proposed h = ground (
    arith,
    eq_iff proposed.resource_id resource.id,
    eq_iff proposed.workspace_id resource.workspace_id,
    eq_iff proposed.dataset_id resource.dataset_id,
    eq_iff resource.current_revision_id (some current.id),
    eq_iff proposed.parent_revision_id (some current.id),
  )

  IsNext-complete :
      (resource : Resource) (current : Option (Revision P)) (proposed : Revision P)
      → IsNext resource current proposed
      → assert_next_revision resource current proposed ≡ ok tt
  unfolding assert_next_revision
  IsNext-complete resource none proposed n = ground (
    arith,
    (eq_iff proposed.resource_id resource.id).1 n.resource_same,
    (eq_iff proposed.workspace_id resource.workspace_id).1 n.workspace_same,
    (eq_iff proposed.dataset_id resource.dataset_id).1 n.dataset_same,
    n.extends,
  )
  IsNext-complete resource (some current) proposed n = ground (
    arith,
    (eq_iff proposed.resource_id resource.id).1 n.resource_same,
    (eq_iff proposed.workspace_id resource.workspace_id).1 n.workspace_same,
    (eq_iff proposed.dataset_id resource.dataset_id).1 n.dataset_same,
    (eq_iff resource.current_revision_id (some current.id)).1 n.extends.0,
    (eq_iff proposed.parent_revision_id (some current.id)).1 n.extends.1,
    n.extends.2,
  )

  -- A proposed revision passes exactly when it stays with its resource, workspace and dataset and
  -- extends the head: number 1 with no parent, or the head's number plus one with the head as parent.
  pub assert_next_revision_iff :
      (resource : Resource) (current : Option (Revision P)) (proposed : Revision P)
      → (assert_next_revision resource current proposed ≡ ok tt) ↔ IsNext resource current proposed
  assert_next_revision_iff resource current proposed =
      (IsNext-sound resource current proposed, IsNext-complete resource current proposed)

-- A number of days from 0 to 36500.
abbrev pub IsDays : JsNumber → Type 0
IsDays x = (n : ℕ) × (x ≡ whole (pos n)) × (n ≤ 36500)

pub record IsSound (p : RetentionPolicy) : Type 0 where
  pub named : is_blank p.name ≡ false
  pub recovery : IsDays p.recovery_window_days
  pub history : IsDays p.minimum_history_days
  pub backup : IsDays p.backup_retention_days
  pub no_purge : p.purge_enabled ≡ false

IsDays-sound : (x : JsNumber) → is_day_count x ≡ true → IsDays x
unfolding is_day_count
IsDays-sound (whole (pos n)) h = (n, refl, ground arith)
IsDays-sound _ h = cc

IsDays-complete : (x : JsNumber) → IsDays x → is_day_count x ≡ true
unfolding is_day_count
IsDays-complete x (n, e, h) = ground (arith, e, h)

policy-IsSound : (p : RetentionPolicy) → assert_retention_policy p ≡ ok tt → IsSound p
unfolding assert_retention_policy
policy-IsSound p h = record {
  named = ground arith;
  recovery = IsDays-sound p.recovery_window_days (ground arith);
  history = IsDays-sound p.minimum_history_days (ground arith);
  backup = IsDays-sound p.backup_retention_days (ground arith);
  no_purge = ground arith;
}

IsSound-policy : (p : RetentionPolicy) → IsSound p → assert_retention_policy p ≡ ok tt
unfolding assert_retention_policy
IsSound-policy p s = ground (
  arith,
  IsDays-complete p.recovery_window_days s.recovery,
  IsDays-complete p.minimum_history_days s.history,
  IsDays-complete p.backup_retention_days s.backup,
)

-- A retention policy passes exactly when it has a name, its three periods are whole numbers of days
-- from 0 to 36500, and it does not enable purging.
pub assert_retention_policy_iff :
    (p : RetentionPolicy) → (assert_retention_policy p ≡ ok tt) ↔ IsSound p
assert_retention_policy_iff p = (policy-IsSound p, IsSound-policy p)
