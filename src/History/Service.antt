-- ===== src/History/Service.antt =====
-- `ResourceHistoryService` of packages/operations/src/history-service.ts. The instants and ids that
-- a call draws are its arguments, in the order in which it draws them; `hash` is `hashCanonical`.
pub mod Created
pub mod Restored
use trust_core.Common.{
  is_truthy, if◌then◌else◌, ◌==◌, string_eq, number_eq, option_eq, Result, ok, err, ℕ, ◌+◌, String,
  Bool, true, false, not, ◌&&◌, Option, none, some, [],
}
use trust_core.Common.Effect.{M, ◌>>=◌, ◌>>◌, pure, throw, read}
use Prim.Native.String.{compare as text_compare}
use text.Mathlib.Text.{is_lt as text_is_lt}
use trust_core.Core.Types.{
  RevisionSource, Tombstone, by_user, Revision, Resource, resource_subject, by_restore,
  not_eligible, active, deleted_logically,
}
use trust_core.Core.Invariants.{TrustErrorCode, assert_next_revision}
use trust_core.History.Tables.{
  of_revision, of_tombstone, append_audit, set_resource_head, enqueue_outbox,
  resource_deleted_logically, resource_deleted, add_tombstone, close_tombstone, Tables,
  HistoryError, invalid_revision, OutboxEventType, in_transaction, resource_restored,
  resource_revision_created, get_resource, append_revision, get_revision, revision_not_found,
  set_resource_head, resource_not_found, get_open_tombstone, append_audit, no_recoverable_deletion,
  add_tombstone, revision_created, recovery_window_expired, resource_deleted_logically,
  close_tombstone, enqueue_outbox, history_conflict,
}

pub record CreateRevisionInput (P : Type 0) : Type 0 where
  pub workspace_id : String
  pub resource_id : String
  pub expected_revision_id : Option String
  pub schema_package_id : String
  pub schema_version : String
  pub canonical_payload : P
  pub actor_id : String
  pub source : Option RevisionSource
  pub change_note : Option String
  pub restored_from_revision_id : Option String

pub record DeleteResourceInput : Type 0 where
  pub workspace_id : String
  pub resource_id : String
  pub expected_revision_id : Option String
  pub actor_id : String
  pub recover_until : Option String
  pub reason : Option String

pub record RestoreResourceInput : Type 0 where
  pub workspace_id : String
  pub resource_id : String
  pub actor_id : String
  pub change_note : Option String

-- A statement or a method, within a transaction.
abbrev pub H : Type 0 → Type 0 → Type 0
H P A = M (Tables P) HistoryError A

abbrev or_user : Option RevisionSource → RevisionSource
or_user none = by_user
or_user (some s) = s

abbrev event_of : RevisionSource → OutboxEventType
event_of by_restore = resource_restored
event_of _ = resource_revision_created

abbrev pub new_tombstone : String → String → DeleteResourceInput → Resource → Tombstone
new_tombstone now id input resource = record {
  id = id;
  workspace_id = resource.workspace_id;
  dataset_id = resource.dataset_id;
  subject_kind = resource_subject;
  subject_id = resource.id;
  deleted_by = input.actor_id;
  deleted_at = now;
  reason = input.reason;
  recover_until = input.recover_until;
  prior_revision_id = resource.current_revision_id;
  restored_at = none;
  restored_by = none;
  purge_state = not_eligible;
}

-- `tombstone.recoverUntil && tombstone.recoverUntil < this.now()`, on ISO texts.
abbrev pub has_expired : Option String → String → Bool
has_expired none now = false
has_expired (some until) now = is_truthy (some until) && text_is_lt (text_compare until now)

abbrev pub prior_of : Option Tombstone → Option (Tombstone × String)
prior_of none = none
prior_of (some v) = elim v.prior_revision_id [
  | none ↦ none
  | some id ↦ if is_truthy (some id) then some (v, id) else none
]

abbrev or_note : Option String → Option String
or_note none = some "Restored deleted resource"
or_note (some note) = some note

module _ {P : Type 0} where
  abbrev pub found : {A : Type 0} → Option A → HistoryError → H P A
  found none e = throw e
  found (some a) e = pure a

  abbrev pub checked : Result TrustErrorCode (Unit {0}) → H P (Unit {0})
  checked (ok u) = pure u
  checked (err e) = throw invalid_revision

  abbrev pub require : Bool → HistoryError → H P (Unit {0})
  require true e = pure tt
  require false e = throw e

  abbrev pub current_of : CreateRevisionInput P → Resource → H P (Option (Revision P))
  current_of input resource = elim resource.current_revision_id [
    | none ↦ pure none
    | some id ↦ if not (is_truthy (some id)) then pure none else do
      stored ← read (get_revision input.workspace_id id)
      current ← found stored revision_not_found
      pure (some current)
  ]

  abbrev number_of : Option (Revision P) → ℕ
  number_of none = 0
  number_of (some r) = r.revision_number

  abbrev id_of : Option (Revision P) → Option String
  id_of none = none
  id_of (some r) = some r.id

  -- The statements that write a revision that has been checked.
  unfoldable pub write_revision :
      String → CreateRevisionInput P → Resource → Revision P → H P (Revision P)
  write_revision now input resource revision = do
    let details = of_revision revision.id revision.revision_number revision.source
    append_revision revision
    moved ←
        set_resource_head resource.workspace_id resource.id input.expected_revision_id
          (some revision.id) active now
    require moved history_conflict
    append_audit (record {
      workspace_id = resource.workspace_id;
      dataset_id = resource.dataset_id;
      actor_id = input.actor_id;
      action = revision_created;
      subject_id = resource.id;
      occurred_at = now;
      metadata = details;
    })
    enqueue_outbox (record {
      id = revision.id;
      workspace_id = resource.workspace_id;
      actor_id = input.actor_id;
      event_type = event_of revision.source;
      subject_id = resource.id;
      occurred_at = now;
      payload_dataset_id = resource.dataset_id;
      payload = details;
    })
    pure revision

  unfoldable pub delete_within : String → String → DeleteResourceInput → H P Tombstone
  delete_within now id input = do
    stored ← read (get_resource input.workspace_id input.resource_id)
    resource ← found stored resource_not_found
    require (resource.current_revision_id == input.expected_revision_id) history_conflict
    let tombstone = new_tombstone now id input resource
    let details = of_tombstone tombstone.id tombstone.recover_until
    add_tombstone tombstone
    moved ←
        set_resource_head resource.workspace_id resource.id input.expected_revision_id
          resource.current_revision_id deleted_logically now
    require moved history_conflict
    append_audit (record {
      workspace_id = resource.workspace_id;
      dataset_id = resource.dataset_id;
      actor_id = input.actor_id;
      action = resource_deleted_logically;
      subject_id = resource.id;
      occurred_at = now;
      metadata = details;
    })
    enqueue_outbox (record {
      id = tombstone.id;
      workspace_id = resource.workspace_id;
      actor_id = input.actor_id;
      event_type = resource_deleted;
      subject_id = resource.id;
      occurred_at = now;
      payload_dataset_id = resource.dataset_id;
      payload = details;
    })
    pure tombstone

  unfoldable pub delete_resource : String → String → DeleteResourceInput → H P Tombstone
  delete_resource now id input = in_transaction (delete_within now id input)

  abbrev pub restoring : RestoreResourceInput → Resource → Revision P → CreateRevisionInput P
  restoring input resource prior = record {
    workspace_id = input.workspace_id;
    resource_id = input.resource_id;
    expected_revision_id = resource.current_revision_id;
    schema_package_id = prior.schema_package_id;
    schema_version = prior.schema_version;
    canonical_payload = prior.canonical_payload;
    actor_id = input.actor_id;
    source = some by_restore;
    change_note = or_note input.change_note;
    restored_from_revision_id = some prior.id;
  }

module _ {P : Type 0} (hash : P → String) where
  abbrev pub new_revision :
      String → String → CreateRevisionInput P → Resource → Option (Revision P) → Revision P
  new_revision now id input resource current = record {
    id = id;
    workspace_id = resource.workspace_id;
    dataset_id = resource.dataset_id;
    resource_id = resource.id;
    revision_number = number_of current + 1;
    parent_revision_id = id_of current;
    merge_parent_revision_ids = [];
    schema_package_id = input.schema_package_id;
    schema_version = input.schema_version;
    canonical_payload = input.canonical_payload;
    canonical_payload_hash = hash input.canonical_payload;
    created_by = input.actor_id;
    created_on_device_id = none;
    source = or_user input.source;
    change_note = input.change_note;
    restored_from_revision_id = input.restored_from_revision_id;
    created_at = now;
  }

  unfoldable pub create_revision_within : String → String → CreateRevisionInput P → H P (Revision P)
  create_revision_within now id input = do
    stored ← read (get_resource input.workspace_id input.resource_id)
    resource ← found stored resource_not_found
    current ← current_of input resource
    require (resource.current_revision_id == input.expected_revision_id) history_conflict
    let revision = new_revision now id input resource current
    checked (assert_next_revision resource current revision)
    write_revision now input resource revision

  unfoldable pub create_revision : String → String → CreateRevisionInput P → H P (Revision P)
  create_revision now id input = in_transaction (create_revision_within now id input)

  -- The database closes the tombstone at its own `db_now`.
  unfoldable pub restore_within :
      String → String → String → String → RestoreResourceInput → H P (Revision P)
  restore_within checked_at now id db_now input = do
    stored ← read (get_resource input.workspace_id input.resource_id)
    resource ← found stored resource_not_found
    open_one ← read (get_open_tombstone input.workspace_id input.resource_id)
    pair ← found (prior_of open_one) no_recoverable_deletion
    require (not (has_expired pair.0.recover_until checked_at)) recovery_window_expired
    kept ← read (get_revision input.workspace_id pair.1)
    prior ← found kept revision_not_found
    restored ← create_revision_within now id (restoring input resource prior)
    close_tombstone db_now input.workspace_id pair.0.id input.actor_id
    pure restored

  unfoldable pub restore_resource :
      String → String → String → String → RestoreResourceInput → H P (Revision P)
  restore_resource checked_at now id db_now input =
      in_transaction (restore_within checked_at now id db_now input)
