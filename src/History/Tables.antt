-- ===== src/History/Tables.antt =====
-- packages/persistence-postgres/src/history-repository.ts: its statements on the tables, with the
-- unique keys that the migrations declare on `revisions` and `tombstones`. The workspace setting of row-level
-- security narrows what the statements already select by workspace, and is left out. The events that
-- the service hands to `appendAudit` and `enqueueOutbox` are kept as they are given; their rows, the
-- hash chain of the audit and the operations row beside an outbox row, are not modelled.
pub mod Rows
use Prim.Native.String.{compare as text_compare}
use text.Mathlib.Text.{is_lt as text_is_lt}
use trust_core.Core.Types.{
  Resource, ResourceStatus, Revision, RevisionSource, Tombstone, SubjectKind, resource_subject,
  PurgeState, purged,
}
use trust_core.Common.{
  nat_eq, if◌then◌else◌, ◌==◌, string_eq, number_eq, option_eq, any, find, keep, Result, ok, err, ℕ,
  suc, String, Bool, true, false, not, ◌&&◌, ◌||◌, Option, none, some, List, [], ◌∷◌,
}
use trust_core.Common.Effect.{M, modify}

pub data AuditAction : Type 0 where
  revision_created resource_deleted_logically : AuditAction

-- What the metadata and the payloads tell.
pub data HistoryDetails : Type 0 where
  of_revision :
      (revision_id : String) (revision_number : ℕ) (source : RevisionSource) → HistoryDetails
  of_tombstone : (tombstone_id : String) (recover_until : Option String) → HistoryDetails

pub record HistoryAuditEvent : Type 0 where
  pub workspace_id : String
  pub dataset_id : String
  pub actor_id : String
  pub action : AuditAction
  pub subject_id : String
  pub occurred_at : String
  pub metadata : HistoryDetails

pub data OutboxEventType : Type 0 where
  resource_revision_created resource_deleted resource_restored : OutboxEventType

pub record HistoryOutboxEvent : Type 0 where
  pub id : String
  pub workspace_id : String
  pub actor_id : String
  pub event_type : OutboxEventType
  pub subject_id : String
  pub occurred_at : String
  pub payload_dataset_id : String
  pub payload : HistoryDetails

pub record Tables (P : Type 0) : Type 0 where
  pub resources : List Resource
  pub revisions : List (Revision P)
  pub tombstones : List Tombstone
  -- What `appendAudit` and `enqueueOutbox` were given, the last first.
  pub audit_events : List HistoryAuditEvent
  pub outbox_events : List HistoryOutboxEvent

pub data HistoryError : Type 0 where
  resource_not_found revision_not_found history_conflict unique_violation : HistoryError
  no_recoverable_deletion recovery_window_expired invalid_revision : HistoryError

abbrev is_purged : PurgeState → Bool
is_purged purged = true
is_purged _ = false

abbrev is_resource_subject : SubjectKind → Bool
is_resource_subject resource_subject = true
is_resource_subject _ = false

-- `UPDATE … WHERE`, and the number of rows that it reaches.
abbrev pub update_where {ℓ} : {A : Type ℓ} → (A → Bool) → (A → A) → List A → List A
update_where p f [] = []
update_where p f (x ∷ xs) = (if p x then f x else x) ∷ update_where p f xs

abbrev pub count_where {ℓ} : {A : Type ℓ} → (A → Bool) → List A → ℕ
count_where p [] = 0
count_where p (x ∷ xs) = if p x then suc (count_where p xs) else count_where p xs

-- `ORDER BY deleted_at DESC LIMIT 1`: the first of the latest rows.
abbrev text_before : String → String → Bool
text_before s t = text_is_lt (text_compare s t)

latest : List Tombstone → Option Tombstone
latest [] = none
latest (t ∷ ts) = elim (latest ts) [
  | none ↦ some t
  | some u ↦ if text_before t.deleted_at u.deleted_at then some u else some t
]

abbrev pub is_resource : String → String → Resource → Bool
is_resource workspace id r = r.workspace_id == workspace && r.id == id

abbrev pub is_head : String → String → Option String → Resource → Bool
is_head workspace id expected r = is_resource workspace id r && r.current_revision_id == expected

abbrev pub new_head : Option String → ResourceStatus → String → Resource → Resource
new_head next status at r = record r {
  current_revision_id = next;
  status = status;
  updated_at = at;
}

abbrev pub is_open_tombstone : String → String → Tombstone → Bool
is_open_tombstone workspace id v =
    v.workspace_id == workspace
    && is_resource_subject v.subject_kind
    && v.subject_id == id
    && v.restored_at == none
    && not (is_purged v.purge_state)

abbrev pub is_unrestored : String → String → Tombstone → Bool
is_unrestored workspace id v = v.workspace_id == workspace && v.id == id && v.restored_at == none

-- The primary key, and the index `one_open_resource_tombstone`.
abbrev pub clashes_open : Tombstone → Tombstone → Bool
clashes_open v r =
    r.id == v.id
    || is_open_tombstone v.workspace_id v.subject_id v
      && is_open_tombstone v.workspace_id v.subject_id r

module _ {P : Type 0} where
  abbrev pub is_revision : String → String → Revision P → Bool
  is_revision workspace id r = r.workspace_id == workspace && r.id == id

  unfoldable pub get_resource : String → String → Tables P → Option Resource
  get_resource workspace id t = find (is_resource workspace id) t.resources

  unfoldable pub get_revision : String → String → Tables P → Option (Revision P)
  get_revision workspace id t = find (is_revision workspace id) t.revisions

  -- The primary key, and the unique pair of resource and number.
  abbrev pub clashes : Revision P → Revision P → Bool
  clashes v r =
      r.id == v.id || r.resource_id == v.resource_id && r.revision_number == v.revision_number

  unfoldable pub append_revision : Revision P → M (Tables P) HistoryError (Unit {0})
  append_revision v t =
      if any (clashes v) t.revisions
      then (t, err unique_violation)
      else (record t { revisions = v ∷ t.revisions }, ok tt)

  unfoldable pub set_resource_head :
      String
      → String
      → Option String
      → Option String
      → ResourceStatus
      → String
      → M (Tables P) HistoryError Bool
  set_resource_head workspace id expected next status at t = (
    record t {
      resources =
          update_where (is_head workspace id expected) (new_head next status at) t.resources;
    },
    ok (nat_eq (count_where (is_head workspace id expected) t.resources) 1),
  )

  unfoldable pub add_tombstone : Tombstone → M (Tables P) HistoryError (Unit {0})
  add_tombstone v t =
      if any (clashes_open v) t.tombstones
      then (t, err unique_violation)
      else (record t { tombstones = v ∷ t.tombstones }, ok tt)

  unfoldable pub get_open_tombstone : String → String → Tables P → Option Tombstone
  unfolding latest
  get_open_tombstone workspace id t = latest (keep (is_open_tombstone workspace id) t.tombstones)

  -- `db_now` is the database's `now()`.
  unfoldable pub close_tombstone :
      String → String → String → String → M (Tables P) HistoryError (Unit {0})
  close_tombstone db_now workspace id restored_by = modify λ t. record t {
    tombstones =
        update_where (is_unrestored workspace id)
          (λ v. record v { restored_at = some db_now; restored_by = some restored_by })
          t.tombstones;
  }

  unfoldable pub append_audit : HistoryAuditEvent → M (Tables P) HistoryError (Unit {0})
  append_audit e = modify λ t. record t { audit_events = e ∷ t.audit_events }

  unfoldable pub enqueue_outbox : HistoryOutboxEvent → M (Tables P) HistoryError (Unit {0})
  enqueue_outbox e = modify λ t. record t { outbox_events = e ∷ t.outbox_events }

-- `inTransaction` of packages/persistence-postgres/src/db.ts: an error rolls the work back.
abbrev pub committed : {S E A : Type 0} → S → S × Result E A → S × Result E A
committed old (new, ok a) = (new, ok a)
committed old (new, err e) = (old, err e)

unfoldable pub in_transaction : {S E A : Type 0} → M S E A → M S E A
in_transaction work s = committed s (work s)
