-- ===== src/History/Calls/Examples.antt =====
-- A document that is written, deleted and restored.
use trust_core.Common.{
  eq_iff, string_eq, number_eq, option_eq, Result, ok, err, String, ◌≡◌, refl, sym, Option, none,
  some, List, [], ◌∷◌, arith,
}
use mathlib.Core.Path.{subst}
use trust_core.Core.Types.{Revision, by_restore, Tombstone, Resource, active}
use trust_core.Core.Invariants.Examples.{document, first_revision}
use trust_core.Core.Invariants.{assert_next_revision}
use trust_core.History.Tables.{
  Tables, history_conflict, unique_violation, get_resource, get_revision, get_open_tombstone,
  append_revision, set_resource_head, append_audit, enqueue_outbox, add_tombstone, close_tombstone,
  in_transaction, HistoryError,
}
use trust_core.History.Service.{
  CreateRevisionInput, DeleteResourceInput, RestoreResourceInput, create_revision, delete_resource,
  restore_resource, create_revision_within, delete_within, restore_within, write_revision,
}
use trust_core.History.Chain.{IsLinked, IsChain, start}
use trust_core.History.Conflicts.{create_revision_once}
use trust_core.History.Calls.{HistoryCall, creates, deletes, restores, run_history, step_history}
use trust_core.History.Calls.Restored.{
  run_history-IsLinked, run_history_keeps, restore_resource_payload,
}

-- A document without revisions.
abbrev empty : Tables String
empty = record {
  resources = document ∷ [];
  revisions = [];
  tombstones = [];
  audit_events = [];
  outbox_events = [];
}

abbrev hash : String → String
hash payload = payload

abbrev writing : Option String → String → CreateRevisionInput String
writing expected payload = record {
  workspace_id = "w-1";
  resource_id = "res-1";
  expected_revision_id = expected;
  schema_package_id = "note";
  schema_version = "1.0.0";
  canonical_payload = payload;
  actor_id = "user-1";
  source = none;
  change_note = none;
  restored_from_revision_id = none;
}

abbrev deleting : Option String → DeleteResourceInput
deleting expected = record {
  workspace_id = "w-1";
  resource_id = "res-1";
  expected_revision_id = expected;
  actor_id = "user-1";
  recover_until = none;
  reason = none;
}

abbrev restoring : RestoreResourceInput
restoring = record {
  workspace_id = "w-1";
  resource_id = "res-1";
  actor_id = "user-2";
  change_note = none;
}

abbrev first : HistoryCall String
first = creates "2026-01-01" "rev-1" (writing none "one")

-- A second revision, its deletion and the restoration.
abbrev later : List (HistoryCall String)
later =
    creates "2026-01-02" "rev-2" (writing (some "rev-1") "two")
    ∷ deletes "2026-01-03" "tomb-1" (deleting (some "rev-2"))
    ∷ restores "2026-01-04" "rev-3" "2026-01-04" "2026-01-04" restoring
    ∷ []

abbrev written : Tables String
written = run_history hash (first ∷ []) empty

abbrev deleted : Tables String
deleted =
    run_history hash (first ∷ deletes "2026-01-03" "tomb-1" (deleting (some "rev-1")) ∷ []) empty

empty-IsLinked : IsLinked empty
unfolding get_resource
empty-IsLinked w rid r h =
    let same : r ≡ document = ground (arith, h, eq_iff "w-1" w, eq_iff "res-1" rid) in
    (0, subst (λ u. IsChain {P = String} [] w rid u.current_revision_id 0) (sym same) start)

run_history-IsLinked_example : IsLinked (run_history hash (first ∷ later) empty)
run_history-IsLinked_example = run_history-IsLinked hash (first ∷ later) empty empty-IsLinked

abbrev one : Revision String
one = record first_revision { canonical_payload_hash = "one"; created_at = "2026-01-01" }

-- Another writer that starts from no revision, as `first` did.
abbrev rival : CreateRevisionInput String
rival = writing none "other"

create_revision_once_example :
    create_revision hash "2026-01-02" "rev-9" rival
      (create_revision hash "2026-01-01" "rev-1" (writing none "one") empty).0
    ≡ (
      (create_revision hash "2026-01-01" "rev-1" (writing none "one") empty).0,
      err history_conflict,
    )
unfolding create_revision create_revision_within write_revision assert_next_revision append_revision
    set_resource_head append_audit enqueue_outbox in_transaction get_resource get_revision
create_revision_once_example =
    create_revision_once hash "2026-01-01" "rev-1" "2026-01-02" "rev-9" (writing none "one") rival
      empty one refl refl refl refl (λ h. cc)

run_history_keeps_example : get_revision "w-1" "rev-1" (run_history hash later written) ≡ some one
unfolding run_history step_history create_revision create_revision_within write_revision
    assert_next_revision append_revision set_resource_head append_audit enqueue_outbox
    in_transaction get_resource get_revision
run_history_keeps_example = run_history_keeps hash later written "w-1" "rev-1" one refl

-- What the restoration of the deleted document writes.
abbrev returned : Revision String
returned = record one {
  id = "rev-3";
  revision_number = 2;
  parent_revision_id = some "rev-1";
  created_by = "user-2";
  source = by_restore;
  change_note = some "Restored deleted resource";
  restored_from_revision_id = some "rev-1";
  created_at = "2026-01-04";
}

abbrev restored : Tables String
restored =
    (restore_resource hash "2026-01-04" "2026-01-04" "rev-3" "2026-01-05" restoring deleted).0

restore_resource_payload_example :
    (stone : Tombstone) × (k : String) × (prior : Revision String) × (head : Resource)
    × (get_open_tombstone "w-1" "res-1" deleted ≡ some stone)
    × (stone.prior_revision_id ≡ some k)
    × (get_revision "w-1" k deleted ≡ some prior)
    × (returned.canonical_payload ≡ prior.canonical_payload)
    × (returned.restored_from_revision_id ≡ some prior.id)
    × (get_resource "w-1" "res-1" restored ≡ some head)
    × (head.current_revision_id ≡ some "rev-3")
    × (head.status ≡ active)
    × (get_revision "w-1" "rev-3" restored ≡ some returned)
unfolding run_history step_history delete_resource restore_resource restore_within delete_within
    get_open_tombstone add_tombstone close_tombstone create_revision create_revision_within
    write_revision assert_next_revision append_revision set_resource_head append_audit
    enqueue_outbox in_transaction get_resource get_revision
restore_resource_payload_example =
    restore_resource_payload hash "2026-01-04" "2026-01-04" "rev-3" "2026-01-05" restoring deleted
      restored returned refl

-- The deleted document is written to again, which leaves its tombstone open.
abbrev revived : Tables String
revived =
    run_history hash (creates "2026-01-04" "rev-2" (writing (some "rev-1") "two") ∷ []) deleted

abbrev payload_of : Result HistoryError (Revision String) → Option String
payload_of (ok v) = some v.canonical_payload
payload_of (err e) = none

-- So a restoration of the active document succeeds and puts the older payload on top.
test_restored_over_newer :
    payload_of
      (restore_resource hash "2026-01-05" "2026-01-05" "rev-3" "2026-01-05" restoring revived).1
    ≡ some "one"
unfolding run_history step_history delete_resource restore_resource restore_within delete_within
    get_open_tombstone add_tombstone close_tombstone create_revision create_revision_within
    write_revision assert_next_revision append_revision set_resource_head append_audit
    enqueue_outbox in_transaction get_resource get_revision
test_restored_over_newer = refl

-- A deletion of a document that has an open tombstone is refused by the tables.
test_deleted_again :
    (delete_resource "2026-01-05" "tomb-2" (deleting (some "rev-2")) revived).1
    ≡ err unique_violation
unfolding run_history step_history delete_resource delete_within add_tombstone create_revision
    create_revision_within write_revision assert_next_revision append_revision set_resource_head
    append_audit enqueue_outbox in_transaction get_resource get_revision
test_deleted_again = refl
