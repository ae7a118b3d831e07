-- ===== src/Core/Invariants/Examples.antt =====
-- Concrete revisions and retention policies.
use trust_core.Common.{string_eq, number_eq, option_eq, ok, String, ◌≡◌, ◌↔◌, false, none, []}
use trust_core.Common.Time.{pos}
use trust_core.Core.Types.{Resource, Revision, active, by_user, RetentionPolicy, whole}
use trust_core.Core.Invariants.{assert_next_revision, assert_retention_policy}
use trust_core.Core.Invariants.Laws.{
  IsNext, IsSound, assert_next_revision_iff, assert_retention_policy_iff,
}

abbrev pub document : Resource
document = record {
  id = "res-1";
  workspace_id = "w-1";
  dataset_id = "d-1";
  resource_type = "note";
  title = none;
  status = active;
  current_revision_id = none;
  created_by = "user-1";
  created_at = "2026-01-01T00:00:00.000Z";
  updated_at = "2026-01-01T00:00:00.000Z";
}

abbrev pub first_revision : Revision String
first_revision = record {
  id = "rev-1";
  workspace_id = "w-1";
  dataset_id = "d-1";
  resource_id = "res-1";
  revision_number = 1;
  parent_revision_id = none;
  merge_parent_revision_ids = [];
  schema_package_id = "note";
  schema_version = "1.0.0";
  canonical_payload = "one";
  canonical_payload_hash = "hash-one";
  created_by = "user-1";
  created_on_device_id = none;
  source = by_user;
  change_note = none;
  restored_from_revision_id = none;
  created_at = "2026-01-01T00:00:01.000Z";
}

abbrev month : RetentionPolicy
month = record {
  name = "month";
  recovery_window_days = whole (pos 30);
  minimum_history_days = whole (pos 0);
  backup_retention_days = whole (pos 36500);
  purge_enabled = false;
}

test-IsNext :
    (assert_next_revision document none first_revision ≡ ok tt)
    ↔ IsNext document none first_revision
test-IsNext = assert_next_revision_iff document none first_revision

assert_retention_policy_iff_example : (assert_retention_policy month ≡ ok tt) ↔ IsSound month
assert_retention_policy_iff_example = assert_retention_policy_iff month
