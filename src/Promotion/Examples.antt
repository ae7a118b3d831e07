-- ===== src/Promotion/Examples.antt =====
-- A promotion over the storage of packages/storage/src/memory-object-storage.ts.
use trust_core.Common.{
  after_prefix, contains, string_eq, number_eq, option_eq, is_blank, is_hex_text, ok, lookup,
  insert, delete, ℕ, String, ◌≡◌, refl, ◌⊎◌, List, [], ◌∷◌,
}
use trust_core.Storage.{ObjectLocator}
use trust_core.Storage.Memory.{
  MemoryStorage, memory_object_storage, stored_bytes, described, StoredBytes, exists, head,
  commit_immutable,
}
use trust_core.Storage.Keys.{canonical_object_key, is_temporary_key, is_safe_id}
use trust_core.Quarantine.States.{accepted}
use trust_core.Promotion.{
  PromoteQuarantineInput, promote_quarantine_object, promote_fresh, is_temporary, promotion_pending,
}
use trust_core.Promotion.Declared.{IsDeclared, promote_quarantine_object-IsDeclared}

abbrev digest : String
digest = "aaaaaaaaaaaaaaaaaaaaaaaaaaaaaaaaaaaaaaaaaaaaaaaaaaaaaaaaaaaaaaaa"

abbrev toy_digest : List ℕ → String
toy_digest body = digest

abbrev uploaded : StoredBytes
uploaded = stored_bytes toy_digest (1 ∷ 2 ∷ 3 ∷ []) "text/plain"

abbrev quarantined : ObjectLocator
quarantined = record { key = "workspaces/w-1/temporary/u-1" }

abbrev stored_key : String
stored_key =
    "workspaces/w-1/objects/aa/aaaaaaaaaaaaaaaaaaaaaaaaaaaaaaaaaaaaaaaaaaaaaaaaaaaaaaaaaaaaaaaa"

abbrev holding : String → MemoryStorage
holding key = record { objects = (key, uploaded) ∷ []; multipart = [] }

abbrev input : PromoteQuarantineInput
input = record {
  workspace_id = "w-1";
  quarantine = quarantined;
  canonical = record { key = "workspaces/w-1/objects/other" };
  sha256 = digest;
  byte_length = 3;
  media_type = "text/plain";
  scan_state = accepted;
}

-- The object that is returned need not stand under the canonical key that was allocated.
test_other_key :
    promote_quarantine_object (memory_object_storage toy_digest) input (holding quarantined.key)
    ≡ (holding stored_key, ok (described stored_key uploaded))
unfolding promote_quarantine_object promote_fresh is_temporary exists head commit_immutable
    canonical_object_key is_safe_id is_temporary_key is_hex_text is_blank after_prefix contains
    lookup insert delete
test_other_key = refl

promote_quarantine_object-IsDeclared_example :
    ((accepted ≡ accepted) ⊎ (accepted ≡ promotion_pending))
    × IsDeclared input (described stored_key uploaded)
promote_quarantine_object-IsDeclared_example =
    promote_quarantine_object-IsDeclared (memory_object_storage toy_digest) input
      (holding quarantined.key) (holding stored_key) (described stored_key uploaded) test_other_key
