-- ===== src/Core/Invariants.antt =====
-- packages/core/src/invariants.ts and the error codes of packages/core/src/errors.ts.
pub mod Laws
pub mod Examples
use trust_core.Common.Time.{pos, negsuc}
use trust_core.Core.Types.{
  Resource, Revision, RetentionPolicy, BlobObject, EncryptionState, provider_managed,
  customer_managed, JsNumber, whole, not_whole,
}
use trust_core.Common.{
  leb, nat_eq, if◌then◌else◌, ◌==◌, string_eq, number_eq, option_eq, discrete_eq, any, codes,
  is_space, is_blank, is_hex_text, Result, ◌>>◌, throw_if, ℕ, ◌+◌, ◌-◌, String, Bool, true, false,
  not, ◌&&◌, ◌||◌, Option, none, some, List, [], ◌∷◌, arith,
}

pub data TrustErrorCode : Type 0 where
  workspace_mismatch invalid_current_revision invalid_parent_revision : TrustErrorCode
  base_revision_conflict invalid_revision_number blob_hash_invalid : TrustErrorCode
  blob_encryption_metadata_invalid retention_policy_invalid : TrustErrorCode
  purge_not_implemented retention_prevents_purge : TrustErrorCode

abbrev pub Checked : Type 0
Checked = Result TrustErrorCode (Unit {0})

pub assert_blob_hash : String → Checked
assert_blob_hash sha256 = throw_if (not (is_hex_text 64 sha256)) blob_hash_invalid

-- The pattern of a secret, without regard to case: one of the keywords, white space, and `:` or `=`.
abbrev lower : ℕ → ℕ
lower c = if leb b'A' c && leb c b'Z' then c + 32 else c

after_keyword : List ℕ → List ℕ → Option (List ℕ)
after_keyword [] text = some text
after_keyword (k ∷ ks) [] = none
after_keyword (k ∷ ks) (c ∷ text) = if nat_eq (lower c) k then after_keyword ks text else none

assigns : List ℕ → Bool
assigns [] = false
assigns (c ∷ text) = nat_eq c b':' || nat_eq c b'=' || is_space c && assigns text

abbrev keywords : List (List ℕ)
keywords =
    codes "secret"
    ∷ codes "password"
    ∷ codes "privatekey"
    ∷ codes "private_key"
    ∷ codes "private-key"
    ∷ []

keyword_assigns : List ℕ → List ℕ → Bool
unfolding after_keyword assigns
keyword_assigns keyword text = elim (after_keyword keyword text) [
  | none ↦ false
  | some rest ↦ assigns rest
]

holds_secret : List ℕ → Bool
unfolding keyword_assigns
holds_secret [] = false
holds_secret (c ∷ text) = any (λ k. keyword_assigns k (c ∷ text)) keywords || holds_secret text

abbrev blank_or_null : Option String → Bool
blank_or_null none = true
blank_or_null (some s) = is_blank s

abbrev is_customer_managed : EncryptionState → Bool
is_customer_managed provider_managed = false
is_customer_managed customer_managed = true

abbrev key_holds_secret : Option String → Bool
key_holds_secret none = false
key_holds_secret (some s) = holds_secret (codes s)

pub assert_blob_encryption_metadata : EncryptionState → Option String → Checked
unfolding holds_secret
assert_blob_encryption_metadata state key_ref = do
  throw_if (is_customer_managed state && blank_or_null key_ref) blob_encryption_metadata_invalid
  throw_if (key_holds_secret key_ref) blob_encryption_metadata_invalid

-- `Number.isSafeInteger(value) && value >= 0 && value <= 36500`.
is_day_count : JsNumber → Bool
is_day_count (whole (pos n)) = leb n 9007199254740991 && leb n 36500
is_day_count (whole (negsuc n)) = false
is_day_count not_whole = false

pub assert_retention_policy : RetentionPolicy → Checked
assert_retention_policy p = do
  throw_if (is_blank p.name) retention_policy_invalid
  throw_if (not (is_day_count p.recovery_window_days)) retention_policy_invalid
  throw_if (not (is_day_count p.minimum_history_days)) retention_policy_invalid
  throw_if (not (is_day_count p.backup_retention_days)) retention_policy_invalid
  throw_if p.purge_enabled purge_not_implemented

module _ {P : Type 0} where
  pub assert_resource_current_revision : Resource → Revision P → Checked
  assert_resource_current_revision resource revision = do
    throw_if
        (not (resource.workspace_id == revision.workspace_id)
          || not (resource.dataset_id == revision.dataset_id))
        workspace_mismatch
    throw_if
        (not (resource.id == revision.resource_id)
          || not (resource.current_revision_id == some revision.id))
        invalid_current_revision

  -- The checks of a revision that is proposed on top of the current one.
  abbrev follows : Resource → Option (Revision P) → Revision P → Checked
  follows resource none proposed =
      throw_if (not (proposed.parent_revision_id == none) || not (proposed.revision_number == 1))
        invalid_revision_number
  follows resource (some current) proposed = do
    throw_if (not (resource.current_revision_id == some current.id)) invalid_current_revision
    throw_if (not (proposed.parent_revision_id == some current.id)) base_revision_conflict
    throw_if (not (proposed.revision_number == current.revision_number + 1)) invalid_revision_number

  unfoldable pub assert_next_revision : Resource → Option (Revision P) → Revision P → Checked
  assert_next_revision resource current proposed = do
    throw_if
        (not (proposed.resource_id == resource.id)
          || not (proposed.workspace_id == resource.workspace_id)
          || not (proposed.dataset_id == resource.dataset_id))
        workspace_mismatch
    follows resource current proposed
