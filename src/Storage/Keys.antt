-- ===== src/Storage/Keys.antt =====
-- packages/storage/src/keys.ts, and the pattern by which packages/storage/src/memory-object-storage.ts
-- tells the temporary keys.
pub mod Apart
pub mod Unique
use trust_core.Common.{
  after_prefix, starts_with, contains, is_truthy, ltb, leb, nat_eq, if◌then◌else◌, nat_eq_iff,
  Bool-cases, Option-cases, Eq, ◌==◌, eq_iff, string_eq, number_eq, option_beq, option_beq_iff,
  option_eq, discrete_beq, discrete_beq_iff, discrete_eq, length, length-append, any, all, find,
  keep, find-keep, find-append, find-Any, Any-find, find-Mem, Any-map, All, Any, includes, codes,
  is_space, is_blank, is_empty, is_hex, is_hex_text, Result, ok, err, ◌>>=◌, ◌>>◌, throw_if,
  Result-cases, >>=-eq-ok, Dict, lookup, insert, delete, values, lookup-insert, lookup-delete,
  lookup-insert_self, ℕ, zero, suc, ◌+◌, ◌-◌, ◌*◌, ◌/◌, ◌%◌, ◌^◌, ◌≤◌, ◌<◌, String, ◌≡◌, refl, sym,
  ap, ◌∙◌, ◌≢◌, ◌↔◌, ◌⊎◌, inl, inr, Bool, true, false, not, ◌&&◌, ◌||◌, Option, none, some, List,
  [], ◌∷◌, ◌++◌, map, arith,
}
use Prim.Native.String.{◌++◌ as text_append}
use trust_core.Storage.{StorageError, unsafe_identifier, invalid_sha256}

-- [A-Za-z0-9_-]
pub is_safe : ℕ → Bool
is_safe c =
    (leb b'A' c && leb c b'Z')
    || (leb b'a' c && leb c b'z')
    || (leb b'0' c && leb c b'9')
    || nat_eq c b'_'
    || nat_eq c b'-'

abbrev pub is_safe_list : List ℕ → Bool
is_safe_list [] = false
is_safe_list (c ∷ cs) = all is_safe (c ∷ cs)

-- /^[A-Za-z0-9_-]+$/
unfoldable pub is_safe_id : String → Bool
unfolding is_safe
is_safe_id s = is_safe_list (codes s)

-- The longest safe start of a text, and the rest.
pub span_safe : List ℕ → List ℕ × List ℕ
span_safe [] = ([], [])
span_safe (c ∷ cs) =
    let (front, rest) = span_safe cs in if is_safe c then (c ∷ front, rest) else ([], c ∷ cs)

abbrev is_some_safe : Option (List ℕ) → Bool
is_some_safe none = false
is_some_safe (some cs) = is_safe_list cs

abbrev is_workspace_path : List ℕ × List ℕ → Bool
is_workspace_path ([], rest) = false
is_workspace_path (c ∷ front, rest) = is_some_safe (after_prefix (codes "/temporary/") rest)

abbrev is_temporary_path : Option (List ℕ) → Bool
is_temporary_path none = false
is_temporary_path (some rest) = is_workspace_path (span_safe rest)

-- /^workspaces\/[A-Za-z0-9_-]+\/temporary\/[A-Za-z0-9_-]+$/
unfoldable pub is_temporary_key : String → Bool
unfolding span_safe
is_temporary_key key = is_temporary_path (after_prefix (codes "workspaces/") (codes key))

-- `slice(0, 2)`.
abbrev pub first_two : String → String
first_two (String.◌∷◌ a (String.◌∷◌ b s)) = String.◌∷◌ a (String.◌∷◌ b String.[])
first_two s = s

-- `objects/ab/abcd…`
abbrev object_path : String → String
object_path sha256 =
    text_append "objects/" (text_append (first_two sha256) (text_append "/" sha256))

unfoldable pub canonical_object_key : String → String → Result StorageError String
canonical_object_key workspace_id sha256 = do
  throw_if (not (is_safe_id workspace_id)) unsafe_identifier
  throw_if (not (is_hex_text 64 sha256)) invalid_sha256
  ok (text_append "workspaces/" (text_append workspace_id (text_append "/" (object_path sha256))))

unfoldable pub temporary_object_key : String → String → Result StorageError String
temporary_object_key workspace_id operation_id = do
  throw_if (not (is_safe_id workspace_id) || not (is_safe_id operation_id)) unsafe_identifier
  ok (text_append "workspaces/" (text_append workspace_id (text_append "/temporary/" operation_id)))

-- The path of a tenant's object below the bucket or the workspace.
abbrev tenant_path : String → String → String → String
tenant_path application_id tenant_key sha256 = text_append "apps/" (
    text_append application_id
      (text_append "/tenants/" (text_append tenant_key (text_append "/" (object_path sha256)))))

pub canonical_app_tenant_pool_object_key :
    (workspace_id application_id tenant_key sha256 : String) → Result StorageError String
canonical_app_tenant_pool_object_key workspace_id application_id tenant_key sha256 = do
  throw_if
      (not (is_safe_id workspace_id)
        || not (is_safe_id application_id)
        || not (is_safe_id tenant_key))
      unsafe_identifier
  throw_if (not (is_hex_text 64 sha256)) invalid_sha256
  ok (
      text_append "workspaces/"
        (text_append workspace_id (text_append "/" (tenant_path application_id tenant_key sha256))))

pub canonical_app_tenant_silo_object_key :
    (application_id tenant_key sha256 : String) → Result StorageError String
canonical_app_tenant_silo_object_key application_id tenant_key sha256 = do
  throw_if (not (is_safe_id application_id) || not (is_safe_id tenant_key)) unsafe_identifier
  throw_if (not (is_hex_text 64 sha256)) invalid_sha256
  ok (tenant_path application_id tenant_key sha256)
