-- ===== src/Promotion.antt =====
-- packages/operations/src/promote-quarantine.ts, over any storage with the interface of
-- packages/storage/src/types.ts: `S` is the storage's state, and each of its calls may throw.
pub mod Declared
mod Examples
use trust_core.Common.{
  after_prefix, starts_with, contains, is_truthy, ltb, leb, nat_eq, if◌then◌else◌, nat_eq_iff,
  Bool-cases, Option-cases, Eq, ◌==◌, eq_iff, string_eq, number_eq, option_beq, option_beq_iff,
  option_eq, discrete_beq, discrete_beq_iff, discrete_eq, length, length-append, any, all, find,
  keep, find-keep, find-append, find-Any, Any-find, find-Mem, Any-map, All, Any, includes, codes,
  is_space, is_blank, is_empty, is_hex, is_hex_text, Result, ok, err, throw_if, Result-cases,
  >>=-eq-ok, Dict, lookup, insert, delete, values, lookup-insert, lookup-delete, lookup-insert_self,
  ℕ, zero, suc, ◌+◌, ◌-◌, ◌*◌, ◌/◌, ◌%◌, ◌^◌, ◌≤◌, ◌<◌, String, ◌≡◌, refl, sym, ap, ◌∙◌, ◌≢◌, ◌↔◌,
  ◌⊎◌, inl, inr, Bool, true, false, not, ◌&&◌, ◌||◌, Option, none, some, List, [], ◌∷◌, ◌++◌, map,
  arith,
}
use trust_core.Common.Effect.{
  require, found, run-cases, M, continue, ◌>>=◌, ◌>>◌, pure, throw, lift, modify, read,
}
use trust_core.Storage.{
  ObjectLocator, ObjectMetadata, CommitInput, ObjectStorage, StorageError, storage, conflict,
  not_found, invalid_request,
}
use trust_core.Quarantine.States.{ScanState, accepted, promotion_pending, scan_state_eq}

pub record PromoteQuarantineInput : Type 0 where
  pub workspace_id : String
  pub quarantine : ObjectLocator
  pub canonical : ObjectLocator
  pub sha256 : String
  pub byte_length : ℕ
  pub media_type : String
  pub scan_state : ScanState

pub is_temporary : ObjectLocator → Bool
unfolding contains
is_temporary l = contains (codes "/temporary/") (codes l.key)

abbrev pub agrees : ObjectMetadata → PromoteQuarantineInput → Bool
agrees m input = m.byte_length == input.byte_length && m.sha256 == some input.sha256

module _ {S : Type 0} (objects : ObjectStorage S) where
  abbrev pub P : Type 0 → Type 0
  P A = M S StorageError A

  -- The canonical object exists already.
  pub promoted_before : PromoteQuarantineInput → P ObjectMetadata
  promoted_before input = do
    existing ← objects.head input.canonical
    require (agrees existing input) (storage conflict)
    pure existing

  -- The canonical object does not exist yet.
  pub promote_fresh : PromoteQuarantineInput → P ObjectMetadata
  promote_fresh input = do
    present ← objects.exists input.quarantine
    require present (storage not_found)
    head ← objects.head input.quarantine
    require
        (not (
          not (head.byte_length == input.byte_length)
          || is_truthy head.sha256 && not (head.sha256 == some input.sha256)))
        (storage invalid_request)
    require (is_temporary input.quarantine) (storage invalid_request)
    committed ← objects.commit_immutable (record {
      temporary = input.quarantine;
      workspace_id = input.workspace_id;
      sha256 = input.sha256;
      byte_length = input.byte_length;
      media_type = input.media_type;
    })
    require (agrees committed input) (storage conflict)
    pure committed

  pub promote_quarantine_object : PromoteQuarantineInput → P ObjectMetadata
  promote_quarantine_object input = do
    require (input.scan_state == accepted || input.scan_state == promotion_pending)
        (storage invalid_request)
    there ← objects.exists input.canonical
    let before = promoted_before input
    let fresh = promote_fresh input
    (if there then before else fresh)
