-- ===== src/Storage/Multipart.antt =====
-- The multipart uploads of packages/storage/src/memory-object-storage.ts. The reference and the
-- instants that a call draws are its arguments.
pub mod Targets
pub mod Retries
use trust_core.Common.{
  or_default, leb, nat_eq, if◌then◌else◌, ◌==◌, string_eq, number_eq, option_eq, length, all, find,
  lookup, insert, ℕ, suc, String, Bool, true, false, not, ◌&&◌, Option, none, some, List, [], ◌∷◌,
  ◌++◌,
}
use trust_core.Common.Effect.{require, found, ◌>>=◌, ◌>>◌, pure, throw, modify, read}
use trust_core.Storage.{
  ObjectLocator, ObjectMetadata, storage, conflict, not_found, invalid_request,
}
use trust_core.Storage.Memory.{
  Mem, MemoryMultipartSession, MultipartUploadSession, MultipartUploadedPart, SessionStatus,
  initiated, uploading, completed, aborted, StoredBytes, assert_temporary_key, assert_media_type,
  max_safe_integer, described, required, put_object,
}

-- `MULTIPART_PROVIDER_LIMITS`.
abbrev pub min_part_size : ℕ
min_part_size = 5242880

abbrev pub max_part_size : ℕ
max_part_size = 5368709120

abbrev pub max_parts : ℕ
max_parts = 10000

pub record InitiateInput : Type 0 where
  pub upload_id : String
  pub locator : ObjectLocator
  pub media_type : String
  pub part_size : ℕ
  pub expected_byte_length : Option ℕ
  pub expected_sha256 : Option String
  pub expires_at : Option String

-- What names an upload in the later calls.
pub record UploadRef : Type 0 where
  pub upload_id : String
  pub locator : ObjectLocator
  pub provider_upload_ref : String

abbrev pub set_session : String → MemoryMultipartSession → Mem (Unit {0})
set_session id s = modify λ m. record m { multipart = insert id s m.multipart }

abbrev pub same_target : MemoryMultipartSession → UploadRef → Bool
same_target s u =
    s.session.locator.key == u.locator.key && s.session.provider_upload_ref == u.provider_upload_ref

abbrev pub required_multipart : UploadRef → Mem MemoryMultipartSession
required_multipart u = do
  kept ← read (λ m. lookup u.upload_id m.multipart)
  state ← found kept (storage not_found)
  require (same_target state u) (storage conflict)
  pure state

abbrev pub new_session : String → String → String → InitiateInput → MultipartUploadSession
new_session ref created_at day_later i = record {
  upload_id = i.upload_id;
  provider_upload_ref = ref;
  locator = i.locator;
  media_type = i.media_type;
  part_size = i.part_size;
  expected_byte_length = i.expected_byte_length;
  expected_sha256 = i.expected_sha256;
  status = initiated;
  parts = [];
  created_at = created_at;
  expires_at = or_default day_later i.expires_at;
}

abbrev pub initiate_found :
    String
    → String
    → String
    → InitiateInput
    → Option MemoryMultipartSession
    → Mem MultipartUploadSession
initiate_found ref created_at day_later i none = do
  set_session i.upload_id
      (record { session = new_session ref created_at day_later i; part_bodies = [] })
  pure (new_session ref created_at day_later i)
initiate_found ref created_at day_later i (some s) = do
  require
      (s.session.locator.key == i.locator.key
        && s.session.media_type == i.media_type
        && s.session.part_size == i.part_size)
      (storage conflict)
  pure s.session

unfoldable pub initiate_multipart_upload :
    (relaxed : Bool) (ref created_at day_later : String)
    → InitiateInput
    → Mem MultipartUploadSession
initiate_multipart_upload relaxed ref created_at day_later i = do
  assert_temporary_key i.locator.key
  assert_media_type i.media_type
  require
      (leb i.part_size max_safe_integer
        && leb (if relaxed then 1 else min_part_size) i.part_size
        && leb i.part_size max_part_size)
      (storage invalid_request)
  existing ← read (λ m. lookup i.upload_id m.multipart)
  initiate_found ref created_at day_later i existing

unfoldable pub list_multipart_parts : UploadRef → Mem (List MultipartUploadedPart)
list_multipart_parts u = do state ← required_multipart u; pure state.session.parts

-- `sort((a, b) => a.partNumber - b.partNumber)`, which is stable.
unfoldable pub place_part :
    MultipartUploadedPart → List MultipartUploadedPart → List MultipartUploadedPart
place_part p [] = p ∷ []
place_part p (q ∷ rest) =
    if leb p.part_number q.part_number then p ∷ q ∷ rest else q ∷ place_part p rest

unfoldable pub sort_parts : List MultipartUploadedPart → List MultipartUploadedPart
unfolding place_part
sort_parts [] = []
sort_parts (p ∷ rest) = place_part p (sort_parts rest)

-- `Map<number, Buffer>`.
abbrev pub body_of : ℕ → List (ℕ × List ℕ) → Option (List ℕ)
body_of n [] = none
body_of n ((k, b) ∷ bodies) = if nat_eq k n then some b else body_of n bodies

abbrev pub is_part : ℕ → MultipartUploadedPart → Bool
is_part n p = nat_eq p.part_number n

abbrev pub is_closed : SessionStatus → Bool
is_closed completed = true
is_closed aborted = true
is_closed _ = false

abbrev pub with_part :
    MemoryMultipartSession → MultipartUploadedPart → List ℕ → MemoryMultipartSession
with_part s p body = record {
  session = record s.session { status = uploading; parts = sort_parts (s.session.parts ++ p ∷ []) };
  part_bodies = (p.part_number, body) ∷ s.part_bodies;
}

-- The part's number is taken or free.
abbrev pub upload_found :
    UploadRef
    → MemoryMultipartSession
    → MultipartUploadedPart
    → List ℕ
    → Option MultipartUploadedPart
    → Mem MultipartUploadedPart
upload_found u s p body none = do set_session u.upload_id (with_part s p body); pure p
upload_found u s p body (some q) = do
  require (q.etag == p.etag && q.size == p.size) (storage conflict)
  pure q

module _ (etag_of : List ℕ → String) where
  abbrev pub new_part : ℕ → List ℕ → MultipartUploadedPart
  new_part part_number body = record {
    part_number = part_number;
    etag = etag_of body;
    size = length body;
  }

  unfoldable pub upload_multipart_part :
      UploadRef → (part_number : ℕ) (body : List ℕ) (size : ℕ) → Mem MultipartUploadedPart
  unfolding sort_parts
  upload_multipart_part u part_number body size = do
    state ← required_multipart u
    require (not (is_closed state.session.status)) (storage invalid_request)
    require (leb 1 part_number && leb part_number max_parts) (storage invalid_request)
    require (length body == size) (storage invalid_request)
    require (leb (length body) max_part_size) (storage invalid_request)
    upload_found u state (new_part part_number body) body
        (find (is_part part_number) state.session.parts)

pub record CompleteInput : Type 0 where
  pub upload : UploadRef
  pub parts : List MultipartUploadedPart
  pub expected_byte_length : ℕ
  pub expected_sha256 : String

abbrev pub finished_session : MemoryMultipartSession → CompleteInput → MemoryMultipartSession
finished_session s c = record s {
  session = record s.session { status = completed; parts = sort_parts c.parts };
}

abbrev pub aborted_session : MemoryMultipartSession → MemoryMultipartSession
aborted_session s = record {
  session = record s.session { status = aborted; parts = [] };
  part_bodies = [];
}

abbrev pub same_part : MultipartUploadedPart → Option MultipartUploadedPart → Bool
same_part p none = false
same_part p (some q) = q.etag == p.etag && q.size == p.size

-- The numbers n, n + 1, … in their order.
abbrev pub is_run : ℕ → List MultipartUploadedPart → Bool
is_run n [] = true
is_run n (p ∷ rest) = nat_eq p.part_number n && is_run (suc n) rest

-- `new Map(recorded.map(…))`: of two records with one number the last stays.
abbrev pub recorded_part : ℕ → List MultipartUploadedPart → Option MultipartUploadedPart
recorded_part n [] = none
recorded_part n (p ∷ rest) = elim (recorded_part n rest) [
  | some q ↦ some q
  | none ↦ if is_part n p then some p else none
]

unfoldable pub reconcile_parts :
    List MultipartUploadedPart → List MultipartUploadedPart → Mem (Unit {0})
reconcile_parts recorded declared = do
  require (length recorded == length declared) (storage invalid_request)
  require (all (λ p. same_part p (recorded_part p.part_number recorded)) declared)
      (storage invalid_request)
  require (is_run 1 (sort_parts declared)) (storage invalid_request)

-- The bodies of the parts in their order.
abbrev pub gather : List (ℕ × List ℕ) → List MultipartUploadedPart → Option (List ℕ)
gather bodies [] = some []
gather bodies (p ∷ rest) = elim (body_of p.part_number bodies) [
  | none ↦ none
  | some body ↦ elim (gather bodies rest) [ none ↦ none | some more ↦ some (body ++ more) ]
]

module _ (sha256 : List ℕ → String) where
  abbrev pub declared_object : StoredBytes → CompleteInput → Bool
  declared_object o c = o.sha256 == c.expected_sha256 && length o.body == c.expected_byte_length

  abbrev pub complete_again : CompleteInput → Mem ObjectMetadata
  complete_again c = do
    object ← required c.upload.locator.key
    require (declared_object object c) (storage conflict)
    pure (described c.upload.locator.key object)

  abbrev pub assembled_object : MemoryMultipartSession → List ℕ → StoredBytes
  assembled_object s body = record {
    body = body;
    media_type = s.session.media_type;
    sha256 = sha256 body;
  }

  abbrev pub complete_first : CompleteInput → MemoryMultipartSession → Mem ObjectMetadata
  complete_first c s = do
    reconcile_parts s.session.parts c.parts
    assembled ← found (gather s.part_bodies (sort_parts c.parts)) (storage invalid_request)
    require (declared_object (assembled_object s assembled) c) (storage invalid_request)
    put_object c.upload.locator.key (assembled_object s assembled)
    set_session c.upload.upload_id (finished_session s c)
    pure (described c.upload.locator.key (assembled_object s assembled))

  abbrev pub complete_found :
      CompleteInput → MemoryMultipartSession → SessionStatus → Mem ObjectMetadata
  complete_found c s aborted = throw (storage invalid_request)
  complete_found c s completed = complete_again c
  complete_found c s initiated = complete_first c s
  complete_found c s uploading = complete_first c s

  unfoldable pub complete_multipart_upload : CompleteInput → Mem ObjectMetadata
  unfolding reconcile_parts sort_parts
  complete_multipart_upload c = do
    state ← required_multipart c.upload
    complete_found c state state.session.status

abbrev pub abort_found : UploadRef → Option MemoryMultipartSession → Mem (Unit {0})
abort_found u none = pure tt
abort_found u (some s) = do
  require (same_target s u) (storage conflict)
  set_session u.upload_id (aborted_session s)

unfoldable pub abort_multipart_upload : UploadRef → Mem (Unit {0})
abort_multipart_upload u = do
  existing ← read (λ m. lookup u.upload_id m.multipart)
  abort_found u existing
