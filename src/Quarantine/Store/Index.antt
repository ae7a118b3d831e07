-- ===== src/Quarantine/Store/Index.antt =====
-- The index that packages/operations/src/quarantine-scan-store.ts keeps: a record stands under its
-- own job id, an upload has one record, and a record's identity never changes.
use trust_core.Common.{
  Result-cases, inl, inr, err, ok, ◌∙◌, sym, Option-cases, lookup-insert, lookup-insert_self,
  eq_iff, insert, ◌≢◌, eq_iff, string_eq, number_eq, option_eq, All, err, lookup, insert, String,
  ◌≡◌, refl, ◌≢◌, false, none, some, [], ◌∷◌, arith,
}
use trust_core.Quarantine.Store.{
  QuarantineScanRecord, QuarantineScanConflict, ScanStore, get_by_upload_id, save, is_upload,
  get_by_scan_job_id,
}

abbrev IsKeyed : String × QuarantineScanRecord → Type 0
IsKeyed p = p.1.scan_job_id ≡ p.0

-- A record stands under its own job id, and no two records are of one upload.
pub record IsIndexed (m : ScanStore) : Type 0 where
  pub keyed : All IsKeyed m
  pub unique :
      (i j : String) (r s : QuarantineScanRecord)
      → lookup i m ≡ some r
      → lookup j m ≡ some s
      → r.workspace_id ≡ s.workspace_id
      → r.upload_id ≡ s.upload_id
      → i ≡ j

IsKeyed-lookup :
    (m : ScanStore) (j : String) (r : QuarantineScanRecord)
    → All IsKeyed m
    → lookup j m ≡ some r
    → r.scan_job_id ≡ j
unfolding lookup
IsKeyed-lookup [] j r k h = cc
IsKeyed-lookup ((i, s) ∷ m) j r k h = ground (arith, eq_iff i j, IsKeyed-lookup m j r k.1)

IsKeyed-insert :
    (m : ScanStore) (r : QuarantineScanRecord)
    → All IsKeyed m
    → All IsKeyed (insert r.scan_job_id r m)
unfolding insert
IsKeyed-insert [] r k = (refl, tt)
IsKeyed-insert ((i, s) ∷ m) r k = ground (arith, eq_iff i r.scan_job_id, IsKeyed-insert m r k.1)

-- A record that the upload's search passes over is not of that upload.
no_upload :
    (m : ScanStore) (w u j : String) (r : QuarantineScanRecord)
    → get_by_upload_id w u m ≡ none
    → lookup j m ≡ some r
    → is_upload w u r ≡ false
unfolding get_by_upload_id lookup
no_upload [] w u j r f h = cc
no_upload ((i, s) ∷ m) w u j r f h = ground (arith, no_upload m w u j r)

-- What the upload's search finds stands under its own job id.
upload_found :
    (m : ScanStore) (w u : String) (r : QuarantineScanRecord)
    → All IsKeyed m
    → get_by_upload_id w u m ≡ some r
    → (lookup r.scan_job_id m ≢ none)
unfolding get_by_upload_id lookup
upload_found [] w u r k f = cc
upload_found ((i, s) ∷ m) w u r k f =
    ground (arith, eq_iff i r.scan_job_id, upload_found m w u r k.1)

-- A refused write changes nothing.
pub save_refused :
    (r : QuarantineScanRecord) (m : ScanStore) (e : QuarantineScanConflict)
    → (save r m).1 ≡ err e
    → (save r m).0 ≡ m
unfolding save
save_refused r m e h = ground arith

module _ (r : QuarantineScanRecord) (m : ScanStore) where
  -- What an accepted write has checked.
  record IsAllowed : Type 0 where
    written : (save r m).0 ≡ insert r.scan_job_id r m
    same_upload :
        (s : QuarantineScanRecord)
        → lookup r.scan_job_id m ≡ some s
        → (s.workspace_id ≡ r.workspace_id)
          × (s.upload_id ≡ r.upload_id)
          × (s.storage_key ≡ r.storage_key)
          × (s.created_at ≡ r.created_at)
    same_job :
        (j : String) (s : QuarantineScanRecord)
        → lookup j m ≡ some s
        → s.workspace_id ≡ r.workspace_id
        → s.upload_id ≡ r.upload_id
        → j ≡ r.scan_job_id

  module _ (v : IsIndexed m) (h : (save r m).1 ≡ ok tt) where
    allowed_update : (old : QuarantineScanRecord) → lookup r.scan_job_id m ≡ some old → IsAllowed
    unfolding save
    allowed_update old found =
        let facts : (old.workspace_id ≡ r.workspace_id)
            × (old.upload_id ≡ r.upload_id)
            × (old.storage_key ≡ r.storage_key)
            × (old.created_at ≡ r.created_at) =
          ground (
            arith,
            found,
            eq_iff old.workspace_id r.workspace_id,
            eq_iff old.upload_id r.upload_id,
            eq_iff old.storage_key r.storage_key,
            eq_iff old.created_at r.created_at,
          ) in
        record {
          written = ground (arith, found);
          same_upload = λ s e. ground (arith, found, facts);
          same_job = λ j s e w u.
              v.unique j r.scan_job_id s old e found (w ∙ sym facts.0) (u ∙ sym facts.1);
        }

    allowed_insert :
        lookup r.scan_job_id m ≡ none
        → get_by_upload_id r.workspace_id r.upload_id m ≡ none
        → IsAllowed
    unfolding save
    allowed_insert fresh alone = record {
      written = ground (arith, fresh, alone);
      same_upload = λ s e. cc;
      same_job = λ j s e w u. ground (
        arith,
        no_upload m r.workspace_id r.upload_id j s alone e,
        eq_iff s.workspace_id r.workspace_id,
        eq_iff s.upload_id r.upload_id,
      );
    }

    -- The job id that an upload has is the job id of its record, so it is not fresh.
    not_allowed :
        (s : QuarantineScanRecord)
        → lookup r.scan_job_id m ≡ none
        → get_by_upload_id r.workspace_id r.upload_id m ≡ some s
        → IsAllowed
    unfolding save
    not_allowed s fresh found = absurd (
        ground (
          arith,
          fresh,
          found,
          eq_iff s.scan_job_id r.scan_job_id,
          upload_found m r.workspace_id r.upload_id s v.keyed found,
        ))

    save-IsAllowed : IsAllowed
    save-IsAllowed = elim (Option-cases (lookup r.scan_job_id m)) [
      | inr (old, found) ↦ allowed_update old found
      | inl fresh ↦ elim (Option-cases (get_by_upload_id r.workspace_id r.upload_id m)) [
        | inl alone ↦ allowed_insert fresh alone
        | inr (s, found) ↦ not_allowed s fresh found
      ]
    ]

    insert_unique :
        IsAllowed
        → (i j : String) (s t : QuarantineScanRecord) → lookup i (insert r.scan_job_id r m) ≡ some s
        → lookup j (insert r.scan_job_id r m) ≡ some t
        → s.workspace_id ≡ t.workspace_id
        → s.upload_id ≡ t.upload_id
        → i ≡ j
    insert_unique a i j s t hs ht w u = ground (
      arith,
      lookup-insert r.scan_job_id i r m,
      lookup-insert r.scan_job_id j r m,
      eq_iff r.scan_job_id i,
      eq_iff r.scan_job_id j,
      a.same_job i s,
      a.same_job j t,
      v.unique i j s t,
    )

    accepted-IsIndexed : IsIndexed (save r m).0
    accepted-IsIndexed =
        let a = save-IsAllowed in
        rw a.written (record { keyed = IsKeyed-insert m r v.keyed; unique = insert_unique a })

-- A write to an indexed store, accepted or refused, leaves it indexed: every record stands under
-- its own job id, and no two records are of one upload of one workspace.
pub save-IsIndexed :
    (r : QuarantineScanRecord) (m : ScanStore) → IsIndexed m → IsIndexed (save r m).0
save-IsIndexed r m v = elim (Result-cases (save r m).1) [
  | inl (u, done) ↦ accepted-IsIndexed r m v done
  | inr (e, refused) ↦ rw (save_refused r m e refused) v
]

-- An accepted write to an indexed store is read back under its job id in its workspace and leaves
-- every other job's record alone; a record that it replaces has the same workspace, upload,
-- storage key and time of creation.
pub save-lookup :
    (r : QuarantineScanRecord) (m : ScanStore)
    → IsIndexed m
    → (save r m).1 ≡ ok tt
    → (get_by_scan_job_id r.workspace_id r.scan_job_id (save r m).0 ≡ some r)
      × ((j : String) → j ≢ r.scan_job_id → lookup j (save r m).0 ≡ lookup j m)
      × ((s : QuarantineScanRecord)
          → lookup r.scan_job_id m ≡ some s
          → (s.workspace_id ≡ r.workspace_id)
            × (s.upload_id ≡ r.upload_id)
            × (s.storage_key ≡ r.storage_key)
            × (s.created_at ≡ r.created_at))
unfolding get_by_scan_job_id
save-lookup r m v h =
    let a = save-IsAllowed r m v h in
    (
      rw (a.written, lookup-insert_self r.scan_job_id r m)
          (ground (arith, eq_iff r.workspace_id r.workspace_id)),
      λ j other.
          rw a.written (ground (arith, lookup-insert r.scan_job_id j r m, eq_iff r.scan_job_id j)),
      a.same_upload,
    )

-- A record whose identity is that of the stored one under its job id is written.
pub save_update :
    (r old : QuarantineScanRecord) (m : ScanStore)
    → lookup r.scan_job_id m ≡ some old
    → old.workspace_id ≡ r.workspace_id
    → old.upload_id ≡ r.upload_id
    → old.storage_key ≡ r.storage_key
    → old.created_at ≡ r.created_at
    → save r m ≡ (insert r.scan_job_id r m, ok tt)
unfolding save
save_update r old m found w u k t = ground (
  arith,
  found,
  eq_iff old.workspace_id r.workspace_id,
  eq_iff old.upload_id r.upload_id,
  eq_iff old.storage_key r.storage_key,
  eq_iff old.created_at r.created_at,
)

-- What is read by job id stands under that job id, which is its own.
pub get_found :
    (w j : String) (r : QuarantineScanRecord) (m : ScanStore)
    → IsIndexed m
    → get_by_scan_job_id w j m ≡ some r
    → (lookup j m ≡ some r) × (r.workspace_id ≡ w) × (r.scan_job_id ≡ j)
unfolding get_by_scan_job_id
get_found w j r m v h = elim (Option-cases (lookup j m)) [
  | inl missing ↦ ground (arith, missing)
  | inr (s, found) ↦
      ground (arith, found, eq_iff s.workspace_id w, IsKeyed-lookup m j s v.keyed found)
]
