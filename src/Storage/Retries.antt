-- ===== src/Storage/Retries.antt =====
-- A commit, and the completion of an upload, of packages/storage/src/memory-object-storage.ts that are
-- done again.
use trust_core.Common.{
  leb, Bool-cases, ◌==◌, eq_iff, string_eq, number_eq, option_eq, is_blank, ok, Result-cases, Dict,
  lookup, insert, delete, lookup-delete, lookup-insert_self, String, ◌≡◌, refl, sym, ap, ◌∙◌, inl,
  inr, true, false, not, ◌&&◌, Option, none, some, arith,
}
use trust_core.Storage.{CommitInput, ObjectMetadata}
use trust_core.Storage.Keys.{is_temporary_key, canonical_object_key}
use trust_core.Storage.Keys.Apart.{canonical_object_key_apart}
use trust_core.Storage.Memory.{
  MemoryStorage, StoredBytes, commit_immutable, commit_found, declares, described, max_safe_integer,
}

-- The commit has passed its guards, and goes on with what the two keys hold.
commit_reaches :
    (c : CommitInput) (m m' : MemoryStorage) (md : ObjectMetadata)
    → commit_immutable c m ≡ (m', ok md)
    → (k : String) × (canonical_object_key c.workspace_id c.sha256 ≡ ok k)
      × (is_temporary_key c.temporary.key ≡ true)
      × (((x : MemoryStorage)
          → commit_immutable c x
            ≡ commit_found k c (lookup c.temporary.key x.objects) (lookup k x.objects) x))
unfolding commit_immutable
commit_reaches c m m' md h =
    elim (Bool-cases (
      is_temporary_key c.temporary.key
      && leb c.byte_length max_safe_integer
      && not (is_blank c.media_type))) [
        | inr bad ↦ ground (arith, bad, h)
        | inl is ↦ elim (Result-cases (canonical_object_key c.workspace_id c.sha256)) [
          | inr (e, bad) ↦ ground (arith, is, bad, h)
          | inl (k, key) ↦ (k, key, ground (arith, is), λ x. ground (arith, is, key))
        ]
      ]

-- What a commit has left: the canonical key holds an object of the declared digest and length, which
-- is described, and the temporary key holds nothing.
abbrev pub IsCommitted : CommitInput → String → MemoryStorage → ObjectMetadata → Type 0
IsCommitted c k m' md =
    (o : StoredBytes) × (lookup k m'.objects ≡ some o)
    × (declares o c ≡ true)
    × (md ≡ described k o)
    × (lookup c.temporary.key m'.objects ≡ none)

module _ (c : CommitInput) (k : String) (m : MemoryStorage) where
  moved_away :
      (objects : Dict StoredBytes) → lookup c.temporary.key (delete c.temporary.key objects) ≡ none
  moved_away objects = ground (
    arith,
    lookup-delete c.temporary.key c.temporary.key objects,
    eq_iff c.temporary.key c.temporary.key,
  )

  commit_found-IsCommitted :
      (temporary existing : Option StoredBytes) (m' : MemoryStorage) (md : ObjectMetadata)
      → (c.temporary.key == k) ≡ false
      → lookup c.temporary.key m.objects ≡ temporary
      → lookup k m.objects ≡ existing
      → commit_found k c temporary existing m ≡ (m', ok md)
      → IsCommitted c k m' md
  commit_found-IsCommitted none none m' md apart gone free h = cc
  commit_found-IsCommitted none (some e) m' md apart gone taken h =
      (e, ground (arith, h), ground (arith, h), ground (arith, h), ground (arith, h))
  commit_found-IsCommitted (some o) none m' md apart there free h =
      let objects = insert k o m.objects in
      (
        o,
        ground
            (arith, h, lookup-delete c.temporary.key k objects, lookup-insert_self k o m.objects),
        ground (arith, h),
        ground (arith, h),
        ground (arith, h, moved_away objects),
      )
  commit_found-IsCommitted (some o) (some e) m' md apart there taken h = (
    e,
    ground (arith, h, lookup-delete c.temporary.key k m.objects),
    ground (arith, h),
    ground (arith, h),
    ground (arith, h, moved_away m.objects),
  )

keys_apart :
    (c : CommitInput) (k : String)
    → canonical_object_key c.workspace_id c.sha256 ≡ ok k
    → is_temporary_key c.temporary.key ≡ true
    → (c.temporary.key == k) ≡ false
keys_apart c k key temp = elim (Bool-cases (c.temporary.key == k)) [
  | inr other ↦ other
  | inl is ↦ ground (
    arith,
    ap is_temporary_key ((eq_iff c.temporary.key k).0 is),
    temp,
    canonical_object_key_apart c.workspace_id c.sha256 k key,
  )
]

pub commit_immutable-IsCommitted :
    (c : CommitInput) (m m' : MemoryStorage) (md : ObjectMetadata)
    → commit_immutable c m ≡ (m', ok md)
    → (k : String) × (canonical_object_key c.workspace_id c.sha256 ≡ ok k)
      × IsCommitted c k m' md
      × (commit_immutable c m' ≡ (m', ok md))
commit_immutable-IsCommitted c m m' md h =
    let (k, key, temp, goes) = commit_reaches c m m' md h in
    let (o, there, declared, described_so, gone) =
      commit_found-IsCommitted c k m (lookup c.temporary.key m.objects) (lookup k m.objects) m' md
        (keys_apart c k key temp) refl refl (sym (goes m) ∙ h) in
    (
      k,
      key,
      (o, there, declared, described_so, gone),
      goes m' ∙ ground (arith, there, declared, described_so, gone),
    )

-- A commit that returned returns the same when it is called again next, although the temporary
-- object is gone, and changes nothing.
pub commit_immutable_retried :
    (c : CommitInput) (m m' : MemoryStorage) (md : ObjectMetadata)
    → commit_immutable c m ≡ (m', ok md)
    → commit_immutable c m' ≡ (m', ok md)
commit_immutable_retried c m m' md h =
    let (k, key, committed, again) = commit_immutable-IsCommitted c m m' md h in again
