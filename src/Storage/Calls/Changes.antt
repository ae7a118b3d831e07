-- ===== src/Storage/Calls/Changes.antt =====
-- What one call of packages/storage/src/memory-object-storage.ts can change.
use trust_core.Common.{
  leb, Bool-cases, ◌==◌, eq_iff, string_eq, number_eq, option_eq, is_blank, ok, Result-cases,
  lookup, insert, delete, ℕ, String, ◌≡◌, refl, inl, inr, true, not, ◌&&◌, Option, none, some, List,
  arith,
}
use mathlib.Core.Path.{subst}
use trust_core.Storage.{ObjectLocator, CommitInput}
use trust_core.Storage.Keys.{is_temporary_key, canonical_object_key}
use trust_core.Storage.Memory.{
  MemoryStorage, MemoryMultipartSession, StoredBytes, write_temporary, commit_immutable,
  delete_temporary, commit_found, declares, max_safe_integer, stored_bytes, move_object,
}

-- Every upload writes to a temporary key.
abbrev pub IsTargeted : MemoryStorage → Type 0
IsTargeted m =
    (id : String) (s : MemoryMultipartSession)
    → lookup id m.multipart ≡ some s
    → is_temporary_key s.session.locator.key ≡ true

module _ (sha256 : List ℕ → String) where
  -- The changes that a storage allows, as an abstract machine.
  pub data Change (m : MemoryStorage) (m' : MemoryStorage) : Type 0 where
    same : m' ≡ m → Change m m'
    wrote :
        (k : String) (o : StoredBytes)
        → is_temporary_key k ≡ true
        → o.sha256 ≡ sha256 o.body
        → m' ≡ record m { objects = insert k o m.objects }
        → Change m m'
    removed :
        (k : String)
        → is_temporary_key k ≡ true
        → m' ≡ record m { objects = delete k m.objects }
        → Change m m'
    moved :
        (t k w d : String) (o : StoredBytes)
        → is_temporary_key t ≡ true
        → lookup t m.objects ≡ some o
        → canonical_object_key w d ≡ ok k
        → o.sha256 ≡ d
        → lookup k m.objects ≡ none
        → m' ≡ record m { objects = delete t (insert k o m.objects) }
        → Change m m'
    bound :
        (id : String) (s : MemoryMultipartSession)
        → is_temporary_key s.session.locator.key ≡ true
        → m' ≡ record m { multipart = insert id s m.multipart }
        → Change m m'
    finished :
        (k : String) (o : StoredBytes) (id : String) (s : MemoryMultipartSession)
        → is_temporary_key k ≡ true
        → o.sha256 ≡ sha256 o.body
        → is_temporary_key s.session.locator.key ≡ true
        → m' ≡ (record { objects = insert k o m.objects; multipart = insert id s m.multipart })
        → Change m m'

  pub write_temporary-Change :
      (l : ObjectLocator) (body : List ℕ) (mt : String) (m : MemoryStorage)
      → Change m (write_temporary sha256 l body mt m).0
  unfolding write_temporary
  write_temporary-Change l body mt m = elim (Bool-cases (is_temporary_key l.key)) [
    | inr bad ↦ same (ground (arith, bad))
    | inl is ↦ elim (Bool-cases (is_blank mt)) [
      | inl blank ↦ same (ground (arith, is, blank))
      | inr named ↦ wrote l.key (stored_bytes sha256 body mt) is refl (ground (arith, is, named))
    ]
  ]

  pub delete_temporary-Change :
      (l : ObjectLocator) (m : MemoryStorage) → Change m (delete_temporary l m).0
  unfolding delete_temporary
  delete_temporary-Change l m = elim (Bool-cases (is_temporary_key l.key)) [
    | inr bad ↦ same (ground (arith, bad))
    | inl is ↦ removed l.key is (ground (arith, is))
  ]

  move_object-Change :
      (c : CommitInput) (k : String) (o : StoredBytes) (existing : Option StoredBytes)
      (m : MemoryStorage)
      → is_temporary_key c.temporary.key ≡ true
      → canonical_object_key c.workspace_id c.sha256 ≡ ok k
      → lookup c.temporary.key m.objects ≡ some o
      → lookup k m.objects ≡ existing
      → declares o c ≡ true
      → Change m (move_object k c o existing m).0
  move_object-Change c k o none m temp key stored free h =
      moved c.temporary.key k c.workspace_id c.sha256 o temp stored key
        (ground (arith, h, eq_iff o.sha256 c.sha256)) free refl
  move_object-Change c k o (some e) m temp key stored taken h = elim (Bool-cases (declares e c)) [
    | inl is ↦ removed c.temporary.key temp (ground (arith, is))
    | inr bad ↦ same (ground (arith, bad))
  ]

  commit_found-Change :
      (c : CommitInput) (k : String) (temporary existing : Option StoredBytes) (m : MemoryStorage)
      → is_temporary_key c.temporary.key ≡ true
      → canonical_object_key c.workspace_id c.sha256 ≡ ok k
      → lookup c.temporary.key m.objects ≡ temporary
      → lookup k m.objects ≡ existing
      → Change m (commit_found k c temporary existing m).0
  commit_found-Change c k none none m temp key stored there = same refl
  commit_found-Change c k none (some e) m temp key stored there = same (ground arith)
  commit_found-Change c k (some o) existing m temp key stored there =
      elim (Bool-cases (declares o c && o.media_type == c.media_type)) [
        | inr bad ↦ same (ground (arith, bad))
        | inl is ↦
            subst (λ x. Change m x) (ground (arith, is))
              (move_object-Change c k o existing m temp key stored there (ground (arith, is)))
      ]

  pub commit_immutable-Change :
      (c : CommitInput) (m : MemoryStorage) → Change m (commit_immutable c m).0
  unfolding commit_immutable
  commit_immutable-Change c m =
      elim (Bool-cases (
        is_temporary_key c.temporary.key
        && leb c.byte_length max_safe_integer
        && not (is_blank c.media_type))) [
          | inr bad ↦ same (ground (arith, bad))
          | inl is ↦ elim (Result-cases (canonical_object_key c.workspace_id c.sha256)) [
            | inr (e, bad) ↦ same (ground (arith, is, bad))
            | inl (k, key) ↦
                subst (λ x. Change m x) (ground (arith, is, key))
                  (commit_found-Change c k (lookup c.temporary.key m.objects) (lookup k m.objects) m
                    (ground (arith, is)) key refl refl)
          ]
        ]
