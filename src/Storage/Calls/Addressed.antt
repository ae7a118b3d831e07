-- ===== src/Storage/Calls/Addressed.antt =====
-- The digests and the addresses of the objects that packages/storage/src/memory-object-storage.ts holds.
use trust_core.Common.{
  Bool-cases, ◌==◌, eq_iff, string_eq, number_eq, option_eq, ok, Dict, lookup, insert, delete,
  lookup-insert, lookup-delete, ℕ, String, ◌≡◌, sym, ap, ◌∙◌, ◌⊎◌, inl, inr, true, false, some,
  List, arith,
}
use mathlib.Core.Path.{subst}
use trust_core.Storage.Keys.{is_temporary_key, canonical_object_key}
use trust_core.Storage.Keys.Apart.{canonical_object_key_apart}
use trust_core.Storage.Keys.Unique.{canonical_object_key-inj}
use trust_core.Storage.Memory.{MemoryStorage, MemoryMultipartSession, StoredBytes}
use trust_core.Storage.Calls.Changes.{IsTargeted}

-- Every object carries the digest of its bytes.
abbrev pub IsDigested : (List ℕ → String) → Dict StoredBytes → Type 0
IsDigested sha256 objects =
    (k : String) (o : StoredBytes) → lookup k objects ≡ some o → o.sha256 ≡ sha256 o.body

-- The object under a canonical key has the digest that the key was made of.
abbrev pub IsAddressed : Dict StoredBytes → Type 0
IsAddressed objects =
    (w d k : String) (o : StoredBytes)
    → canonical_object_key w d ≡ ok k
    → lookup k objects ≡ some o
    → o.sha256 ≡ d

pub record IsSound (sha256 : List ℕ → String) (m : MemoryStorage) : Type 0 where
  pub targets : IsTargeted m
  pub digests : IsDigested sha256 m.objects
  pub addressed : IsAddressed m.objects

pub temporary_apart :
    (t k : String) → is_temporary_key t ≡ true → is_temporary_key k ≡ false → (t == k) ≡ false
temporary_apart t k temp canonical = elim (Bool-cases (t == k)) [
  | inr other ↦ other
  | inl is ↦ ground (arith, ap is_temporary_key ((eq_iff t k).0 is), temp, canonical)
]

module _ (new key : String) {V : Type 0} (v : V) (m : Dict V) where
  -- What a key holds after a write is the written value or what it held.
  inserted :
      (o : V)
      → lookup key (insert new v m) ≡ some o
      → ((new ≡ key) × (v ≡ o)) ⊎ (((new == key) ≡ false) × (lookup key m ≡ some o))
  inserted o h = elim (Bool-cases (new == key)) [
    | inl is ↦ inl ((eq_iff new key).0 is, ground (arith, lookup-insert new key v m, is, h))
    | inr other ↦ inr (other, ground (arith, lookup-insert new key v m, other, h))
  ]

pub deleted :
    (gone key : String) {V : Type 0} (m : Dict V) (o : V)
    → lookup key (delete gone m) ≡ some o
    → lookup key m ≡ some o
deleted gone key m o h = elim (Bool-cases (gone == key)) [
  | inl is ↦ ground (arith, lookup-delete gone key m, is, h)
  | inr other ↦ ground (arith, lookup-delete gone key m, other, h)
]

module _ (id : String) (s : MemoryMultipartSession) (m : MemoryStorage) where
  pub insert-IsTargeted :
      (objects : Dict StoredBytes)
      → IsTargeted m
      → is_temporary_key s.session.locator.key ≡ true
      → IsTargeted (record { objects = objects; multipart = insert id s m.multipart })
  insert-IsTargeted objects targets temp i t h = elim (inserted id i s m.multipart t h) [
    | inl (is, made) ↦ ap (λ x. is_temporary_key x.session.locator.key) (sym made) ∙ temp
    | inr (other, there) ↦ targets i t there
  ]

module _ (sha256 : List ℕ → String) where
  pub insert-IsDigested :
      (k : String) (o : StoredBytes) (objects : Dict StoredBytes)
      → IsDigested sha256 objects
      → o.sha256 ≡ sha256 o.body
      → IsDigested sha256 (insert k o objects)
  insert-IsDigested k o objects digests own key p h = elim (inserted k key o objects p h) [
    | inl (is, made) ↦ subst (λ x. x.sha256 ≡ sha256 x.body) made own
    | inr (other, there) ↦ digests key p there
  ]

pub insert_temporary-IsAddressed :
    (t : String) (o : StoredBytes) (objects : Dict StoredBytes)
    → IsAddressed objects
    → is_temporary_key t ≡ true
    → IsAddressed (insert t o objects)
insert_temporary-IsAddressed t o objects addressed temp w d k p key h =
    elim (inserted t k o objects p h) [
      | inl (is, made) ↦
          ground (arith, ap is_temporary_key is, temp, canonical_object_key_apart w d k key)
      | inr (other, there) ↦ addressed w d k p key there
    ]

pub insert_canonical-IsAddressed :
    (w d k : String) (o : StoredBytes) (objects : Dict StoredBytes)
    → IsAddressed objects
    → canonical_object_key w d ≡ ok k
    → o.sha256 ≡ d
    → IsAddressed (insert k o objects)
insert_canonical-IsAddressed w d k o objects addressed key own w' d' k' p key' h =
    elim (inserted k k' o objects p h) [
      | inl (is, made) ↦
          let (same_w, same_d) = canonical_object_key-inj w w' d d' k key (key' ∙ ap ok (sym is)) in
          ap (λ x. x.sha256) (sym made) ∙ own ∙ same_d
      | inr (other, there) ↦ addressed w' d' k' p key' there
    ]
