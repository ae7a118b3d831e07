-- ===== src/Promotion/Declared.antt =====
-- What a promotion of packages/operations/src/promote-quarantine.ts that returns has checked.
use trust_core.Common.{
  Bool-cases, ◌==◌, eq_iff, string_eq, number_eq, option_eq, ok, ◌≡◌, ◌⊎◌, inl, inr, true, some,
  arith,
}
use trust_core.Common.Effect.{run-cases}
use trust_core.Quarantine.States.{accepted, promotion_pending, scan_state_eq}
use trust_core.Promotion.{
  ObjectStorage, ObjectMetadata, PromoteQuarantineInput, promoted_before, promote_fresh,
  promote_quarantine_object, agrees,
}

-- The object has the declared length and digest.
abbrev pub IsDeclared : PromoteQuarantineInput → ObjectMetadata → Type 0
IsDeclared input m = (m.byte_length ≡ input.byte_length) × (m.sha256 ≡ some input.sha256)

module _ {S : Type 0} (storage : ObjectStorage S) (input : PromoteQuarantineInput) where
  agrees-IsDeclared : (m : ObjectMetadata) → agrees m input ≡ true → IsDeclared input m
  agrees-IsDeclared m h =
      ground (arith, eq_iff m.byte_length input.byte_length, eq_iff m.sha256 (some input.sha256), h)

  promoted_before-IsDeclared :
      (s s' : S) (m : ObjectMetadata)
      → promoted_before storage input s ≡ (s', ok m)
      → IsDeclared input m
  unfolding promoted_before
  promoted_before-IsDeclared s s' m h = agrees-IsDeclared m (ground (arith, h))

  promote_fresh-IsDeclared :
      (s s' : S) (m : ObjectMetadata)
      → promote_fresh storage input s ≡ (s', ok m)
      → IsDeclared input m
  unfolding promote_fresh
  promote_fresh-IsDeclared s s' m h = agrees-IsDeclared m (ground (arith, h))

  checked :
      (s s' : S) (m : ObjectMetadata)
      → promote_quarantine_object storage input s ≡ (s', ok m)
      → (input.scan_state ≡ accepted) ⊎ (input.scan_state ≡ promotion_pending)
  unfolding promote_quarantine_object
  checked s s' m h = elim (Bool-cases (input.scan_state == accepted)) [
    | inl is ↦ inl ((eq_iff input.scan_state accepted).0 is)
    | inr other ↦ elim (Bool-cases (input.scan_state == promotion_pending)) [
      | inl is ↦ inr ((eq_iff input.scan_state promotion_pending).0 is)
      | inr neither ↦ ground (arith, other, neither, h)
    ]
  ]

  declared :
      (s s' : S) (m : ObjectMetadata)
      → promote_quarantine_object storage input s ≡ (s', ok m)
      → IsDeclared input m
  unfolding promote_quarantine_object
  declared s s' m h = elim (run-cases (storage.exists input.canonical) s) [
    | inr (t, e, threw) ↦ ground (arith, threw, h)
    | inl (t, there, found) ↦ elim (Bool-cases there) [
      | inl yes_there ↦ promoted_before-IsDeclared t s' m (ground (arith, found, yes_there, h))
      | inr not_there ↦ promote_fresh-IsDeclared t s' m (ground (arith, found, not_there, h))
    ]
  ]

  -- Over any storage, a promotion that returns was of an object that the scan accepted or whose
  -- promotion is pending, and returns an object of the declared length and digest.
  pub promote_quarantine_object-IsDeclared :
      (s s' : S) (m : ObjectMetadata)
      → promote_quarantine_object storage input s ≡ (s', ok m)
      → ((input.scan_state ≡ accepted) ⊎ (input.scan_state ≡ promotion_pending))
        × IsDeclared input m
  promote_quarantine_object-IsDeclared s s' m h = (checked s s' m h, declared s s' m h)
