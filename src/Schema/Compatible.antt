-- ===== src/Schema/Compatible.antt =====
-- What a schema package that packages/schema-registry/src/compatibility.ts finds backward compatible
-- keeps of the previous one.
use trust_core.Common.{
  Bool-cases, Option-cases, ◌==◌, eq_iff, string_eq, number_eq, option_eq, any, ok, Dict, lookup,
  String, ◌≡◌, refl, sym, ap, ◌∙◌, inl, inr, Bool, true, false, not, ◌&&◌, ◌||◌, some, [], ◌∷◌,
  ◌++◌, arith,
}
use trust_core.Schema.{
  is_inherited, own, FieldDefinition, kind_eq, format_eq, ResourceTypeDefinition,
  SchemaPackageManifest, CompatibilityReport, backward_compatible,
}
use Prim.Native.String.{◌++◌ as text_append}
use trust_core.Schema.Compatibility.{
  other_changes, old_field, new_field, old_type, new_type, field_path, stops_preserving,
  compare_resource_types, by_name, all_changes, classify_compatibility, push_changed, Changes, each,
  when, compare_field, compare_fields, is_breaking_change,
}

abbrev is_quiet : Changes → Bool
is_quiet changes = not (any is_breaking_change changes)

quiet-append :
    (xs ys : Changes)
    → any is_breaking_change (xs ++ ys) ≡ (any is_breaking_change xs || any is_breaking_change ys)
quiet-append [] ys = refl
quiet-append (x ∷ xs) ys = ground (arith, quiet-append xs ys)

-- In a loop without a breaking change no element has one.
each-quiet :
    {V : Type 0} (f : String × V → Changes) (d : Dict V) (k : String) (v : V)
    → any is_breaking_change (each f d) ≡ false
    → lookup k d ≡ some v
    → any is_breaking_change (f (k, v)) ≡ false
unfolding each lookup
each-quiet f [] k v h found = cc
each-quiet f ((at, old) ∷ rest) k v h found =
    let split = quiet-append (f (at, old)) (each f rest) in
    elim (Bool-cases (at == k)) [
      | inl is ↦
          let same : at ≡ k = (eq_iff at k).0 is in
          let value : old ≡ v = ground (arith, found, is) in
          let here : any is_breaking_change (f (at, old)) ≡ false = ground (arith, split, h) in
          ap (λ p. any is_breaking_change (f p)) (λ i. (sym same i, sym value i)) ∙ here
      | inr other ↦ each-quiet f rest k v (ground (arith, split, h)) (ground (arith, found, other))
    ]

either-quiet :
    (xs ys : Changes)
    → any is_breaking_change (xs ++ ys) ≡ false
    → (any is_breaking_change xs ≡ false) × (any is_breaking_change ys ≡ false)
either-quiet xs ys h =
    (ground (arith, quiet-append xs ys, h), ground (arith, quiet-append xs ys, h))

-- The later field has the kind and the format, and is required only if the earlier one is.
abbrev pub IsKept : FieldDefinition → FieldDefinition → Type 0
IsKept before after =
    (after.kind ≡ before.kind)
    × (after.format ≡ before.format)
    × ((after.required && not before.required) ≡ false)

compare_field-IsKept :
    (path : String) (before after : FieldDefinition)
    → any is_breaking_change (compare_field path before (own after)) ≡ false
    → IsKept before after
compare_field-IsKept path before after h =
    let same_kind = eq_iff before.kind after.kind in
    let same_format = eq_iff before.format after.format in
    elim (Bool-cases (not (before.kind == after.kind) || not (before.format == after.format))) [
      | inl differs ↦ ground (arith, differs, h)
      | inr same ↦ (
        ground (arith, same_kind, same),
        ground (arith, same_format, same),
        ground (arith, same, h),
      )
    ]

module _ (resource : String) (previous next : Dict FieldDefinition)
    (quiet : any is_breaking_change (compare_fields resource previous next) ≡ false)
    (name : String) where
  halves :
      (any is_breaking_change (each (old_field resource next) previous) ≡ false)
      × (any is_breaking_change (each (new_field resource previous) next) ≡ false)
  unfolding compare_fields
  halves =
      either-quiet (each (old_field resource next) previous)
        (each (new_field resource previous) next) quiet

  old_field-IsKept :
      (before : FieldDefinition)
      → lookup name previous ≡ some before
      → (after : FieldDefinition) × (lookup name next ≡ some after) × IsKept before after
  old_field-IsKept before found =
      let here = each-quiet (old_field resource next) previous name before halves.0 found in
      elim (Option-cases (lookup name next)) [
        | inr (after, there) ↦ (
          after,
          there,
          compare_field-IsKept (field_path resource name) before after
              (ground (arith, there, here)),
        )
        | inl gone ↦ elim (Bool-cases (is_inherited name)) [
          | inl is ↦ ground (arith, gone, is, here)
          | inr other ↦ ground (arith, gone, other, here)
        ]
      ]

  required_field :
      (after : FieldDefinition)
      → lookup name next ≡ some after
      → after.required ≡ true
      → is_inherited name ≡ false
      → (before : FieldDefinition) × (lookup name previous ≡ some before) × (before.required ≡ true)
  required_field after found needed other =
      let here = each-quiet (new_field resource previous) next name after halves.1 found in
      elim (Option-cases (lookup name previous)) [
        | inl gone ↦ ground (arith, gone, other, needed, here)
        | inr (before, there) ↦
            let (later, found', (kind, format, only)) = old_field-IsKept before there in
            (before, there, ground (arith, found, found', needed, only))
      ]

module _ (previous next : SchemaPackageManifest) (report : CompatibilityReport)
    (classified : classify_compatibility (some previous) next ≡ ok report)
    (backward : report.classification ≡ backward_compatible) where
  all_quiet : any is_breaking_change (all_changes previous next) ≡ false
  unfolding classify_compatibility
  all_quiet = elim (Bool-cases (any is_breaking_change (all_changes previous next))) [
    | inr quiet ↦ quiet
    | inl loud ↦ ground (arith, loud, classified, backward)
  ]

  types_quiet :
      any is_breaking_change (compare_resource_types previous.resource_types next.resource_types)
      ≡ false
  types_quiet =
      (either-quiet (compare_resource_types previous.resource_types next.resource_types)
        (other_changes previous next) all_quiet).0

  -- A type stays, with fields between which no change is a breaking one.
  type_kept :
      (type : String) (before : ResourceTypeDefinition)
      → lookup type (by_name previous.resource_types) ≡ some before
      → (after : ResourceTypeDefinition) × (lookup type (by_name next.resource_types) ≡ some after)
        × (any is_breaking_change (compare_fields type before.fields after.fields) ≡ false)
  unfolding compare_resource_types
  type_kept type before found =
      let (old, new) =
        either-quiet
          (each (old_type (by_name next.resource_types)) (by_name previous.resource_types))
          (each (new_type (by_name previous.resource_types)) (by_name next.resource_types))
          types_quiet in
      let here =
        each-quiet (old_type (by_name next.resource_types)) (by_name previous.resource_types) type
          before old found in
      elim (Option-cases (lookup type (by_name next.resource_types))) [
        | inl gone ↦ ground (arith, gone, here)
        | inr (after, there) ↦ (
          after,
          there,
          (either-quiet
              (when (stops_preserving before.additional_fields after.additional_fields) (
                push_changed (text_append "resourceTypes." (text_append type ".additionalFields"))
                  "Unknown fields are no longer preserved."))
              (compare_fields type before.fields after.fields) (ground (arith, there, here))).1,
        )
      ]

  -- If a manifest is classified as backward compatible, then each field of each resource type of
  -- the previous manifest is a field of the same type in the next, with the same kind and format,
  -- and is required there only if it was required before.
  pub classify_compatibility-IsKept :
      (type name : String) (before : ResourceTypeDefinition) (field : FieldDefinition)
      → lookup type (by_name previous.resource_types) ≡ some before
      → lookup name before.fields ≡ some field
      → (after : ResourceTypeDefinition) × (later : FieldDefinition) × (lookup type
            (by_name next.resource_types)
          ≡ some after)
        × (lookup name after.fields ≡ some later)
        × IsKept field later
  classify_compatibility-IsKept type name before field found named =
      let (after, there, quiet) = type_kept type before found in
      let (later, there', kept) =
        old_field-IsKept type before.fields after.fields quiet name field named in
      (after, later, there, there', kept)

  -- If a manifest is classified as backward compatible, then each field that it requires in a
  -- resource type of the previous manifest was required there before, unless the name of the field
  -- is that of a property that every object inherits.
  pub classify_compatibility_required :
      (type name : String) (before after : ResourceTypeDefinition) (later : FieldDefinition)
      → lookup type (by_name previous.resource_types) ≡ some before
      → lookup type (by_name next.resource_types) ≡ some after
      → lookup name after.fields ≡ some later
      → later.required ≡ true
      → is_inherited name ≡ false
      → (field : FieldDefinition) × (lookup name before.fields ≡ some field)
        × (field.required ≡ true)
  classify_compatibility_required type name before after later found found' named needed other =
      let (kept, there, quiet) = type_kept type before found in
      let same : kept ≡ after = ground (arith, there, found') in
      let quiet' : any is_breaking_change (compare_fields type before.fields after.fields) ≡ false =
        ap (λ t. any is_breaking_change (compare_fields type before.fields t.fields)) (sym same)
        ∙ quiet in
      required_field type before.fields after.fields quiet' name later named needed other
