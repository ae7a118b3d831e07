-- ===== src/Schema/Examples.antt =====
-- Two versions of a small schema package.
use trust_core.Common.{
  string_eq, number_eq, option_eq, ok, lookup, insert, String, ◌≡◌, refl, true, false, ◌↔◌, arith,
  none, some, [], ◌∷◌,
}
use trust_core.Schema.{
  FieldDefinition, string, number, ResourceTypeDefinition, preserve, SchemaPackageManifest,
  CompatibilityReport, backward_compatible, is_inherited, kind_eq, format_eq, added,
}
use trust_core.Schema.Compatibility.{
  classify_compatibility, compare_resource_types, compare_fields, compare_relationships, each,
  by_name,
}
use trust_core.Schema.Versions.{
  Parts, parse_version, assert_version_matches_compatibility, IsHigher, IsMajorFor,
  assert_version_matches_compatibility_iff,
}
use trust_core.Schema.Doubles.{finite, to_double}
use trust_core.Schema.Compatible.{
  IsKept, classify_compatibility-IsKept, classify_compatibility_required,
}

abbrev title : FieldDefinition
title = record { kind = string; required = true; format = none; description = none }

abbrev size : FieldDefinition
size = record { kind = number; required = false; format = none; description = none }

abbrev drawing : ResourceTypeDefinition
drawing = record {
  name = "drawing";
  description = "A drawing";
  fields = ("title", title) ∷ [];
  additional_fields = preserve;
}

abbrev sized_drawing : ResourceTypeDefinition
sized_drawing = record drawing { fields = ("title", title) ∷ ("size", size) ∷ [] }

abbrev first_version : SchemaPackageManifest
first_version = record {
  namespace = "studio";
  name = "drawings";
  version = "1.2.0";
  resource_types = drawing ∷ [];
  relationships = [];
  compatible_archive_format = "1";
}

abbrev next_version : SchemaPackageManifest
next_version = record first_version { version = "1.10.0"; resource_types = sized_drawing ∷ [] }

abbrev report : CompatibilityReport
report = record {
  classification = backward_compatible;
  previous_key = some "studio/drawings/1.2.0";
  changes =
      (record {
        path = "resourceTypes.drawing.fields.size";
        kind = added;
        is_breaking = false;
        message = "Optional field was added.";
      })
      ∷ [];
}

classified : classify_compatibility (some first_version) next_version ≡ ok report
unfolding classify_compatibility compare_resource_types compare_fields compare_relationships each
    lookup insert is_inherited
classified = refl

abbrev drawing_name : String
drawing_name = "drawing"

abbrev title_name : String
title_name = "title"

classify_compatibility-IsKept_example :
    (after : ResourceTypeDefinition) × (later : FieldDefinition) × (lookup drawing_name
        (by_name next_version.resource_types)
      ≡ some after)
    × (lookup title_name after.fields ≡ some later)
    × IsKept title later
unfolding lookup insert
classify_compatibility-IsKept_example =
    classify_compatibility-IsKept first_version next_version report classified refl drawing_name
      title_name drawing title refl refl

classify_compatibility_required_example :
    (field : FieldDefinition) × (lookup title_name drawing.fields ≡ some field)
    × (field.required ≡ true)
unfolding lookup insert is_inherited
classify_compatibility_required_example =
    classify_compatibility_required first_version next_version report classified refl drawing_name
      title_name drawing sized_drawing title refl refl refl refl refl

-- 1.2.0 and 1.10.0.
abbrev first_parts : Parts
first_parts = record { major = 1; minor = 2; patch = 0 }

abbrev next_parts : Parts
next_parts = record { major = 1; minor = 10; patch = 0 }

assert_version_matches_compatibility_iff_example :
    (assert_version_matches_compatibility (some first_version) next_version report ≡ ok tt)
    ↔ (IsHigher next_parts first_parts × IsMajorFor report.classification first_parts next_parts)
assert_version_matches_compatibility_iff_example =
    assert_version_matches_compatibility_iff first_version next_version report first_parts
      next_parts refl refl (omega arith, omega arith, omega arith)
      (omega arith, omega arith, omega arith)

-- Whole numbers beyond 53 bits are rounded to the even neighbour.
test_rounded_down : to_double 9007199254740993 ≡ finite 9007199254740992
unfolding to_double
test_rounded_down = refl

test_rounded_up : to_double 9007199254740995 ≡ finite 9007199254740996
unfolding to_double
test_rounded_up = refl

-- So a lower version passes as a backward compatible one.
test_lower_version :
    assert_version_matches_compatibility
      (some (record first_version { version = "9007199254740993.0.0" }))
      (record first_version { version = "9007199254740992.1.0" })
      report
    ≡ ok tt
unfolding assert_version_matches_compatibility parse_version to_double
test_lower_version = refl

-- A required field with the name of an inherited property is added without a change.
test_inherited : compare_fields "drawing" [] (("constructor", title) ∷ []) ≡ []
unfolding compare_fields each lookup is_inherited
test_inherited = refl
