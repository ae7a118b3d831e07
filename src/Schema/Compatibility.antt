-- ===== src/Schema/Compatibility.antt =====
-- `classifyCompatibility` of packages/schema-registry/src/compatibility.ts. The changes that the
-- source pushes are the lists that are joined here.
use trust_core.Common.{
  if◌then◌else◌, ◌==◌, string_eq, number_eq, option_eq, any, includes, Result, ok, ◌>>◌, throw_if,
  Dict, lookup, insert, String, Bool, true, false, not, ◌&&◌, ◌||◌, Option, none, some, List, [],
  ◌∷◌, ◌++◌, map,
}
use Prim.Native.Nat.{Ordering}
use Prim.Native.String.{compare, ◌++◌ as text_append}
use trust_core.Schema.{
  FieldDefinition, kind_eq, format_eq, AdditionalFields, preserve, reject, ResourceTypeDefinition,
  RelationshipDefinition, Cardinality, one_to_one, one_to_many, many_to_many, SchemaPackageManifest,
  CompatibilityClassification, initial, backward_compatible, breaking, CompatibilityChange, added,
  removed, changed, CompatibilityReport, SchemaError, other_package, Property, absent, inherited,
  own, property,
}

abbrev pub Changes : Type 0
Changes = List CompatibilityChange

abbrev pub push_added : String → String → Bool → Changes
push_added path message is_breaking =
    (record { path = path; kind = added; is_breaking = is_breaking; message = message }) ∷ []

abbrev pub push_removed : String → String → Changes
push_removed path message =
    (record { path = path; kind = removed; is_breaking = true; message = message }) ∷ []

abbrev pub push_changed : String → String → Changes
push_changed path message =
    (record { path = path; kind = changed; is_breaking = true; message = message }) ∷ []

-- A loop that pushes the changes of each element.
unfoldable pub each {ℓ} : {A : Type ℓ} → (A → Changes) → List A → Changes
each f [] = []
each f (x ∷ xs) = f x ++ each f xs

abbrev pub when : Bool → Changes → Changes
when true changes = changes
when false changes = []

abbrev pub field_path : String → String → String
field_path resource name =
    text_append "resourceTypes." (text_append resource (text_append ".fields." name))

-- A field of the previous fields, against what `next[name]` gives. What is inherited has no kind.
abbrev pub compare_field : (path : String) → FieldDefinition → Property → Changes
compare_field path before absent = push_removed path "Field was removed."
compare_field path before inherited = push_changed path "Field type or format changed."
compare_field path before (own after) =
    when (not (before.kind == after.kind) || not (before.format == after.format))
      (push_changed path "Field type or format changed.")
    ++ when (not before.required && after.required)
        (push_changed (text_append path ".required") "Field became required.")

-- A field of the next fields, against what `previous[name]` gives.
abbrev pub compare_new_field : (path : String) → FieldDefinition → Property → Changes
compare_new_field path field absent =
    if field.required
    then push_added path "Required field was added." true
    else push_added path "Optional field was added." false
compare_new_field path field inherited = []
compare_new_field path field (own before) = []

abbrev pub old_field : String → Dict FieldDefinition → String × FieldDefinition → Changes
old_field resource next (name, before) =
    compare_field (field_path resource name) before (property name next)

abbrev pub new_field : String → Dict FieldDefinition → String × FieldDefinition → Changes
new_field resource previous (name, field) =
    compare_new_field (field_path resource name) field (property name previous)

unfoldable pub compare_fields : String → Dict FieldDefinition → Dict FieldDefinition → Changes
compare_fields resource previous next =
    each (old_field resource next) previous ++ each (new_field resource previous) next

-- `new Map(values.map((value) => [value.name, value]))`.
abbrev pub collect_by_name :
    Dict ResourceTypeDefinition → List ResourceTypeDefinition → Dict ResourceTypeDefinition
collect_by_name map [] = map
collect_by_name map (t ∷ types) = collect_by_name (insert t.name t map) types

abbrev pub by_name : List ResourceTypeDefinition → Dict ResourceTypeDefinition
by_name types = collect_by_name [] types

abbrev pub stops_preserving : AdditionalFields → AdditionalFields → Bool
stops_preserving preserve reject = true
stops_preserving preserve preserve = false
stops_preserving reject after = false

abbrev pub compare_resource_type :
    String → ResourceTypeDefinition → Option ResourceTypeDefinition → Changes
compare_resource_type name before none =
    push_removed (text_append "resourceTypes." name) "Resource type was removed."
compare_resource_type name before (some after) =
    when (stops_preserving before.additional_fields after.additional_fields) (
      push_changed (text_append "resourceTypes." (text_append name ".additionalFields"))
        "Unknown fields are no longer preserved.")
    ++ compare_fields name before.fields after.fields

abbrev pub compare_new_type : String → Option ResourceTypeDefinition → Changes
compare_new_type name none =
    push_added (text_append "resourceTypes." name) "Resource type was added." false
compare_new_type name (some before) = []

abbrev pub old_type : Dict ResourceTypeDefinition → String × ResourceTypeDefinition → Changes
old_type next (name, before) = compare_resource_type name before (lookup name next)

abbrev pub new_type : Dict ResourceTypeDefinition → String × ResourceTypeDefinition → Changes
new_type previous (name, after) = compare_new_type name (lookup name previous)

unfoldable pub compare_resource_types :
    List ResourceTypeDefinition → List ResourceTypeDefinition → Changes
compare_resource_types previous next =
    each (old_type (by_name next)) (by_name previous)
    ++ each (new_type (by_name previous)) (by_name next)

-- `sort()` of texts.
abbrev is_sorted_pair : String → String → Bool
is_sorted_pair a b = elim (compare a b) [ Ordering.gt ↦ false | _ ↦ true ]

abbrev place_text : String → List String → List String
place_text a [] = a ∷ []
place_text a (b ∷ rest) =
    let later = place_text a rest in if is_sorted_pair a b then a ∷ b ∷ rest else b ∷ later

abbrev sort_texts : List String → List String
sort_texts [] = []
sort_texts (a ∷ rest) = place_text a (sort_texts rest)

-- `join(",")`.
abbrev join_more : String → List String → String
join_more a [] = a
join_more a (b ∷ rest) = text_append a (text_append "," (join_more b rest))

abbrev join : List String → String
join [] = ""
join (a ∷ rest) = join_more a rest

abbrev cardinality_name : Cardinality → String
cardinality_name one_to_one = "one-to-one"
cardinality_name one_to_many = "one-to-many"
cardinality_name many_to_many = "many-to-many"

unfoldable pub relation_key : RelationshipDefinition → String
relation_key r = text_append r.relation_type (
    text_append ":" (
      text_append (join (sort_texts r.source_types)) (
        text_append ":" (
          text_append (join (sort_texts r.target_types))
            (text_append ":" (cardinality_name r.cardinality))))))

abbrev relation_path : RelationshipDefinition → String
relation_path r = text_append "relationships." r.relation_type

unfoldable pub compare_relationships :
    List RelationshipDefinition → List RelationshipDefinition → Changes
compare_relationships previous next =
    each
      (λ r.
        when (not (includes (map relation_key next) (relation_key r)))
          (push_removed (relation_path r) "Relationship constraint was removed or changed."))
      previous
    ++ each
        (λ r.
          when (not (includes (map relation_key previous) (relation_key r)))
            (push_added (relation_path r) "Relationship constraint was added." false))
        next

abbrev pub schema_key : SchemaPackageManifest → String
schema_key m =
    text_append m.namespace (text_append "/" (text_append m.name (text_append "/" m.version)))

abbrev pub other_changes : SchemaPackageManifest → SchemaPackageManifest → Changes
other_changes previous next =
    compare_relationships previous.relationships next.relationships
    ++ when (not (previous.compatible_archive_format == next.compatible_archive_format))
        (push_changed "compatibleArchiveFormat" "Compatible archive format changed.")

abbrev pub all_changes : SchemaPackageManifest → SchemaPackageManifest → Changes
all_changes previous next =
    compare_resource_types previous.resource_types next.resource_types
    ++ other_changes previous next

abbrev pub is_breaking_change : CompatibilityChange → Bool
is_breaking_change c = c.is_breaking

abbrev pub classification_of : Changes → CompatibilityClassification
classification_of changes = if any is_breaking_change changes then breaking else backward_compatible

unfoldable pub classify_compatibility :
    Option SchemaPackageManifest → SchemaPackageManifest → Result SchemaError CompatibilityReport
unfolding compare_resource_types compare_relationships
classify_compatibility none next =
    ok (record { classification = initial; previous_key = none; changes = [] })
classify_compatibility (some previous) next = do
  throw_if (not (previous.namespace == next.namespace) || not (previous.name == next.name))
      other_package
  ok (record {
    classification = classification_of (all_changes previous next);
    previous_key = some (schema_key previous);
    changes = all_changes previous next;
  })
