-- ===== src/Schema.antt =====
-- The manifests of packages/schema-registry/src/types.ts. A `Record` is the list of its own entries; a
-- name that every object inherits is found in it, too.
pub mod Compatibility
pub mod Doubles
pub mod Versions
pub mod Compatible
mod Examples
use trust_core.Common.{
  codes-inj, is_hex_text-all, codes-append, after_prefix-append, after_prefix, starts_with,
  contains, is_truthy, ltb, leb, nat_eq, if◌then◌else◌, nat_eq_iff, Bool-cases, Option-cases, Eq,
  ◌==◌, eq_iff, string_eq, number_eq, option_beq, option_beq_iff, option_eq, discrete_beq,
  discrete_beq_iff, discrete_eq, length, length-append, any, all, find, keep, find-keep,
  find-append, find-Any, Any-find, find-Mem, Any-map, All, Any, includes, codes, is_space, is_blank,
  is_empty, is_hex, is_hex_text, Result, ok, err, ◌>>=◌, ◌>>◌, throw_if, Result-cases, >>=-eq-ok,
  Dict, lookup, insert, delete, values, lookup-insert, lookup-delete, lookup-insert_self, ℕ, zero,
  suc, ◌+◌, ◌-◌, ◌*◌, ◌/◌, ◌%◌, ◌^◌, ◌≤◌, ◌<◌, String, ◌≡◌, refl, sym, ap, ◌∙◌, ◌≢◌, ◌↔◌, ◌⊎◌, inl,
  inr, Bool, true, false, not, ◌&&◌, ◌||◌, Option, none, some, List, [], ◌∷◌, ◌++◌, map, arith,
}

pub data FieldKind : Type 0 where
  string number boolean timestamp object array : FieldKind

abbrev pub FieldKind-discrete : Discrete FieldKind
FieldKind-discrete = hlevel

instance abbrev pub kind_eq : Eq FieldKind
kind_eq = discrete_eq FieldKind-discrete

pub data FieldFormat : Type 0 where
  uri sha256 media_type : FieldFormat

abbrev pub FieldFormat-discrete : Discrete FieldFormat
FieldFormat-discrete = hlevel

instance abbrev pub format_eq : Eq FieldFormat
format_eq = discrete_eq FieldFormat-discrete

pub record FieldDefinition : Type 0 where
  pub kind : FieldKind
  -- `undefined` is read as false.
  pub required : Bool
  pub format : Option FieldFormat
  pub description : Option String

pub data AdditionalFields : Type 0 where
  preserve reject : AdditionalFields

pub record ResourceTypeDefinition : Type 0 where
  pub name : String
  pub description : String
  pub fields : Dict FieldDefinition
  pub additional_fields : AdditionalFields

pub data Cardinality : Type 0 where
  one_to_one one_to_many many_to_many : Cardinality

pub record RelationshipDefinition : Type 0 where
  pub relation_type : String
  pub source_types : List String
  pub target_types : List String
  pub cardinality : Cardinality

-- Without the title, the description and the classification of the package, which no comparison reads.
pub record SchemaPackageManifest : Type 0 where
  pub namespace : String
  pub name : String
  pub version : String
  pub resource_types : List ResourceTypeDefinition
  pub relationships : List RelationshipDefinition
  pub compatible_archive_format : String

pub data CompatibilityClassification : Type 0 where
  initial backward_compatible breaking : CompatibilityClassification

pub data ChangeKind : Type 0 where
  added removed changed : ChangeKind

pub record CompatibilityChange : Type 0 where
  pub path : String
  pub kind : ChangeKind
  pub is_breaking : Bool
  pub message : String

pub record CompatibilityReport : Type 0 where
  pub classification : CompatibilityClassification
  pub previous_key : Option String
  pub changes : List CompatibilityChange

pub data SchemaError : Type 0 where
  other_package version_not_higher needs_new_major leaves_major : SchemaError
  invalid_version : String → SchemaError

-- The properties of `Object.prototype`.
abbrev pub inherited_names : List String
inherited_names =
    "constructor" ∷ "__proto__" ∷ "__defineGetter__" ∷ "__defineSetter__" ∷ "__lookupGetter__"
    ∷ "__lookupSetter__" ∷ "hasOwnProperty" ∷ "isPrototypeOf" ∷ "propertyIsEnumerable"
    ∷ "toLocaleString" ∷ "toString" ∷ "valueOf" ∷ []

pub data Property : Type 0 where
  absent inherited : Property
  own : FieldDefinition → Property

pub is_inherited : String → Bool
is_inherited name = includes inherited_names name

abbrev pub property_of : String → Option FieldDefinition → Property
property_of name (some field) = own field
property_of name none = if is_inherited name then inherited else absent

-- `fields[name]`.
abbrev pub property : String → Dict FieldDefinition → Property
property name fields = property_of name (lookup name fields)
