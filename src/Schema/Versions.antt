-- ===== src/Schema/Versions.antt =====
-- `assertVersionMatchesCompatibility` of packages/schema-registry/src/compatibility.ts. The parts of a
-- version are read as whole numbers of any size, and made doubles as the source does.
use trust_core.Common.{
  leb, nat_eq, if◌then◌else◌, string_eq, number_eq, option_eq, codes, Result, ok, err, ◌>>=◌, ◌>>◌,
  throw_if, ℕ, ◌+◌, ◌-◌, ◌*◌, ◌^◌, ◌<◌, String, ◌≡◌, ◌⊎◌, ◌↔◌, Bool, true, false, not, ◌&&◌, Option,
  none, some, List, [], ◌∷◌, arith, refl,
}
use trust_core.Schema.{
  SchemaPackageManifest, CompatibilityReport, CompatibilityClassification, initial,
  backward_compatible, breaking, SchemaError, version_not_higher, needs_new_major, leaves_major,
  invalid_version,
}
use trust_core.Schema.Doubles.{
  Double, finite, Difference, to_double, minus, or_next, at_most_zero, double_leb, double_eq,
  to_double_exact,
}

-- The three numbers of a text.
pub record Parts : Type 0 where
  pub major : ℕ
  pub minor : ℕ
  pub patch : ℕ

pub record Version : Type 0 where
  pub major : Double
  pub minor : Double
  pub patch : Double

abbrev is_digit : ℕ → Bool
is_digit c = leb b'0' c && leb c b'9'

-- \d*, and what follows it.
abbrev span_digits : List ℕ → List ℕ × List ℕ
span_digits [] = ([], [])
span_digits (c ∷ cs) =
    let (digits, rest) = span_digits cs in if is_digit c then (c ∷ digits, rest) else ([], c ∷ cs)

abbrev value_of : ℕ → List ℕ → ℕ
value_of acc [] = acc
value_of acc (c ∷ cs) = value_of (10 * acc + (c - b'0')) cs

abbrev number_of : List ℕ × List ℕ → Option (ℕ × List ℕ)
number_of ([], rest) = none
number_of (c ∷ digits, rest) = some (value_of 0 (c ∷ digits), rest)

-- \d+ at the start of a text.
abbrev read_number : List ℕ → Option (ℕ × List ℕ)
read_number cs = number_of (span_digits cs)

-- \.
abbrev after_dot : List ℕ → Option (List ℕ)
after_dot [] = none
after_dot (c ∷ cs) = if nat_eq c b'.' then some cs else none

abbrev read_dot_number : List ℕ → Option (ℕ × List ℕ)
read_dot_number cs = elim (after_dot cs) [ none ↦ none | some rest ↦ read_number rest ]

abbrev pub read_parts : List ℕ → Option Parts
read_parts cs = elim (read_number cs) [
  | none ↦ none
  | some (major, after_major) ↦ elim (read_dot_number after_major) [
    | none ↦ none
    | some (minor, after_minor) ↦ elim (read_dot_number after_minor) [
      | none ↦ none
      | some (patch, rest) ↦ some (record { major = major; minor = minor; patch = patch })
    ]
  ]
]

abbrev of_parts : Parts → Version
of_parts p = record {
  major = to_double p.major;
  minor = to_double p.minor;
  patch = to_double p.patch;
}

abbrev or_invalid : String → Option Parts → Result SchemaError Version
or_invalid text none = err (invalid_version text)
or_invalid text (some p) = ok (of_parts p)

unfoldable pub parse_version : String → Result SchemaError Version
parse_version text = or_invalid text (read_parts (codes text))

-- The number that the source gives, as far as it is looked at.
abbrev pub compare_version : Version → Version → Difference
compare_version left right =
    or_next (minus left.major right.major)
      (or_next (minus left.minor right.minor) (minus left.patch right.patch))

abbrev pub is_breaking_class : CompatibilityClassification → Bool
is_breaking_class breaking = true
is_breaking_class _ = false

abbrev pub is_backward_class : CompatibilityClassification → Bool
is_backward_class backward_compatible = true
is_backward_class _ = false

unfoldable pub assert_version_matches_compatibility :
    Option SchemaPackageManifest
    → SchemaPackageManifest
    → CompatibilityReport
    → Result SchemaError (Unit {0})
assert_version_matches_compatibility none next report = ok tt
assert_version_matches_compatibility (some previous) next report = do
  previous_version ← parse_version previous.version
  next_version ← parse_version next.version
  throw_if (at_most_zero (compare_version next_version previous_version)) version_not_higher
  throw_if
      (is_breaking_class report.classification
        && double_leb next_version.major previous_version.major)
      needs_new_major
  throw_if
      (is_backward_class report.classification
        && not (double_eq next_version.major previous_version.major))
      leaves_major
  ok tt

-- A higher version, part by part.
abbrev pub IsHigher : Parts → Parts → Type 0
IsHigher w v =
    (v.major < w.major)
    ⊎ ((v.major ≡ w.major) × ((v.minor < w.minor) ⊎ ((v.minor ≡ w.minor) × (v.patch < w.patch))))

-- What the classification asks of the major version.
abbrev pub IsMajorFor : CompatibilityClassification → Parts → Parts → Type 0
IsMajorFor breaking v w = v.major < w.major
IsMajorFor backward_compatible v w = v.major ≡ w.major
IsMajorFor initial v w = Unit

-- Numbers that a double holds exactly.
abbrev pub IsSafe : Parts → Type 0
IsSafe p = (p.major < 2 ^ 53) × (p.minor < 2 ^ 53) × (p.patch < 2 ^ 53)

abbrev exact : Parts → Version
exact p = record { major = finite p.major; minor = finite p.minor; patch = finite p.patch }

of_parts-exact : (p : Parts) → IsSafe p → of_parts p ≡ exact p
of_parts-exact p (a, b, c) =
    rw (to_double_exact p.major a, to_double_exact p.minor b, to_double_exact p.patch c)

parse_exact :
    (text : String) (p : Parts)
    → read_parts (codes text) ≡ some p
    → IsSafe p
    → parse_version text ≡ ok (exact p)
unfolding parse_version
parse_exact text p h safe = rw h (rw (of_parts-exact p safe))

compare-IsHigher :
    (w v : Parts) → (at_most_zero (compare_version (exact w) (exact v)) ≡ false) ↔ IsHigher w v
compare-IsHigher w v = ((λ h. ground (arith, h)), (λ h. ground (arith, h)))

major-IsMajorFor :
    (c : CompatibilityClassification) (v w : Parts)
    → ((is_breaking_class c && leb w.major v.major ≡ false)
        × (is_backward_class c && not (nat_eq w.major v.major) ≡ false))
      ↔ IsMajorFor c v w
major-IsMajorFor initial v w = ((λ h. tt), (λ h. (refl, refl)))
major-IsMajorFor breaking v w = ((λ (h, k). ground (arith, h)), (λ h. (ground (arith, h), refl)))
major-IsMajorFor backward_compatible v w =
    ((λ (h, k). ground (arith, k)), (λ h. (refl, ground (arith, h))))

-- Three tests in a row pass exactly if none throws.
throw_all_iff :
    (p q r : Bool)
    → (do throw_if p version_not_higher; throw_if q needs_new_major; throw_if r leaves_major; ok tt)
        ≡ ok (tt {0})
      ↔ (p ≡ false) × (q ≡ false) × (r ≡ false)
throw_all_iff false false false = ((λ h. (refl, refl, refl)), (λ h. refl))
throw_all_iff true q r = ((λ h. cc), (λ (h, k, l). cc))
throw_all_iff false true r = ((λ h. cc), (λ (h, k, l). cc))
throw_all_iff false false true = ((λ h. cc), (λ (h, k, l). cc))

-- Where the three numbers of a previous and of a next version are below 2 ^ 53, the check passes
-- exactly if the next version is higher by major, minor and patch in this order, with a higher major
-- number if the change is breaking, and the same one if it is backward compatible.
pub assert_version_matches_compatibility_iff :
    (previous next : SchemaPackageManifest) (report : CompatibilityReport) (v w : Parts)
    → read_parts (codes previous.version) ≡ some v
    → read_parts (codes next.version) ≡ some w
    → IsSafe v
    → IsSafe w
    → (assert_version_matches_compatibility (some previous) next report ≡ ok tt)
      ↔ (IsHigher w v × IsMajorFor report.classification v w)
unfolding assert_version_matches_compatibility
assert_version_matches_compatibility_iff previous next report v w has reads small safe =
    let old = parse_exact previous.version v has small in
    let new = parse_exact next.version w reads safe in
    let (apart, joined) =
      throw_all_iff (at_most_zero (compare_version (exact w) (exact v)))
        (is_breaking_class report.classification && leb w.major v.major)
        (is_backward_class report.classification && not (nat_eq w.major v.major)) in
    rw old (
      rw new (
        (λ h.
            let (higher, least, kept) = apart h in
            (
              (compare-IsHigher w v).0 higher,
              (major-IsMajorFor report.classification v w).0 (least, kept),
            )),
        (λ (higher, majors).
            let (least, kept) = (major-IsMajorFor report.classification v w).1 majors in
            joined ((compare-IsHigher w v).1 higher, least, kept)),
      ))
