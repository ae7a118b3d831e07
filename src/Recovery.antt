-- ===== src/Recovery.antt =====
-- packages/recovery/src/index.ts. `Date.parse` is an argument; the messages of the issues are left
-- out, since the code of an issue determines its message.
pub mod Gate
mod Examples
use trust_core.Common.{
  after_prefix, starts_with, contains, is_truthy, ltb, leb, nat_eq, if◌then◌else◌, nat_eq_iff,
  Bool-cases, Option-cases, Eq, ◌==◌, eq_iff, string_eq, number_eq, option_beq, option_beq_iff,
  option_eq, discrete_beq, discrete_beq_iff, discrete_eq, length, length-append, any, all, find,
  keep, find-keep, find-append, find-Any, Any-find, find-Mem, Any-map, All, Any, includes, codes,
  is_space, is_blank, is_empty, is_hex, is_hex_text, Result, ok, err, ◌>>=◌, ◌>>◌, throw_if,
  Result-cases, >>=-eq-ok, Dict, lookup, insert, delete, values, lookup-insert, lookup-delete,
  lookup-insert_self, ℕ, zero, suc, ◌+◌, ◌-◌, ◌*◌, ◌/◌, ◌%◌, ◌^◌, ◌≤◌, ◌<◌, String, ◌≡◌, refl, sym,
  ap, ◌∙◌, ◌≢◌, ◌↔◌, ◌⊎◌, inl, inr, Bool, true, false, not, ◌&&◌, ◌||◌, Option, none, some, List,
  [], ◌∷◌, ◌++◌, map, arith,
}
use trust_core.Common.Time.{ℤ, is_before}

pub data RecoveryExerciseKind : Type 0 where
  postgres_pitr missing_blob_restore combined_store_restore : RecoveryExerciseKind
  key_recovery primary_account_unavailable full_trust_verification : RecoveryExerciseKind

abbrev pub RecoveryExerciseKind-discrete : Discrete RecoveryExerciseKind
RecoveryExerciseKind-discrete = hlevel

instance abbrev pub exercise_kind_eq : Eq RecoveryExerciseKind
exercise_kind_eq = discrete_eq RecoveryExerciseKind-discrete

abbrev pub recovery_exercise_kinds : List RecoveryExerciseKind
recovery_exercise_kinds =
    postgres_pitr ∷ missing_blob_restore ∷ combined_store_restore ∷ key_recovery
    ∷ primary_account_unavailable ∷ full_trust_verification ∷ []

pub data RecoveryExerciseStatus : Type 0 where
  passed failed not_run : RecoveryExerciseStatus

pub record RecoveryExerciseEvidence : Type 0 where
  pub kind : RecoveryExerciseKind
  pub status : RecoveryExerciseStatus
  pub started_at : String
  pub finished_at : String
  pub environment_id : String
  pub evidence_uri : String
  pub notes : Option String
  pub account_unavailable : Option Bool
  pub independently_administered_target : Option Bool

pub record RecoveryGateEvidence : Type 0 where
  pub source_commit : String
  pub generated_at : String
  pub deployment_profile : String
  pub exercises : List RecoveryExerciseEvidence

pub data IssueCode : Type 0 where
  source_commit_invalid generated_at_invalid deployment_profile_required : IssueCode
  exercise_duplicate exercise_missing outage_boundary_unproven exercise_failed : IssueCode
  exercise_not_run exercise_time_invalid environment_required evidence_uri_invalid : IssueCode

pub record RecoveryGateIssue : Type 0 where
  pub code : IssueCode
  pub exercise : Option RecoveryExerciseKind

pub data GateStatus : Type 0 where
  pass fail : GateStatus

pub record RecoveryGateReport : Type 0 where
  pub status : GateStatus
  pub source_commit : String
  pub checked_exercises : ℕ
  pub issues : List RecoveryGateIssue

-- `if (bad) issues.push({ code, exercise })`.
abbrev pub issue_if : Bool → IssueCode → Option RecoveryExerciseKind → List RecoveryGateIssue
issue_if true code exercise = record { code = code; exercise = exercise } ∷ []
issue_if false code exercise = []

-- /^(https:\/\/|artifact:)[^\s]+$/
abbrev is_word : Option (List ℕ) → Bool
is_word none = false
is_word (some []) = false
is_word (some (c ∷ text)) = all (λ x. not (is_space x)) (c ∷ text)

pub is_evidence_uri : String → Bool
unfolding after_prefix
is_evidence_uri value =
    is_word (after_prefix (codes "https://") (codes value))
    || is_word (after_prefix (codes "artifact:") (codes value))

abbrev pub is_kind : RecoveryExerciseKind → RecoveryExerciseEvidence → Bool
is_kind k e = e.kind == k

abbrev pub status_issues : RecoveryExerciseEvidence → List RecoveryGateIssue
status_issues e = elim e.status [
  | passed ↦ []
  | failed ↦ issue_if true exercise_failed (some e.kind)
  | not_run ↦ issue_if true exercise_not_run (some e.kind)
]

-- `flag !== true`.
abbrev pub is_true : Option Bool → Bool
is_true none = false
is_true (some b) = b

abbrev pub is_passed : RecoveryExerciseStatus → Bool
is_passed passed = true
is_passed _ = false

pub missing_of : List RecoveryExerciseKind → List RecoveryExerciseEvidence → List RecoveryGateIssue
missing_of [] by_kind = []
missing_of (k ∷ ks) by_kind =
    issue_if (not (any (is_kind k) by_kind)) exercise_missing (some k) ++ missing_of ks by_kind

pub outage_issues : Option RecoveryExerciseEvidence → List RecoveryGateIssue
outage_issues none = []
outage_issues (some e) =
    issue_if
      (is_passed e.status
        && (not (is_true e.account_unavailable)
            || not (is_true e.independently_administered_target)))
      outage_boundary_unproven (some primary_account_unavailable)

abbrev pub gate_status : List RecoveryGateIssue → GateStatus
gate_status [] = pass
gate_status (i ∷ issues) = fail

module _ (parse : String → Option ℤ) where
  abbrev pub is_finite : Option ℤ → Bool
  is_finite none = false
  is_finite (some t) = true

  pub is_iso_timestamp : String → Bool
  is_iso_timestamp value = is_finite (parse value) && includes (codes value) b'T'

  pub validate_exercise : RecoveryExerciseEvidence → List RecoveryGateIssue
  validate_exercise e =
      status_issues e
      ++ issue_if
          (not (is_iso_timestamp e.started_at)
            || not (is_iso_timestamp e.finished_at)
            || is_before (parse e.finished_at) (parse e.started_at))
          exercise_time_invalid (some e.kind)
      ++ issue_if (is_blank e.environment_id) environment_required (some e.kind)
      ++ issue_if (not (is_evidence_uri e.evidence_uri)) evidence_uri_invalid (some e.kind)

  -- The loop over the exercises: the values of `byKind`, and the issues that it pushes.
  pub collect :
      List RecoveryExerciseEvidence
      → List RecoveryExerciseEvidence
      → List RecoveryExerciseEvidence × List RecoveryGateIssue
  unfolding validate_exercise
  collect by_kind [] = (by_kind, [])
  collect by_kind (e ∷ rest) = elim (any (is_kind e.kind) by_kind) [
    | true ↦
        let out = collect by_kind rest in
        (out.0, issue_if true exercise_duplicate (some e.kind) ++ out.1)
    | false ↦ let out = collect (by_kind ++ e ∷ []) rest in (out.0, validate_exercise e ++ out.1)
  ]

  -- The issues of the whole: those of the evidence itself, those pushed by the loop, and those of the
  -- exercises that are missing or do not prove the outage.
  abbrev pub gate_issues :
      RecoveryGateEvidence
      → List RecoveryExerciseEvidence
      → List RecoveryGateIssue
      → List RecoveryGateIssue
  gate_issues evidence by_kind pushed =
      issue_if (not (is_hex_text 40 evidence.source_commit)) source_commit_invalid none
      ++ issue_if (not (is_iso_timestamp evidence.generated_at)) generated_at_invalid none
      ++ issue_if (is_blank evidence.deployment_profile) deployment_profile_required none
      ++ pushed
      ++ missing_of recovery_exercise_kinds by_kind
      ++ outage_issues (find (is_kind primary_account_unavailable) by_kind)

  pub evaluate_recovery_gate : RecoveryGateEvidence → RecoveryGateReport
  evaluate_recovery_gate evidence =
      let out = collect [] evidence.exercises in
      let issues = gate_issues evidence out.0 out.1 in
      record {
        status = gate_status issues;
        source_commit = evidence.source_commit;
        checked_exercises = length out.0;
        issues = issues;
      }
