-- ===== src/Recovery/Examples.antt =====
-- Concrete evidence of recovery.
use trust_core.Common.{
  if◌then◌else◌, ◌==◌, string_eq, number_eq, option_eq, is_blank, is_hex_text, String, ◌≡◌, refl,
  ◌↔◌, true, Option, none, some, [], ◌∷◌,
}
use trust_core.Common.Time.{ℤ, pos}
use trust_core.Recovery.{
  RecoveryExerciseKind, RecoveryExerciseEvidence, RecoveryGateEvidence, passed, postgres_pitr,
  missing_blob_restore, combined_store_restore, key_recovery, primary_account_unavailable,
  full_trust_verification, evaluate_recovery_gate, pass, collect, missing_of, outage_issues,
  validate_exercise, is_evidence_uri, is_iso_timestamp,
}
use trust_core.Recovery.Gate.{IsComplete, evaluate_recovery_gate-IsComplete}

-- The instants of the texts below.
abbrev date_parse : String → Option ℤ
date_parse text =
    if text == "2026-01-01T00:00:00Z"
    then some (pos 1767225600000)
    else if text == "2026-01-01T01:00:00Z"
    then some (pos 1767229200000)
    else none

abbrev exercise : RecoveryExerciseKind → RecoveryExerciseEvidence
exercise kind = record {
  kind = kind;
  status = passed;
  started_at = "2026-01-01T00:00:00Z";
  finished_at = "2026-01-01T01:00:00Z";
  environment_id = "drill";
  evidence_uri = "artifact:drill-1";
  notes = none;
  account_unavailable = some true;
  independently_administered_target = some true;
}

abbrev evidence : RecoveryGateEvidence
evidence = record {
  source_commit = "0123456789abcdef0123456789abcdef01234567";
  generated_at = "2026-01-01T01:00:00Z";
  deployment_profile = "cloud";
  exercises =
      exercise full_trust_verification
      ∷ exercise postgres_pitr
      ∷ exercise missing_blob_restore
      ∷ exercise combined_store_restore
      ∷ exercise key_recovery
      ∷ exercise primary_account_unavailable
      ∷ [];
}

evaluate_recovery_gate-IsComplete_example :
    ((evaluate_recovery_gate date_parse evidence).status ≡ pass) ↔ IsComplete date_parse evidence
evaluate_recovery_gate-IsComplete_example = evaluate_recovery_gate-IsComplete date_parse evidence

test_passes : (evaluate_recovery_gate date_parse evidence).status ≡ pass
unfolding evaluate_recovery_gate collect missing_of outage_issues validate_exercise is_evidence_uri
    is_iso_timestamp is_hex_text is_blank
test_passes = refl
