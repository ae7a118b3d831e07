-- ===== src/Recovery/Gate.antt =====
-- When the gate of packages/recovery/src/index.ts passes.
use trust_core.Common.{
  if◌then◌else◌, Bool-cases, Option-cases, eq_iff, string_eq, number_eq, option_eq, any, find, All,
  is_blank, is_hex_text, ℕ, suc, ◌+◌, ◌≤◌, String, ◌≡◌, refl, sym, ◌↔◌, inl, inr, Bool, true, false,
  not, Option, none, some, List, [], ◌∷◌, ◌++◌, arith,
}
use mathlib.Core.Path.{subst}
use mathlib.Core.List.{append-nil, append_assoc}
use trust_core.Common.Time.{ℤ, is_before}
use trust_core.Recovery.{
  RecoveryExerciseKind, RecoveryExerciseEvidence, exercise_kind_eq, passed, is_evidence_uri,
  is_kind, is_iso_timestamp, validate_exercise, collect, missing_of, RecoveryGateIssue,
  recovery_exercise_kinds, postgres_pitr, missing_blob_restore, combined_store_restore,
  key_recovery, primary_account_unavailable, full_trust_verification, gate_status,
  evaluate_recovery_gate, RecoveryGateEvidence, pass, is_true, outage_issues, gate_issues, issue_if,
  source_commit_invalid, generated_at_invalid, deployment_profile_required,
}

abbrev pub count : RecoveryExerciseKind → List RecoveryExerciseEvidence → ℕ
count k [] = 0
count k (e ∷ es) = if is_kind k e then suc (count k es) else count k es

count-++ :
    (k : RecoveryExerciseKind) (xs ys : List RecoveryExerciseEvidence)
    → count k (xs ++ ys) ≡ count k xs + count k ys
count-++ k [] ys = ground arith
count-++ k (x ∷ xs) ys = ground (arith, count-++ k xs ys)

any-count :
    (k : RecoveryExerciseKind) (xs : List RecoveryExerciseEvidence)
    → (any (is_kind k) xs ≡ false) ↔ (count k xs ≡ 0)
any-count k [] = (λ h. refl, λ h. refl)
any-count k (x ∷ xs) =
    let (into, back) = any-count k xs in (λ h. ground (arith, into), λ h. ground (arith, back))

++-nil : (xs ys : List RecoveryGateIssue) → (xs ++ ys ≡ []) → (xs ≡ []) × (ys ≡ [])
++-nil [] ys h = (refl, h)
++-nil (x ∷ xs) ys h = cc

six_nil :
    (a b c d e f : List RecoveryGateIssue)
    → (a ++ b ++ c ++ d ++ e ++ f ≡ [])
    → (a ≡ []) × (b ≡ []) × (c ≡ []) × (d ≡ []) × (e ≡ []) × (f ≡ [])
six_nil a b c d e f h =
    let (abcde, last) = ++-nil (a ++ b ++ c ++ d ++ e) f h in
    let (abcd, fifth) = ++-nil (a ++ b ++ c ++ d) e abcde in
    let (abc, fourth) = ++-nil (a ++ b ++ c) d abcd in
    let (ab, third) = ++-nil (a ++ b) c abc in
    let (first, second) = ++-nil a b ab in (first, second, third, fourth, fifth, last)

missing_of_iff :
    (l : List RecoveryExerciseEvidence)
    → (missing_of recovery_exercise_kinds l ≡ [])
      ↔ ((k : RecoveryExerciseKind) → any (is_kind k) l ≡ true)
unfolding missing_of
missing_of_iff l = (sound, complete)
  where
    sound :
        missing_of recovery_exercise_kinds l ≡ []
        → (k : RecoveryExerciseKind) → any (is_kind k) l ≡ true
    sound h postgres_pitr = ground (arith, h)
    sound h missing_blob_restore = ground (arith, h)
    sound h combined_store_restore = ground (arith, h)
    sound h key_recovery = ground (arith, h)
    sound h primary_account_unavailable = ground (arith, h)
    sound h full_trust_verification = ground (arith, h)

    complete :
        ((k : RecoveryExerciseKind) → any (is_kind k) l ≡ true)
        → missing_of recovery_exercise_kinds l ≡ []
    complete h = rw (
      h postgres_pitr,
      h missing_blob_restore,
      h combined_store_restore,
      h key_recovery,
      h primary_account_unavailable,
      h full_trust_verification,
    )

module _ (parse : String → Option ℤ) where
  -- The exercise passed, its times are in order, and it names its environment and its evidence.
  pub record IsProven (e : RecoveryExerciseEvidence) : Type 0 where
    pub done : e.status ≡ passed
    pub started : is_iso_timestamp parse e.started_at ≡ true
    pub finished : is_iso_timestamp parse e.finished_at ≡ true
    pub ordered : is_before (parse e.finished_at) (parse e.started_at) ≡ false
    pub somewhere : is_blank e.environment_id ≡ false
    pub evidenced : is_evidence_uri e.evidence_uri ≡ true

  validate_exercise-IsProven :
      (e : RecoveryExerciseEvidence) → validate_exercise parse e ≡ [] → IsProven e
  unfolding validate_exercise
  validate_exercise-IsProven e h = ground arith

  IsProven-validate_exercise :
      (e : RecoveryExerciseEvidence) → IsProven e → validate_exercise parse e ≡ []
  unfolding validate_exercise
  IsProven-validate_exercise e p =
      ground (arith, p.done, p.started, p.finished, p.ordered, p.somewhere, p.evidenced)

  collect_sound :
      (seen xs : List RecoveryExerciseEvidence)
      → (collect parse seen xs).1 ≡ []
      → ((collect parse seen xs).0 ≡ seen ++ xs)
        × All IsProven xs
        × ((k : RecoveryExerciseKind) → count k seen ≤ 1 → count k seen + count k xs ≤ 1)
  unfolding collect
  collect_sound seen [] h = (sym (append-nil seen), tt, λ k b. ground arith)
  collect_sound seen (e ∷ rest) h = elim (Bool-cases (any (is_kind e.kind) seen)) [
    | inl repeated ↦ ground (arith, repeated, h)
    | inr new ↦
        let (valid, others) =
          ++-nil (validate_exercise parse e) (collect parse (seen ++ e ∷ []) rest).1
            (ground (arith, new, h)) in
        let (kept, proven, counts) = collect_sound (seen ++ e ∷ []) rest others in
        (
          ground (arith, new, kept, append_assoc seen (e ∷ []) rest),
          (validate_exercise-IsProven e valid, proven),
          λ k b. elim (Bool-cases (is_kind k e)) [
            | inr other ↦ ground (arith, other, counts k, count-++ k seen (e ∷ []), b)
            | inl same ↦
                let none_yet : count k seen ≡ 0 =
                  subst (λ j. count j seen ≡ 0) ((eq_iff e.kind k).0 same)
                    ((any-count e.kind seen).0 new) in
                ground (arith, same, counts k, count-++ k seen (e ∷ []), none_yet)
          ],
        )
  ]

  collect_complete :
      (seen xs : List RecoveryExerciseEvidence)
      → All IsProven xs
      → ((k : RecoveryExerciseKind) → count k seen + count k xs ≤ 1)
      → (collect parse seen xs).1 ≡ []
  unfolding collect
  collect_complete seen [] proven once = refl
  collect_complete seen (e ∷ rest) proven once =
      let new : any (is_kind e.kind) seen ≡ false =
        (any-count e.kind seen).1 (ground (arith, once e.kind, (eq_iff e.kind e.kind).1 refl)) in
      ground (
        arith,
        new,
        IsProven-validate_exercise e proven.0,
        collect_complete (seen ++ e ∷ []) rest proven.1
            (λ k. ground (arith, once k, count-++ k seen (e ∷ []))),
      )

  -- The evidence names a commit, its time and its profile, has exactly one exercise of each kind,
  -- every exercise is proven, and the outage drill had the account unavailable and an independently
  -- administered target.
  pub record IsComplete (evidence : RecoveryGateEvidence) : Type 0 where
    pub commit : is_hex_text 40 evidence.source_commit ≡ true
    pub dated : is_iso_timestamp parse evidence.generated_at ≡ true
    pub profiled : is_blank evidence.deployment_profile ≡ false
    pub each_once : (k : RecoveryExerciseKind) → count k evidence.exercises ≡ 1
    pub proven : All IsProven evidence.exercises
    pub outage :
        (e : RecoveryExerciseEvidence)
        → find (is_kind primary_account_unavailable) evidence.exercises ≡ some e
        → (is_true e.account_unavailable ≡ true)
          × (is_true e.independently_administered_target ≡ true)

  status_of_issues : (issues : List RecoveryGateIssue) → (gate_status issues ≡ pass) ↔ (issues ≡ [])
  status_of_issues [] = (λ h. refl, λ h. refl)
  status_of_issues (i ∷ issues) = (λ h. ground (arith, h), λ h. ground (arith, h))

  IsProven-found :
      (p : RecoveryExerciseEvidence → Bool) (xs : List RecoveryExerciseEvidence)
      (e : RecoveryExerciseEvidence)
      → All IsProven xs
      → find p xs ≡ some e
      → IsProven e
  IsProven-found p [] e good h = cc
  IsProven-found p (x ∷ xs) e good h = elim (Bool-cases (p x)) [
    | inl hit ↦ subst IsProven (ground (arith, hit, h)) good.0
    | inr miss ↦ IsProven-found p xs e good.1 (ground (arith, miss, h))
  ]

  IsComplete-sound :
      (evidence : RecoveryGateEvidence)
      → (evaluate_recovery_gate parse evidence).status ≡ pass
      → IsComplete evidence
  unfolding evaluate_recovery_gate outage_issues
  IsComplete-sound evidence h =
      let xs = evidence.exercises in
      let out = collect parse [] xs in
      let clean = (status_of_issues (gate_issues parse evidence out.0 out.1)).0 h in
      let (a, b, c, d, m, o) =
        six_nil (issue_if (not (is_hex_text 40 evidence.source_commit)) source_commit_invalid none)
          (issue_if (not (is_iso_timestamp parse evidence.generated_at)) generated_at_invalid none)
          (issue_if (is_blank evidence.deployment_profile) deployment_profile_required none) out.1
          (missing_of recovery_exercise_kinds out.0)
          (outage_issues (find (is_kind primary_account_unavailable) out.0)) clean in
      let (kept, proven, counts) = collect_sound [] xs d in
      let present : (k : RecoveryExerciseKind) → any (is_kind k) xs ≡ true = λ k.
        (missing_of_iff xs).0 (subst (λ l. missing_of recovery_exercise_kinds l ≡ []) kept m) k in
      record {
        commit = ground (arith, a);
        dated = ground (arith, b);
        profiled = ground (arith, c);
        each_once = λ k. ground (arith, counts k, present k, (any-count k xs).1);
        proven = proven;
        outage = λ e f. ground (
          arith,
          (IsProven-found (is_kind primary_account_unavailable) xs e proven f).done,
          subst (λ l. outage_issues (find (is_kind primary_account_unavailable) l) ≡ []) kept o,
          f,
        );
      }

  IsComplete-complete :
      (evidence : RecoveryGateEvidence)
      → IsComplete evidence
      → (evaluate_recovery_gate parse evidence).status ≡ pass
  unfolding evaluate_recovery_gate outage_issues
  IsComplete-complete evidence c =
      let xs = evidence.exercises in
      let pushed = collect_complete [] xs c.proven (λ k. ground (arith, c.each_once k)) in
      let kept = (collect_sound [] xs pushed).0 in
      let present =
        (missing_of_iff xs).1 (λ k. ground (arith, c.each_once k, (any-count k xs).0)) in
      let flags : outage_issues (find (is_kind primary_account_unavailable) xs) ≡ [] =
        elim (Option-cases (find (is_kind primary_account_unavailable) xs)) [
          | inl absent ↦ ground (arith, absent)
          | inr (e, found) ↦ ground (arith, found, (c.outage e found).0, (c.outage e found).1)
        ] in
      ground (arith, kept, pushed, present, flags, c.commit, c.dated, c.profiled)

  -- The gate passes exactly when the evidence is complete: an exact commit, a time and a profile, one
  -- exercise of each of the six kinds and no other, each passed with its times in order, its
  -- environment and its evidence, and an outage drill with both of its flags true.
  pub evaluate_recovery_gate-IsComplete :
      (evidence : RecoveryGateEvidence)
      → ((evaluate_recovery_gate parse evidence).status ≡ pass) ↔ IsComplete evidence
  evaluate_recovery_gate-IsComplete evidence =
      (IsComplete-sound evidence, IsComplete-complete evidence)
