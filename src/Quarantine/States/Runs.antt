-- ===== src/Quarantine/States/Runs.antt =====
-- What sequences of transitions of packages/operations/src/quarantine-scan.ts can do.
use trust_core.Common.{
  >>=-eq-ok, string_eq, number_eq, option_eq, Any, ok, ◌≡◌, refl, ◌⊎◌, inl, inr, List, [], ◌∷◌,
  arith,
}
use trust_core.Quarantine.States.{
  ScanState, pending_upload, uploaded, scan_queued, scanning, accepted, rejected, manual_review,
  promotion_pending, promoted, failed, run_quarantine, transition_quarantine, scan_state_eq,
}

rejected_next : (t s' : ScanState) → transition_quarantine rejected t ≡ ok s' → s' ≡ rejected
unfolding transition_quarantine
rejected_next rejected s' h = ground arith
rejected_next _ s' h = cc

-- Once rejected, an object stays rejected under every sequence of transitions that is accepted.
pub run_quarantine-rejected :
    (ts : List ScanState) (u : ScanState) → run_quarantine rejected ts ≡ ok u → u ≡ rejected
unfolding run_quarantine
run_quarantine-rejected [] u h = ground arith
run_quarantine-rejected (rejected ∷ ts) u h = run_quarantine-rejected ts u h
run_quarantine-rejected (_ ∷ ts) u h = cc

-- What stands before a promotion.
abbrev pub IsCleared : ScanState → Type 0
IsCleared s = (s ≡ accepted) ⊎ (s ≡ promotion_pending) ⊎ (s ≡ promoted)

clearing_step :
    (s t s' : ScanState)
    → transition_quarantine s t ≡ ok s'
    → IsCleared s'
    → IsCleared s ⊎ (t ≡ accepted)
unfolding transition_quarantine
clearing_step pending_upload t s' h c = ground arith
clearing_step uploaded t s' h c = ground arith
clearing_step scan_queued t s' h c = ground arith
clearing_step scanning t s' h c = ground arith
clearing_step accepted t s' h c = inl (inl refl)
clearing_step rejected t s' h c = ground arith
clearing_step manual_review t s' h c = ground arith
clearing_step promotion_pending t s' h c = inl (inr (inl refl))
clearing_step promoted t s' h c = inl (inr (inr refl))
clearing_step failed t s' h c = ground arith

cleared_run :
    (s : ScanState) (ts : List ScanState) (u : ScanState)
    → run_quarantine s ts ≡ ok u
    → IsCleared u
    → IsCleared s ⊎ Any (λ t. t ≡ accepted) ts
unfolding run_quarantine
cleared_run s [] u h c = ground arith
cleared_run s (t ∷ ts) u h c =
    let (s', stepped, rest) = >>=-eq-ok (transition_quarantine s t) _ h in
    elim (cleared_run s' ts u rest c) [
      | inl c' ↦ elim (clearing_step s t s' stepped c') [
        | inl here ↦ inl here
        | inr now ↦ inr (inl now)
      ]
      | inr later ↦ inr (inr later)
    ]

-- An object that is not accepted, nor promotion_pending, nor promoted, is promoted by an accepted
-- sequence of transitions only if the sequence enters accepted.
pub run_quarantine-promoted :
    (s : ScanState) (ts : List ScanState)
    → ¬ IsCleared s
    → run_quarantine s ts ≡ ok promoted
    → Any (λ t. t ≡ accepted) ts
run_quarantine-promoted s ts unclear h = elim (cleared_run s ts promoted h (inr (inr refl))) [
  | inl c ↦ absurd (unclear c)
  | inr found ↦ found
]
