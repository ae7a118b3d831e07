-- ===== src/Quarantine/Orchestrator/Callbacks.antt =====
-- `handleCallback` of packages/operations/src/quarantine-scan.ts.
use trust_core.Common.{
  Bool-cases, Option-cases, ◌==◌, eq_iff, string_eq, number_eq, option_eq, includes, Result, ok,
  err, lookup, insert, lookup-insert, String, ◌≡◌, refl, sym, ◌∙◌, ◌≢◌, ◌⊎◌, inl, inr, true, ◌&&◌,
  some, List, ◌∷◌, arith,
}
use mathlib.Core.Path.{subst}
use trust_core.Quarantine.States.{
  scanning, accepted, invalid, outcome_state, transition_quarantine, scan_state_eq, scan_outcome_eq,
  ScanOutcome, clean,
}
use trust_core.Quarantine.Store.{QuarantineScanRecord, save, get_by_scan_job_id}
use trust_core.Quarantine.Store.Index.{IsIndexed, save_update, get_found}
use trust_core.Quarantine.Orchestrator.{
  Orchestrator, ScanCallback, ScanError, not_authentic, unknown_job, transition, callback_key,
  apply_callback, handle_callback, ScanStore,
}

outcome_allowed :
    (k : ScanOutcome) → transition_quarantine scanning (outcome_state k) ≡ ok (outcome_state k)
unfolding transition_quarantine outcome_state
outcome_allowed clean = refl
outcome_allowed _ = refl

-- The record with the callback's outcome.
abbrev pub updated : String → ScanCallback → QuarantineScanRecord → QuarantineScanRecord
updated now c r = record r {
  state = outcome_state c.outcome;
  outcome = some c.outcome;
  updated_at = now;
}

abbrev pub marked : ScanCallback → Orchestrator → Orchestrator
marked c o = record o { processed_callbacks = callback_key c ∷ o.processed_callbacks }

abbrev pub recorded : String → ScanCallback → QuarantineScanRecord → Orchestrator → Orchestrator
recorded now c r o = record o {
  store = insert r.scan_job_id (updated now c r) o.store;
  processed_callbacks = callback_key c ∷ o.processed_callbacks;
}

module _ (now : String) (c : ScanCallback) (o : Orchestrator) where
  data Applied (r : QuarantineScanRecord)
      (out : Orchestrator × Result ScanError QuarantineScanRecord) : Type 0 where
    replayed :
        includes o.processed_callbacks (callback_key c) ≡ true → out ≡ (o, ok r) → Applied r out
    settled :
        r.outcome ≡ some c.outcome
        → r.state ≡ outcome_state c.outcome
        → out ≡ (marked c o, ok r)
        → Applied r out
    late :
        r.state ≢ scanning → out ≡ (o, err (transition (invalid r.state accepted))) → Applied r out
    finished : r.state ≡ scanning → out ≡ (recorded now c r o, ok (updated now c r)) → Applied r out

  finish_update :
      (r : QuarantineScanRecord)
      → lookup r.scan_job_id o.store ≡ some r
      → save (updated now c r) o.store ≡ (insert r.scan_job_id (updated now c r) o.store, ok tt)
  finish_update r found = save_update (updated now c r) r o.store found refl refl refl refl

  apply_callback-Applied :
      (r : QuarantineScanRecord)
      → lookup r.scan_job_id o.store ≡ some r
      → Applied r (apply_callback now c r o)
  unfolding apply_callback
  apply_callback-Applied r found =
      elim (Bool-cases (includes o.processed_callbacks (callback_key c))) [
        | inl seen ↦ replayed seen (rw seen)
        | inr unseen ↦
            elim (Bool-cases (r.outcome == some c.outcome && r.state == outcome_state c.outcome)) [
              | inl done ↦
                  settled (ground (arith, eq_iff r.outcome (some c.outcome), done))
                    (ground (arith, eq_iff r.state (outcome_state c.outcome), done))
                    (rw (unseen, done))
              | inr other ↦ elim (Bool-cases (r.state == scanning)) [
                | inl running ↦ finished ((eq_iff r.state scanning).0 running) (
                    rw (unseen, other, running)
                      (ground (
                        arith,
                        (eq_iff r.state scanning).0 running,
                        outcome_allowed c.outcome,
                        finish_update r found,
                      )))
                | inr stopped ↦
                    late (ground (arith, eq_iff r.state scanning)) (rw (unseen, other, stopped))
              ]
            ]
      ]

includes-head : (k : String) (ks : List String) → includes (k ∷ ks) k ≡ true
includes-head k ks = ground (arith, eq_iff k k)

-- What a handled callback leaves, from a record that the callback found.
module _ (now : String) (c : ScanCallback) (o : Orchestrator) (v : IsIndexed o.store) where
  -- Either the call is refused and changes nothing, or it is authentic and is applied to the record
  -- that stands under its job id.
  data Handled (out : Orchestrator × Result ScanError QuarantineScanRecord) : Type 0 where
    refused : (e : ScanError) → out ≡ (o, err e) → Handled out
    applied :
        (r : QuarantineScanRecord)
        → c.authentic ≡ true
        → get_by_scan_job_id c.workspace_id c.scan_job_id o.store ≡ some r
        → r.workspace_id ≡ c.workspace_id
        → r.scan_job_id ≡ c.scan_job_id
        → Applied now c o r out
        → Handled out

  handle_callback-Handled : Handled (handle_callback now c o)
  unfolding handle_callback
  handle_callback-Handled = elim (Bool-cases c.authentic) [
    | inr forged ↦ refused not_authentic (rw forged)
    | inl genuine ↦ elim (Option-cases (get_by_scan_job_id c.workspace_id c.scan_job_id o.store)) [
      | inl missing ↦ refused unknown_job (rw (genuine, missing))
      | inr (r, found) ↦
          let (stored, workspace, job) = get_found c.workspace_id c.scan_job_id r o.store v found in
          let out : Applied now c o r (apply_callback now c r o) =
            apply_callback-Applied now c o r
              (subst (λ k. lookup k o.store ≡ some r) (sym job) stored) in
          let step : handle_callback now c o ≡ apply_callback now c r o =
            ground (arith, genuine, found, (eq_iff r.workspace_id c.workspace_id).1 workspace) in
          applied r genuine found workspace job (subst (Applied now c o r) (sym step) out)
    ]
  ]

-- Over an indexed store, a callback that ends in an error changes neither the records nor the
-- processed callbacks nor what was submitted.
pub handle_callback_refused :
    (now : String) (c : ScanCallback) (o : Orchestrator) (e : ScanError)
    → IsIndexed o.store
    → (handle_callback now c o).1 ≡ err e
    → (handle_callback now c o).0 ≡ o
handle_callback_refused now c o e v h = go (handle_callback-Handled now c o v)
  where
    go : Handled now c o v (handle_callback now c o) → (handle_callback now c o).0 ≡ o
    go (refused e' eq) = rw eq
    go (applied r a f w j (replayed seen eq)) = rw eq
    go (applied r a f w j (settled k st eq)) = ground (arith, eq, h)
    go (applied r a f w j (late st eq)) = rw eq
    go (applied r a f w j (finished st eq)) = ground (arith, eq, h)

-- Over an indexed store, a record that stands under a job after a callback stood there before, or
-- the job is the callback's own, the callback is authentic, the job was being scanned, and the
-- record is the old one with the outcome, the state that belongs to the outcome, and the time.
pub handle_callback_accepted :
    (now : String) (c : ScanCallback) (o : Orchestrator) (j : String) (s : QuarantineScanRecord)
    → IsIndexed o.store
    → lookup j (handle_callback now c o).0.store ≡ some s
    → (lookup j o.store ≡ some s)
      ⊎ ((r : QuarantineScanRecord) × (c.authentic ≡ true)
          × (j ≡ c.scan_job_id)
          × (lookup j o.store ≡ some r)
          × (r.state ≡ scanning)
          × (s ≡ record r {
            state = outcome_state c.outcome;
            outcome = some c.outcome;
            updated_at = now;
          }))
handle_callback_accepted now c o j s v h = go (handle_callback-Handled now c o v)
  where
    go :
        Handled now c o v (handle_callback now c o)
        → (lookup j o.store ≡ some s)
          ⊎ ((r : QuarantineScanRecord) × (c.authentic ≡ true)
              × (j ≡ c.scan_job_id)
              × (lookup j o.store ≡ some r)
              × (r.state ≡ scanning)
              × (s ≡ record r {
                state = outcome_state c.outcome;
                outcome = some c.outcome;
                updated_at = now;
              }))
    go (refused e eq) = inl (ground (arith, eq, h))
    go (applied r a f w job (replayed seen eq)) = inl (ground (arith, eq, h))
    go (applied r a f w job (settled k st eq)) = inl (ground (arith, eq, h))
    go (applied r a f w job (late st eq)) = inl (ground (arith, eq, h))
    go (applied r a f w job (finished st eq)) = elim (Bool-cases (r.scan_job_id == j)) [
      | inr other ↦
          inl
            (ground (arith, eq, h, other, lookup-insert r.scan_job_id j (updated now c r) o.store))
      | inl same ↦
          let here = (eq_iff r.scan_job_id j).0 same in
          let stored = (get_found c.workspace_id c.scan_job_id r o.store v f).0 in
          inr (
            r,
            a,
            sym here ∙ job,
            subst (λ k. lookup k o.store ≡ some r) (sym (sym here ∙ job)) stored,
            st,
            ground (arith, eq, h, same, lookup-insert r.scan_job_id j (updated now c r) o.store),
          )
    ]

module _ (later : String) (c : ScanCallback) (o : Orchestrator) (r : QuarantineScanRecord) where
  replay :
      c.authentic ≡ true
      → includes o.processed_callbacks (callback_key c) ≡ true
      → get_by_scan_job_id c.workspace_id c.scan_job_id o.store ≡ some r
      → r.workspace_id ≡ c.workspace_id
      → handle_callback later c o ≡ (o, ok r)
  unfolding handle_callback apply_callback
  replay genuine seen found workspace =
      ground (arith, genuine, seen, found, (eq_iff r.workspace_id c.workspace_id).1 workspace)

  get_inserted :
      r.workspace_id ≡ c.workspace_id
      → r.scan_job_id ≡ c.scan_job_id
      → (m : ScanStore)
      → get_by_scan_job_id c.workspace_id c.scan_job_id (insert r.scan_job_id r m) ≡ some r
  unfolding get_by_scan_job_id
  get_inserted workspace job m = ground (
    arith,
    lookup-insert r.scan_job_id c.scan_job_id r m,
    eq_iff r.scan_job_id c.scan_job_id,
    eq_iff r.workspace_id c.workspace_id,
  )

-- Over an indexed store, a callback that was handled and is delivered again next, whatever the
-- clock then reads, is answered by the same record and changes nothing.
pub handle_callback-handle_callback :
    (now later : String) (c : ScanCallback) (o : Orchestrator) (r : QuarantineScanRecord)
    → IsIndexed o.store
    → (handle_callback now c o).1 ≡ ok r
    → handle_callback later c (handle_callback now c o).0 ≡ ((handle_callback now c o).0, ok r)
handle_callback-handle_callback now later c o r v h = go (handle_callback-Handled now c o v)
  where
    go :
        Handled now c o v (handle_callback now c o)
        → handle_callback later c (handle_callback now c o).0 ≡ ((handle_callback now c o).0, ok r)
    go (refused e eq) = ground (arith, eq, h)
    go (applied s a f w job (late st eq)) = ground (arith, eq, h)
    go (applied s a f w job (replayed seen eq)) =
        ground (arith, eq, h, replay later c o s a seen f w)
    go (applied s a f w job (settled k st eq)) = ground (
      arith,
      eq,
      h,
      replay later c (marked c o) s a (includes-head (callback_key c) o.processed_callbacks) f w,
    )
    go (applied s a f w job (finished st eq)) = ground (
      arith,
      eq,
      h,
      replay later c (recorded now c s o) (updated now c s) a
          (includes-head (callback_key c) o.processed_callbacks)
          (get_inserted later c o (updated now c s) w job o.store) w,
    )
