-- ===== src/History/Calls/Restored.antt =====
-- Lineages and revisions through every call of packages/operations/src/history-service.ts, and what
-- a restoration brings back.
use trust_core.History.Tables.Rows.{find_kept}
use trust_core.History.Service.Restored.{restore_within-IsRestored, restore_within_parts}
use trust_core.History.Conflicts.{created_head}
use trust_core.History.Linked.{create_revision-IsLinked, create_revision_keeps, IsCreated-IsLinked}
use trust_core.History.Calls.{
  step_history, run_history, delete_resource, HistoryCall, creates, deletes, restores,
}
use trust_core.Common.{
  eq_iff, string_eq, number_eq, option_eq, find, Result, ok, err, String, ◌≡◌, refl, sym, ap, ◌∙◌,
  some, List, [], ◌∷◌, arith,
}
use trust_core.Common.Effect.{M}
use mathlib.Core.Path.{subst}
use trust_core.Core.Types.{Resource, Revision, Tombstone, deleted_logically, active}
use trust_core.History.Tables.{
  Tables, HistoryError, committed, is_head, new_head, get_resource, get_revision,
  get_open_tombstone, close_tombstone, is_resource, in_transaction, is_revision,
}
use trust_core.History.Service.{
  DeleteResourceInput, RestoreResourceInput, restore_within, restoring, restore_resource,
  delete_resource, delete_within,
}
use trust_core.History.Service.Created.{IsDeleted, delete_within-IsDeleted, create_within-IsCreated}
use trust_core.History.Chain.{IsChain, IsLinked, moved_resource}

module _ {P : Type 0} (now id : String) (input : DeleteResourceInput) where
  IsDeleted-IsLinked :
      (t t' : Tables P) (v : Tombstone) → IsLinked t → IsDeleted now id input t t' v → IsLinked t'
  IsDeleted-IsLinked t t' v linked d w rid r h =
      let resource = d.resource in
      let moves = is_head resource.workspace_id resource.id input.expected_revision_id in
      let (old, stored, is) =
        moved_resource w rid moves resource.current_revision_id deleted_logically now t t' r
          d.resources h in
      let (n, chain) = linked w rid old stored in
      let same : r.current_revision_id ≡ old.current_revision_id =
        ground (arith, is, d.expected, eq_iff old.current_revision_id input.expected_revision_id) in
      (
        n,
        subst (λ l. IsChain l w rid r.current_revision_id n) (sym d.revisions)
            (subst (λ k. IsChain t.revisions w rid k n) (sym same) chain),
      )

-- Tables with the same resources and revisions have the same lineages.
IsLinked-same :
    {P : Type 0} (t t' : Tables P)
    → t'.revisions ≡ t.revisions
    → t'.resources ≡ t.resources
    → IsLinked t
    → IsLinked t'
unfolding get_resource
IsLinked-same t t' revs rows linked w rid r h =
    let (n, chain) = linked w rid r (subst (λ l. find (is_resource w rid) l ≡ some r) rows h) in
    (n, subst (λ l. IsChain l w rid r.current_revision_id n) (sym revs) chain)

-- A property that holds before a transaction holds after it when the statements keep it.
in_transaction_keeps :
    {P A : Type 0} (Q : Tables P → Type 0) (body : M (Tables P) HistoryError A) (t : Tables P)
    → Q t
    → ((t' : Tables P) (v : A) → body t ≡ (t', ok v) → Q t')
    → Q (in_transaction body t).0
unfolding in_transaction
in_transaction_keeps {P} {A} Q body t before after = go (body t) refl
  where
    go : (out : Tables P × Result HistoryError A) → body t ≡ out → Q (committed t out).0
    go (t', ok v) e = after t' v e
    go (t', err x) e = before

closed_resources :
    {P : Type 0} (db_now : String) (input : RestoreResourceInput) (t' m : Tables P) (id : String)
    → t' ≡ (close_tombstone db_now input.workspace_id id input.actor_id m).0
    → t'.resources ≡ m.resources
unfolding close_tombstone
closed_resources db_now input t' m id h = ap (λ u. u.resources) h

closed_revisions :
    {P : Type 0} (db_now : String) (input : RestoreResourceInput) (t' m : Tables P) (id : String)
    → t' ≡ (close_tombstone db_now input.workspace_id id input.actor_id m).0
    → t'.revisions ≡ m.revisions
unfolding close_tombstone
closed_revisions db_now input t' m id h = ap (λ u. u.revisions) h

module _ {P : Type 0} (hash : P → String) where
  step-IsLinked : (c : HistoryCall P) (t : Tables P) → IsLinked t → IsLinked (step_history hash c t)
  unfolding step_history delete_resource restore_resource
  step-IsLinked (creates now id input) t linked =
      create_revision-IsLinked hash now id input t linked
  step-IsLinked (deletes now id input) t linked =
      in_transaction_keeps IsLinked (delete_within now id input) t linked (λ t' v e.
        IsDeleted-IsLinked now id input t t' v linked
          (delete_within-IsDeleted now id input t t' v e))
  step-IsLinked (restores checked_at now id db_now input) t linked =
      in_transaction_keeps IsLinked (restore_within hash checked_at now id db_now input) t linked
        (λ t' v e.
          let (m, revs, rows, input', made) =
            restore_within_parts hash checked_at now id db_now input t t' v
              (restore_within-IsRestored hash checked_at now id db_now input t t' v e) in
          IsLinked-same m t' revs rows (
            IsCreated-IsLinked hash now id input' t m v linked
              (create_within-IsCreated hash now id input' t m v made)))

  -- If every resource's head is the top of a chain of revisions of that resource, each the parent
  -- of the one before, numbered n, …, 2, 1, then so it is after any calls, in any order and with
  -- any outcome.
  pub run_history-IsLinked :
      (cs : List (HistoryCall P)) (t : Tables P) → IsLinked t → IsLinked (run_history hash cs t)
  unfolding run_history
  run_history-IsLinked [] t linked = linked
  run_history-IsLinked (c ∷ cs) t linked =
      run_history-IsLinked cs (step_history hash c t) (step-IsLinked c t linked)

  step_keeps :
      (c : HistoryCall P) (t : Tables P) (w k : String) (r : Revision P)
      → get_revision w k t ≡ some r
      → get_revision w k (step_history hash c t) ≡ some r
  unfolding step_history delete_resource restore_resource get_revision
  step_keeps (creates now id input) t w k r h = create_revision_keeps hash now id input t w k r h
  step_keeps (deletes now id input) t w k r h =
      in_transaction_keeps (λ u. find (is_revision w k) u.revisions ≡ some r)
        (delete_within now id input) t h
        (λ t' v e.
          subst (λ l. find (is_revision w k) l ≡ some r)
            (sym (delete_within-IsDeleted now id input t t' v e).revisions) h)
  step_keeps (restores checked_at now id db_now input) t w k r h =
      in_transaction_keeps (λ u. find (is_revision w k) u.revisions ≡ some r)
        (restore_within hash checked_at now id db_now input) t h
        (λ t' v e.
          let (m, revs, rows, input', made) =
            restore_within_parts hash checked_at now id db_now input t t' v
              (restore_within-IsRestored hash checked_at now id db_now input t t' v e) in
          let c = create_within-IsCreated hash now id input' t m v made in
          subst (λ l. find (is_revision w k) l ≡ some r) (sym (revs ∙ c.written.revisions))
            (find_kept v t.revisions w k r c.written.fresh h))

  -- A revision that was once written is read back unchanged after any later calls.
  pub run_history_keeps :
      (cs : List (HistoryCall P)) (t : Tables P) (w k : String) (r : Revision P)
      → get_revision w k t ≡ some r
      → get_revision w k (run_history hash cs t) ≡ some r
  unfolding run_history
  run_history_keeps [] t w k r h = h
  run_history_keeps (c ∷ cs) t w k r h =
      run_history_keeps cs (step_history hash c t) w k r (step_keeps c t w k r h)

  committed_ok :
      (out : Tables P × Result HistoryError (Revision P)) (t t' : Tables P) (v : Revision P)
      → committed t out ≡ (t', ok v)
      → out ≡ (t', ok v)
  committed_ok (s, ok w) t t' v h = h
  committed_ok (s, err e) t t' v h = ground (arith, h)

  -- A restoration that returns has stored a revision, which is the head of the active resource; its
  -- payload is that of the revision that the open tombstone names, and it records that revision as
  -- its origin.
  pub restore_resource_payload :
      (checked_at now id db_now : String) (input : RestoreResourceInput) (t t' : Tables P)
      (v : Revision P)
      → restore_resource hash checked_at now id db_now input t ≡ (t', ok v)
      → (stone : Tombstone) × (k : String) × (prior : Revision P) × (head : Resource)
        × (get_open_tombstone input.workspace_id input.resource_id t ≡ some stone)
        × (stone.prior_revision_id ≡ some k)
        × (get_revision input.workspace_id k t ≡ some prior)
        × (v.canonical_payload ≡ prior.canonical_payload)
        × (v.restored_from_revision_id ≡ some prior.id)
        × (get_resource input.workspace_id input.resource_id t' ≡ some head)
        × (head.current_revision_id ≡ some v.id)
        × (head.status ≡ active)
        × (get_revision input.workspace_id v.id t' ≡ some v)
  unfolding restore_resource in_transaction get_resource get_revision
  restore_resource_payload checked_at now id db_now input t t' v h =
      let e = committed_ok (restore_within hash checked_at now id db_now input t) t t' v h in
      let r = restore_within-IsRestored hash checked_at now id db_now input t t' v e in
      let c =
        create_within-IsCreated hash now id (restoring input r.resource r.prior) t r.middle v
          r.created in
      let (top, kept) =
        created_head hash now id (restoring input r.resource r.prior) t r.middle v c in
      (
        r.stone,
        r.prior_id,
        r.prior,
        new_head (some v.id) active now c.resource,
        r.opened,
        r.names,
        r.kept,
        ap (λ u. u.canonical_payload) c.made,
        ap (λ u. u.restored_from_revision_id) c.made,
        subst
            (λ l.
              find (is_resource input.workspace_id input.resource_id) l
              ≡ some (new_head (some v.id) active now c.resource))
            (sym (closed_resources db_now input t' r.middle r.stone.id r.closed)) top,
        refl,
        refl,
        subst (λ l. find (is_revision input.workspace_id v.id) l ≡ some v)
            (sym (closed_revisions db_now input t' r.middle r.stone.id r.closed)) kept,
      )
