-- ===== src/History/Linked.antt =====
-- The calls of packages/operations/src/history-service.ts keep every lineage and every revision.
use trust_core.Common.{
  Bool-cases, eq_iff, string_eq, number_eq, option_eq, find, Result, ok, err, ℕ, suc, String, ◌≡◌,
  refl, sym, ◌∙◌, inl, inr, Option, none, some, ◌∷◌, arith,
}
use mathlib.Core.Path.{subst, subst₂}
use trust_core.Core.Types.{Resource, Revision, active}
use trust_core.History.Tables.{
  Tables, get_resource, get_revision, in_transaction, is_head, HistoryError, is_revision, committed,
}
use trust_core.History.Tables.Rows.{revision_key, resource_key, find_kept}
use trust_core.History.Service.{
  CreateRevisionInput, new_revision, create_revision, create_revision_within,
}
use trust_core.History.Service.Created.{IsCurrent, head, IsCreated, create_within-IsCreated}
use trust_core.History.Chain.{
  IsChain, start, IsLinked, chain_number, moved_resource, IsChain-cons, IsChain-extended,
}

module _ {P : Type 0} (hash : P → String) (now id : String) (input : CreateRevisionInput P) where
  -- The chain below a revision that a call proposes.
  below :
      (t : Tables P) (resource : Resource) (current : Option (Revision P)) (v : Revision P)
      → IsLinked t
      → get_resource input.workspace_id input.resource_id t ≡ some resource
      → IsCurrent input t resource current
      → v ≡ new_revision hash now id input resource current
      → (n : ℕ) × (v.revision_number ≡ suc n)
        × IsChain t.revisions input.workspace_id input.resource_id v.parent_revision_id n
  unfolding get_revision
  below t resource none v linked stored cur made = (
    0,
    ground (arith, made),
    subst (λ h. IsChain t.revisions input.workspace_id input.resource_id h 0) (ground (arith, made))
        start,
  )
  below t resource (some c) v linked stored (head {id = k} at found) made =
      let (n, chain) = linked input.workspace_id input.resource_id resource stored in
      let num = chain_number chain k c at found in
      (
        n,
        ground (arith, made, num),
        subst (λ h. IsChain t.revisions input.workspace_id input.resource_id h n)
            (ground (arith, made, at, revision_key t.revisions input.workspace_id k c found)) chain,
      )

  pub IsCreated-IsLinked :
      (t t' : Tables P) (v : Revision P)
      → IsLinked t
      → IsCreated hash now id input t t' v
      → IsLinked t'
  unfolding get_resource
  IsCreated-IsLinked t t' v linked c w rid r h =
      let resource = c.resource in
      let moves = is_head resource.workspace_id resource.id input.expected_revision_id in
      let (old, stored, is) =
        moved_resource w rid moves (some v.id) active now t t' r c.written.resources h in
      let (workspace, same) =
        resource_key t.resources input.workspace_id input.resource_id resource c.stored in
      let (old_workspace, old_id) = resource_key t.resources w rid old stored in
      let (n, chain) = linked w rid old stored in
      let (m, num, tail) = below t resource c.current v linked c.stored c.is_current c.made in
      elim (Bool-cases (moves old)) [
        | inr other ↦ (
          n,
          subst (λ l. IsChain l w rid r.current_revision_id n) (sym c.written.revisions)
              (subst (λ k. IsChain (v ∷ t.revisions) w rid k n) (ground (arith, is, other))
                (IsChain-cons v c.written.fresh chain)),
        )
        | inl moved ↦
            let here : input.workspace_id ≡ w = ground (
              arith,
              eq_iff old.workspace_id resource.workspace_id,
              moved,
              workspace,
              old_workspace,
            ) in
            let there : input.resource_id ≡ rid =
              ground (arith, eq_iff old.id resource.id, moved, same, old_id) in
            let extended =
              IsChain-extended v c.written.fresh (c.next.workspace_same ∙ workspace)
                (c.next.resource_same ∙ same) num tail in
            (
              suc m,
              subst (λ l. IsChain l w rid r.current_revision_id (suc m)) (sym c.written.revisions)
                  (subst (λ k. IsChain (v ∷ t.revisions) w rid k (suc m))
                    (ground (arith, is, moved))
                    (subst₂ (λ a b. IsChain (v ∷ t.revisions) a b (some v.id) (suc m)) here there
                      extended)),
            )
      ]

  -- Every lineage stays a chain numbered down to 1, whether the call returns or throws.
  pub create_revision-IsLinked :
      (t : Tables P) → IsLinked t → IsLinked (create_revision hash now id input t).0
  unfolding create_revision in_transaction
  create_revision-IsLinked t linked = go (create_revision_within hash now id input t) refl
    where
      go :
          (out : Tables P × Result HistoryError (Revision P))
          → create_revision_within hash now id input t ≡ out
          → IsLinked (committed t out).0
      go (t', ok v) e =
          IsCreated-IsLinked t t' v linked (create_within-IsCreated hash now id input t t' v e)
      go (t', err x) e = linked

  -- A revision once written is read back unchanged after every later call, whether it returns or throws.
  pub create_revision_keeps :
      (t : Tables P) (w k : String) (r : Revision P)
      → get_revision w k t ≡ some r
      → get_revision w k (create_revision hash now id input t).0 ≡ some r
  unfolding create_revision in_transaction get_revision
  create_revision_keeps t w k r h = go (create_revision_within hash now id input t) refl
    where
      go :
          (out : Tables P × Result HistoryError (Revision P))
          → create_revision_within hash now id input t ≡ out
          → find (is_revision w k) (committed t out).0.revisions ≡ some r
      go (t', ok v) e =
          let c = create_within-IsCreated hash now id input t t' v e in
          subst (λ l. find (is_revision w k) l ≡ some r) (sym c.written.revisions)
            (find_kept v t.revisions w k r c.written.fresh h)
      go (t', err x) e = h
