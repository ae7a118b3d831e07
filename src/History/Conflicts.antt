-- ===== src/History/Conflicts.antt =====
-- Optimistic concurrency in packages/operations/src/history-service.ts.
use trust_core.Core.Types.{Resource, Revision, active}
use trust_core.History.Tables.{
  Tables, HistoryError, history_conflict, is_resource, is_head, new_head, get_resource,
  get_revision, in_transaction, committed,
}
use trust_core.History.Tables.Rows.{resource_key, find-update}
use trust_core.History.Service.{CreateRevisionInput, create_revision_within, create_revision}
use trust_core.History.Service.Created.{IsCreated, create_within-IsCreated}
use trust_core.Common.{
  is_truthy, Bool-cases, eq_iff, string_eq, number_eq, option_eq, Result, ok, err, String, ◌≡◌,
  refl, ◌∙◌, ◌≢◌, inl, inr, some, arith,
}

module _ {P : Type 0} (hash : P → String) where
  -- The head after a call that returns, and its revision.
  pub created_head :
      (now id : String) (input : CreateRevisionInput P) (t t' : Tables P) (v : Revision P)
      → (c : IsCreated hash now id input t t' v)
      → (get_resource input.workspace_id input.resource_id t'
          ≡ some (new_head (some v.id) active now c.resource))
        × (get_revision input.workspace_id v.id t' ≡ some v)
  unfolding get_resource get_revision
  created_head now id input t t' v c =
      let r = c.resource in
      let (workspace, same) =
        resource_key t.resources input.workspace_id input.resource_id r c.stored in
      let seen =
        find-update (is_resource input.workspace_id input.resource_id)
          (is_head r.workspace_id r.id input.expected_revision_id) (new_head (some v.id) active now)
          (λ x. refl) t.resources in
      (
        ground (
          arith,
          c.written.resources,
          seen,
          c.stored,
          (eq_iff r.workspace_id r.workspace_id).1 refl,
          (eq_iff r.id r.id).1 refl,
          (eq_iff r.current_revision_id input.expected_revision_id).1 c.expected,
        ),
        ground (
          arith,
          c.written.revisions,
          (eq_iff v.workspace_id input.workspace_id).1 (c.next.workspace_same ∙ workspace),
          (eq_iff v.id v.id).1 refl,
        ),
      )

  stale :
      (now id : String) (input : CreateRevisionInput P) (t : Tables P) (r : Resource) (k : String)
      (v : Revision P)
      → get_resource input.workspace_id input.resource_id t ≡ some r
      → r.current_revision_id ≡ some k
      → get_revision input.workspace_id k t ≡ some v
      → some k ≢ input.expected_revision_id
      → create_revision hash now id input t ≡ (t, err history_conflict)
  unfolding create_revision in_transaction create_revision_within
  stale now id input t r k v stored at found other = elim (Bool-cases (is_truthy (some k))) [
    | inl truthy ↦
        ground (arith, stored, at, found, truthy, eq_iff (some k) input.expected_revision_id)
    | inr falsy ↦ ground (arith, stored, at, falsy, eq_iff (some k) input.expected_revision_id)
  ]

  -- Of two writers that start from the same revision of a resource, one succeeds: when a call has
  -- returned a revision whose id is not that of its base, a next call on the same resource with
  -- the same base is refused as a conflict and changes nothing.
  pub create_revision_once :
      (now id later other : String) (a b : CreateRevisionInput P) (t : Tables P) (v : Revision P)
      → (create_revision hash now id a t).1 ≡ ok v
      → b.workspace_id ≡ a.workspace_id
      → b.resource_id ≡ a.resource_id
      → b.expected_revision_id ≡ a.expected_revision_id
      → some id ≢ a.expected_revision_id
      → let t' = (create_revision hash now id a t).0 in
        create_revision hash later other b t' ≡ (t', err history_conflict)
  unfolding create_revision in_transaction
  create_revision_once now id later other a b t v h workspace resource base new =
      go (create_revision_within hash now id a t) refl h
    where
      go :
          (out : Tables P × Result HistoryError (Revision P))
          → create_revision_within hash now id a t ≡ out
          → (committed t out).1 ≡ ok v
          → let t' = (committed t out).0 in
            create_revision hash later other b t' ≡ (t', err history_conflict)
      go (t', err x) e h' = cc
      go (t', ok v') e h' =
          let c = create_within-IsCreated hash now id a t t' v' e in
          let (top, found) = created_head now id a t t' v' c in
          let named : v'.id ≡ id = ground (arith, c.made) in
          stale later other b t' (new_head (some v'.id) active now c.resource) v'.id v'
            (ground (arith, top, workspace, resource)) refl (ground (arith, found, workspace))
            (λ same. new (ground (arith, same, named, base)))
