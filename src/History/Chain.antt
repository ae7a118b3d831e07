-- ===== src/History/Chain.antt =====
-- The lineage of a resource in packages/operations/src/history-service.ts: from the head, revisions
-- numbered down to 1, each the parent of the one before.
use trust_core.Common.{
  if◌then◌else◌, Option-cases, eq_iff, string_eq, number_eq, option_eq, any, find, ℕ, suc, String,
  ◌≡◌, refl, inl, inr, Bool, false, Option, none, some, List, ◌∷◌, arith,
}
use mathlib.Core.Path.{subst}
use trust_core.Core.Types.{Resource, Revision, ResourceStatus}
use trust_core.History.Tables.{
  Tables, update_where, is_resource, is_revision, new_head, clashes, get_resource,
}
use trust_core.History.Tables.Rows.{find-update, find_kept}

module _ {P : Type 0} where
  pub data IsChain (revs : List (Revision P)) (w rid : String) : Option String → ℕ → Type 0 where
    start : IsChain revs w rid none 0
    next :
        {id : String} {n : ℕ} (r : Revision P)
        → find (is_revision w id) revs ≡ some r
        → r.resource_id ≡ rid
        → r.revision_number ≡ suc n
        → IsChain revs w rid r.parent_revision_id n
        → IsChain revs w rid (some id) (suc n)

  -- Every resource's head begins a chain of revisions of that resource, numbered n, …, 2, 1.
  abbrev pub IsLinked : Tables P → Type 0
  IsLinked t =
      (w rid : String) (r : Resource)
      → get_resource w rid t ≡ some r
      → (n : ℕ) × IsChain t.revisions w rid r.current_revision_id n

  pub chain_number :
      {revs : List (Revision P)} {w rid : String} {h : Option String} {n : ℕ}
      → IsChain revs w rid h n
      → (id : String) (c : Revision P) → h ≡ some id
      → find (is_revision w id) revs ≡ some c
      → c.revision_number ≡ n
  chain_number start id c e f = cc
  chain_number {revs} {w} (next {id = head} r found same num tail) id c e f =
      let here : head ≡ id = cc in
      let again = subst (λ k. find (is_revision w k) revs ≡ some r) here found in
      ground (arith, again, f, num)

  pub IsChain-cons :
      {revs : List (Revision P)} {w rid : String} {h : Option String} {n : ℕ} (v : Revision P)
      → any (clashes v) revs ≡ false
      → IsChain revs w rid h n
      → IsChain (v ∷ revs) w rid h n
  IsChain-cons v f start = start
  IsChain-cons {revs} {w} v f (next {id} r found same num tail) =
      next r (find_kept v revs w id r f found) same num (IsChain-cons v f tail)

  -- A head that moves to the written revision `v`, whose parent and number continue the chain.
  pub IsChain-extended :
      {revs : List (Revision P)} {w rid : String} {n : ℕ} (v : Revision P)
      → any (clashes v) revs ≡ false
      → v.workspace_id ≡ w
      → v.resource_id ≡ rid
      → v.revision_number ≡ suc n
      → IsChain revs w rid v.parent_revision_id n
      → IsChain (v ∷ revs) w rid (some v.id) (suc n)
  IsChain-extended {revs} {w} v f workspace resource num tail =
      next v (ground (arith, eq_iff v.workspace_id w, eq_iff v.id v.id, workspace)) resource num
        (IsChain-cons v f tail)

  -- The tables after an update of heads and the writing of a revision.
  pub moved_resource :
      (w rid : String) (p : Resource → Bool) (to : Option String) (status : ResourceStatus)
      (at : String) (t t' : Tables P) (r : Resource)
      → t'.resources ≡ update_where p (new_head to status at) t.resources
      → get_resource w rid t' ≡ some r
      → (old : Resource) × (get_resource w rid t ≡ some old)
        × (r ≡ (if p old then new_head to status at old else old))
  unfolding get_resource
  moved_resource w rid p to status at t t' r rows h =
      let seen =
        find-update (is_resource w rid) p (new_head to status at) (λ x. refl) t.resources in
      elim (Option-cases (find (is_resource w rid) t.resources)) [
        | inl missing ↦ ground (arith, seen, missing, rows, h)
        | inr (old, stored) ↦ (old, stored, ground (arith, seen, stored, rows, h))
      ]
