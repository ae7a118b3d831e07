-- ===== src/History/Tables/Rows.antt =====
-- How lookups see the statements of packages/persistence-postgres/src/history-repository.ts.
use trust_core.Core.Types.{Resource, Revision}
use trust_core.History.Tables.{update_where, is_resource, is_revision, clashes}
use trust_core.Common.{
  if◌then◌else◌, Bool-cases, eq_iff, string_eq, number_eq, option_eq, any, find, find-Mem, String,
  ◌≡◌, refl, inl, inr, Bool, false, Option, none, some, List, [], ◌∷◌, arith,
}

abbrev pub update_option {ℓ} : {A : Type ℓ} → (A → Bool) → (A → A) → Option A → Option A
update_option p f none = none
update_option p f (some x) = some (if p x then f x else x)

-- An update that keeps what a search tests is seen through it.
pub find-update {ℓ} :
    {A : Type ℓ} (q p : A → Bool) (f : A → A)
    → ((x : A) → q (f x) ≡ q x)
    → (l : List A) → find q (update_where p f l) ≡ update_option p f (find q l)
find-update q p f same [] = refl
find-update q p f same (x ∷ l) = ground (arith, same x, find-update q p f same l)

module _ {P : Type 0} (v : Revision P) where
  fresh_revision :
      (revs : List (Revision P)) (w id : String) (r : Revision P)
      → any (clashes v) revs ≡ false
      → find (is_revision w id) revs ≡ some r
      → is_revision w id v ≡ false
  fresh_revision [] w id r f h = cc
  fresh_revision (x ∷ revs) w id r f h = elim (Bool-cases (is_revision w id x)) [
    | inl hit ↦ ground (arith, eq_iff x.id id, eq_iff v.id id, eq_iff x.id v.id, f, hit)
    | inr miss ↦ fresh_revision revs w id r (ground (arith, f)) (ground (arith, miss, h))
  ]

  -- A revision that is found stays found when another one is written.
  pub find_kept :
      (revs : List (Revision P)) (w id : String) (r : Revision P)
      → any (clashes v) revs ≡ false
      → find (is_revision w id) revs ≡ some r
      → find (is_revision w id) (v ∷ revs) ≡ some r
  find_kept revs w id r f h = rw (fresh_revision revs w id r f h) h

-- A resource that is found has the workspace and the id that were searched for.
pub resource_key :
    (l : List Resource) (w id : String) (r : Resource)
    → find (is_resource w id) l ≡ some r
    → (r.workspace_id ≡ w) × (r.id ≡ id)
resource_key l w id r h =
    let (hit, _) = find-Mem (is_resource w id) l r h in
    (ground (arith, eq_iff r.workspace_id w, hit), ground (arith, eq_iff r.id id, hit))

-- So has a revision.
pub revision_key :
    {P : Type 0} (l : List (Revision P)) (w id : String) (r : Revision P)
    → find (is_revision w id) l ≡ some r
    → (r.workspace_id ≡ w) × (r.id ≡ id)
revision_key l w id r h =
    let (hit, _) = find-Mem (is_revision w id) l r h in
    (ground (arith, eq_iff r.workspace_id w, hit), ground (arith, eq_iff r.id id, hit))
