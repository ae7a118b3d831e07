-- ===== src/History/Service/Restored.antt =====
-- What a call of `restoreResource` of packages/operations/src/history-service.ts that returns has
-- found and written.
use trust_core.Common.{
  Bool-cases, Option-cases, string_eq, number_eq, option_eq, ok, String, ◌≡◌, inl, inr, Option,
  none, some, arith,
}
use trust_core.Common.Effect.{run-cases}
use mathlib.Core.Path.{subst}
use trust_core.Core.Types.{Resource, Revision, Tombstone}
use trust_core.History.Tables.{
  Tables, get_resource, get_revision, get_open_tombstone, close_tombstone,
}
use trust_core.History.Service.{
  RestoreResourceInput, create_revision_within, restore_within, restoring, prior_of, has_expired,
  CreateRevisionInput,
}

module _ {P : Type 0} (hash : P → String) (checked_at now id db_now : String)
    (input : RestoreResourceInput) where
  pub record IsRestored (t t' : Tables P) (v : Revision P) : Type 0 where
    pub stone : Tombstone
    pub prior_id : String
    pub prior : Revision P
    pub resource : Resource
    pub middle : Tables P
    pub opened : get_open_tombstone input.workspace_id input.resource_id t ≡ some stone
    pub names : stone.prior_revision_id ≡ some prior_id
    pub kept : get_revision input.workspace_id prior_id t ≡ some prior
    pub created :
        create_revision_within hash now id (restoring input resource prior) t ≡ (middle, ok v)
    pub closed : t' ≡ (close_tombstone db_now input.workspace_id stone.id input.actor_id middle).0

  prior_of_named :
      (o : Option Tombstone) (stone : Tombstone) (k : String)
      → prior_of o ≡ some (stone, k)
      → (o ≡ some stone) × (stone.prior_revision_id ≡ some k)
  prior_of_named none stone k h = cc
  prior_of_named (some u) stone k h = ground arith

  pub restore_within-IsRestored :
      (t t' : Tables P) (v : Revision P)
      → restore_within hash checked_at now id db_now input t ≡ (t', ok v)
      → IsRestored t t' v
  unfolding restore_within close_tombstone
  restore_within-IsRestored t t' v h =
      elim (Option-cases (get_resource input.workspace_id input.resource_id t)) [
        | inl missing ↦ ground (arith, missing, h)
        | inr (resource, stored) ↦
            elim (Option-cases
              (prior_of (get_open_tombstone input.workspace_id input.resource_id t))) [
                | inl nothing ↦ ground (arith, stored, nothing, h)
                | inr ((stone, k), pair) ↦
                    elim (Bool-cases (has_expired stone.recover_until checked_at)) [
                      | inl late ↦ ground (arith, stored, pair, late, h)
                      | inr timely ↦ elim (Option-cases (get_revision input.workspace_id k t)) [
                        | inl lost ↦ ground (arith, stored, pair, timely, lost, h)
                        | inr (prior, kept) ↦
                            elim (run-cases
                              (create_revision_within hash now id (restoring input resource prior))
                              t) [
                                | inr (m, e, threw) ↦
                                    ground (arith, stored, pair, timely, kept, threw, h)
                                | inl (m, w, wrote) ↦
                                    let same : w ≡ v =
                                      ground (arith, stored, pair, timely, kept, wrote, h) in
                                    record {
                                      stone = stone;
                                      prior_id = k;
                                      prior = prior;
                                      resource = resource;
                                      middle = m;
                                      opened = (prior_of_named _ stone k pair).0;
                                      names = (prior_of_named _ stone k pair).1;
                                      kept = kept;
                                      created =
                                          subst
                                            (λ x.
                                              create_revision_within hash now id
                                                (restoring input resource prior) t
                                              ≡ (m, ok x))
                                            same wrote;
                                      closed = ground (arith, stored, pair, timely, kept, wrote, h);
                                    }
                              ]
                      ]
                    ]
              ]
      ]

  pub restore_within_parts :
      (t t' : Tables P) (v : Revision P)
      → IsRestored t t' v
      → (middle : Tables P) × (t'.revisions ≡ middle.revisions)
        × (t'.resources ≡ middle.resources)
        × (input' : CreateRevisionInput P) × (create_revision_within hash now id input' t
            ≡ (middle, ok v))
  unfolding close_tombstone
  restore_within_parts t t' v r = (
    r.middle,
    ground (arith, r.closed),
    ground (arith, r.closed),
    restoring input r.resource r.prior,
    r.created,
  )
