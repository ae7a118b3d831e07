-- ===== src/History/Service/Created.antt =====
-- What a call of `createRevision` or `deleteResource` that returns has found and written.
use trust_core.Common.{
  is_truthy, Bool-cases, Option-cases, eq_iff, string_eq, number_eq, option_eq, any, ok, err,
  String, ◌≡◌, sym, ◌⊎◌, inl, inr, false, Option, none, some, ◌∷◌, arith,
}
use trust_core.Core.Invariants.Laws.{IsNext, assert_next_revision_iff}
use mathlib.Core.Path.{subst}
use trust_core.Core.Types.{Resource, Revision, active, Tombstone, deleted_logically}
use trust_core.History.Tables.{
  Tables, HistoryError, get_revision, append_revision, set_resource_head, append_audit,
  enqueue_outbox, clashes, is_head, new_head, update_where, add_tombstone,
}
use trust_core.History.Service.{
  CreateRevisionInput, current_of, write_revision, revision_not_found, create_revision_within,
  get_resource, new_revision, assert_next_revision, DeleteResourceInput, delete_within,
  new_tombstone, add_tombstone,
}

module _ {P : Type 0} where
  -- The current revision that a call reads.
  pub data IsCurrent (input : CreateRevisionInput P) (t : Tables P) (resource : Resource)
      : Option (Revision P) → Type 0 where
    no_head : is_truthy resource.current_revision_id ≡ false → IsCurrent input t resource none
    head :
        {id : String} {r : Revision P}
        → resource.current_revision_id ≡ some id
        → get_revision input.workspace_id id t ≡ some r
        → IsCurrent input t resource (some r)

  pub IsCurrent-reads :
      (input : CreateRevisionInput P) (t : Tables P) (resource : Resource)
      → ((c : Option (Revision P)) × (current_of input resource t ≡ (t, ok c))
          × IsCurrent input t resource c)
        ⊎ ((e : HistoryError) × (current_of input resource t ≡ (t, err e)))
  IsCurrent-reads input t resource = elim (Option-cases resource.current_revision_id) [
    | inl nothing ↦ inl (none, ground (arith, nothing), no_head (ground (arith, nothing)))
    | inr (id, some_id) ↦ elim (Bool-cases (is_truthy (some id))) [
      | inr falsy ↦
          inl (none, ground (arith, some_id, falsy), no_head (ground (arith, some_id, falsy)))
      | inl truthy ↦ elim (Option-cases (get_revision input.workspace_id id t)) [
        | inl missing ↦ inr (revision_not_found, ground (arith, some_id, truthy, missing))
        | inr (r, stored) ↦
            inl (some r, ground (arith, some_id, truthy, stored), head some_id stored)
      ]
    ]
  ]

  -- The tables after a revision is written over those before.
  pub record IsWritten (now : String) (input : CreateRevisionInput P) (resource : Resource)
      (v : Revision P) (t t' : Tables P) : Type 0 where
    pub fresh : any (clashes v) t.revisions ≡ false
    pub revisions : t'.revisions ≡ v ∷ t.revisions
    pub resources :
        t'.resources
        ≡ update_where
            (is_head resource.workspace_id resource.id input.expected_revision_id)
            (new_head (some v.id) active now)
            t.resources
    pub tombstones : t'.tombstones ≡ t.tombstones

  write_revision-IsWritten :
      (now : String) (input : CreateRevisionInput P) (resource : Resource) (v v' : Revision P)
      (t t' : Tables P)
      → write_revision now input resource v t ≡ (t', ok v')
      → IsWritten now input resource v t t' × (v' ≡ v)
  unfolding write_revision append_revision set_resource_head append_audit enqueue_outbox
  write_revision-IsWritten now input resource v v' t t' h = (ground arith, ground arith)

module _ {P : Type 0} (hash : P → String) (now id : String) (input : CreateRevisionInput P) where
  pub record IsCreated (t t' : Tables P) (v : Revision P) : Type 0 where
    pub resource : Resource
    pub current : Option (Revision P)
    pub stored : get_resource input.workspace_id input.resource_id t ≡ some resource
    pub is_current : IsCurrent input t resource current
    pub expected : resource.current_revision_id ≡ input.expected_revision_id
    pub made : v ≡ new_revision hash now id input resource current
    pub next : IsNext resource current v
    pub written : IsWritten now input resource v t t'

  module _ (t t' : Tables P) (v : Revision P)
      (h : create_revision_within hash now id input t ≡ (t', ok v)) where
    finish :
        (resource : Resource) (current : Option (Revision P))
        → get_resource input.workspace_id input.resource_id t ≡ some resource
        → current_of input resource t ≡ (t, ok current)
        → IsCurrent input t resource current
        → IsCreated t t' v
    unfolding create_revision_within
    finish resource current stored reads is_current =
        let made = new_revision hash now id input resource current in
        let agreed : resource.current_revision_id ≡ input.expected_revision_id = ground (
          arith,
          stored,
          reads,
          eq_iff resource.current_revision_id input.expected_revision_id,
          h,
        ) in
        let passed : assert_next_revision resource current made ≡ ok tt =
          ground (arith, stored, reads, agreed, h) in
        let wrote : write_revision now input resource made t ≡ (t', ok v) =
          ground (arith, stored, reads, agreed, passed, h) in
        let (written, same) = write_revision-IsWritten now input resource made v t t' wrote in
        record {
          resource = resource;
          current = current;
          stored = stored;
          is_current = is_current;
          expected = agreed;
          made = same;
          next =
              subst (IsNext resource current) (sym same)
                ((assert_next_revision_iff resource current made).0 passed);
          written = subst (λ w. IsWritten now input resource w t t') (sym same) written;
        }

  pub create_within-IsCreated :
      (t t' : Tables P) (v : Revision P)
      → create_revision_within hash now id input t ≡ (t', ok v)
      → IsCreated t t' v
  unfolding create_revision_within
  create_within-IsCreated t t' v h =
      elim (Option-cases (get_resource input.workspace_id input.resource_id t)) [
        | inl missing ↦ ground (arith, missing, h)
        | inr (resource, stored) ↦ elim (IsCurrent-reads input t resource) [
          | inr (e, refused) ↦ ground (arith, stored, refused, h)
          | inl (current, reads, is_current) ↦
              finish t t' v h resource current stored reads is_current
        ]
      ]

-- What a deletion that returns has found and written.
module _ {P : Type 0} (now id : String) (input : DeleteResourceInput) where
  pub record IsDeleted (t t' : Tables P) (v : Tombstone) : Type 0 where
    pub resource : Resource
    pub stored : get_resource input.workspace_id input.resource_id t ≡ some resource
    pub expected : resource.current_revision_id ≡ input.expected_revision_id
    pub made : v ≡ new_tombstone now id input resource
    pub revisions : t'.revisions ≡ t.revisions
    pub resources :
        t'.resources
        ≡ update_where
            (is_head resource.workspace_id resource.id input.expected_revision_id)
            (new_head resource.current_revision_id deleted_logically now)
            t.resources
    pub tombstones : t'.tombstones ≡ v ∷ t.tombstones

  pub delete_within-IsDeleted :
      (t t' : Tables P) (v : Tombstone)
      → delete_within now id input t ≡ (t', ok v)
      → IsDeleted t t' v
  unfolding delete_within set_resource_head append_audit enqueue_outbox add_tombstone
  delete_within-IsDeleted t t' v h =
      elim (Option-cases (get_resource input.workspace_id input.resource_id t)) [
        | inl missing ↦ ground (arith, missing, h)
        | inr (resource, stored) ↦
            let same = eq_iff resource.current_revision_id input.expected_revision_id in
            record {
              resource = resource;
              stored = stored;
              expected = ground (arith, stored, same, h);
              made = ground (arith, stored, h);
              revisions = ground (arith, stored, h);
              resources = ground (arith, stored, h);
              tombstones = ground (arith, stored, h);
            }
      ]
