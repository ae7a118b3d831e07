-- ===== src/Ingest/Returned.antt =====
-- What the steps of an ingest of packages/operations/src/object-ingest.ts that returned have done.
use trust_core.Common.{
  ◌==◌, string_eq, number_eq, option_eq, includes, Result, ok, err, String, ◌≡◌, refl, sym, ap, ◌∙◌,
  true, false, List, ◌∷◌, arith,
}
use trust_core.Common.Effect.{M}
use trust_core.Common.Effect.{bind-returned}
use trust_core.Storage.{StorageError, ObjectMetadata}
use trust_core.Ingest.{IngestCheckpoint, immutable_object_committed, checkpoint_eq}
use trust_core.Ingest.Effects.{
  commit_input, Job, Ingesting, Ing, on_objects, with_objects, checkpoint, run_checkpoint,
  commit_object, required_context_string,
}
use trust_core.Ingest.Frames.{
  keep_stored-K, mark_reached-K, Frame, K, checkpoint-K, required_context_string-K,
}

pub unmarked_after :
    (name : IngestCheckpoint) (done : List IngestCheckpoint)
    → (name == immutable_object_committed) ≡ false
    → includes done immutable_object_committed ≡ false
    → includes (name ∷ done) immutable_object_committed ≡ false
unmarked_after name done other h = ground (arith, other, h)

module _ {S T : Type 0} where
  -- The objects stay.
  abbrev pub Objects : Ingesting S T → Ingesting S T → Type 0
  Objects w w' = w'.stores.objects ≡ w.stores.objects

  abbrev pub objects_frame : Frame Objects
  objects_frame = record {
    Marked = λ name. Unit;
    stays = λ w. refl;
    chain = λ u v w first next. next ∙ first;
    tables = λ w t. refl;
    context = λ w c. refl;
    blob = λ w b. refl;
    done = λ name m w. refl;
  }

  -- The commit stays unmarked.
  abbrev pub Unmarked : Ingesting S T → Ingesting S T → Type 0
  Unmarked w w' =
      includes w.done immutable_object_committed ≡ false
      → includes w'.done immutable_object_committed ≡ false

  abbrev pub unmarked_frame : Frame Unmarked
  unmarked_frame = record {
    Marked = λ name. (name == immutable_object_committed) ≡ false;
    stays = λ w h. h;
    chain = λ u v w first next h. next (first h);
    tables = λ w t h. h;
    context = λ w c h. h;
    blob = λ w b h. h;
    done = λ name other w h. unmarked_after name w.done other h;
  }

  -- What is deduplicated stays so.
  abbrev pub Deduplicated : Ingesting S T → Ingesting S T → Type 0
  Deduplicated w w' = w.deduplicated ≡ true → w'.deduplicated ≡ true

  abbrev pub deduplicated_frame : Frame Deduplicated
  deduplicated_frame = record {
    Marked = λ name. Unit;
    stays = λ w h. h;
    chain = λ u v w first next h. next (first h);
    tables = λ w t h. h;
    context = λ w c h. h;
    blob = λ w b h. h;
    done = λ name m w h. h;
  }

  on_objects-returned :
      {A : Type 0} (m : M S StorageError A) (w w' : Ingesting S T) (a : A)
      → on_objects m w ≡ (w', ok a)
      → m w.stores.objects ≡ (w'.stores.objects, ok a)
  on_objects-returned {A} m w w' a h = go (m w.stores.objects) h
    where
      go :
          (out : S × Result StorageError A)
          → with_objects w out ≡ (w', ok a)
          → out ≡ (w'.stores.objects, ok a)
      go (s, ok b) e = ground (arith, e)
      go (s, err b) e = cc

module _ {S T : Type 0} (job : Job S T) where
  -- The storage is what a commit of the ingest's object has left.
  abbrev pub IsCommitted : S → Type 0
  IsCommitted after =
      (s : S) × (key : String) × (md : ObjectMetadata) × (job.storage.commit_immutable
          (commit_input job key) s
        ≡ (after, ok md))

  -- What a run that keeps the objects has left of them.
  pub kept_objects :
      {A : Type 0} {m : Ing S T A} {w w' : Ingesting S T} {a : A}
      → K Objects objects_frame job m
      → m w ≡ (w', ok a)
      → w'.stores.objects ≡ w.stores.objects
  kept_objects {A} {m} {w} {w'} {a} k h = ap (λ x. x.0.stores.objects) (sym h) ∙ k.holds w

  pub commit_object-returned :
      (w w' : Ingesting S T)
      → commit_object job w ≡ (w', ok tt)
      → (key : String) × (md : ObjectMetadata) × (job.storage.commit_immutable
            (commit_input job key)
            w.stores.objects
          ≡ (w'.stores.objects, ok md))
  unfolding commit_object
  commit_object-returned w w' h =
      let (v, key, had, next) =
        bind-returned (required_context_string "temporaryKey") _ w w' tt h in
      let c = commit_input job key in
      let (u, md, committed, rest) =
        bind-returned (on_objects (job.storage.commit_immutable c)) _ v w' tt next in
      (
        key,
        md,
        ap (λ s. job.storage.commit_immutable c s)
              (sym (
                kept_objects (required_context_string-K Objects objects_frame job "temporaryKey")
                  had))
            ∙ on_objects-returned (job.storage.commit_immutable c) v u md committed
            ∙ ap (λ s. (s, ok md))
                (sym (kept_objects (keep_stored-K Objects objects_frame job md) rest)),
      )

  -- A checkpoint that was not marked has done its work.
  pub checkpoint-ran :
      (name : IngestCheckpoint) (m : Ing S T (Unit {0})) (w w' : Ingesting S T)
      → includes w.done name ≡ false
      → checkpoint job name m w ≡ (w', ok tt)
      → (v : Ingesting S T) × (m w ≡ (v, ok tt)) × (w'.stores.objects ≡ v.stores.objects)
  unfolding checkpoint run_checkpoint
  checkpoint-ran name m w w' unmarked h =
      let ran : run_checkpoint job name m w ≡ (w', ok tt) = ground (arith, unmarked, h) in
      let (v, a, done, rest) = bind-returned m _ w w' tt ran in
      (v, done, kept_objects (mark_reached-K Objects objects_frame job name tt) rest)

  pub kept_unmarked :
      {A : Type 0} {m : Ing S T A} {w w' : Ingesting S T} {a : A}
      → K Unmarked unmarked_frame job m
      → m w ≡ (w', ok a)
      → includes w.done immutable_object_committed ≡ false
      → includes w'.done immutable_object_committed ≡ false
  kept_unmarked {A} {m} {w} {w'} {a} k h before =
      ap (λ x. includes x.0.done immutable_object_committed) (sym h) ∙ k.holds w before

  -- The checkpoints before the commit do not mark it.
  pub before-K :
      (name : IngestCheckpoint) (m : Ing S T (Unit {0}))
      → (name == immutable_object_committed) ≡ false
      → K Unmarked unmarked_frame job m
      → K Unmarked unmarked_frame job (checkpoint job name m)
  before-K name m other k = checkpoint-K Unmarked unmarked_frame job name m other k
