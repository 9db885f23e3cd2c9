-- ===== src/Broker/Conflict/Settling.antt =====
-- The state that `settled_state` makes, field by field: what applying the selected operations and
-- consuming the source's revision in `resolve_conflict` of inkbridge-broker/src/conflict.rs change.
use inkbridge.Prelude.{
  Bool, true, not, ◌≡◌, refl, ◌∙◌, ap, sym, eqb_iff, arith, inl, inr, String, List, [], ◌∷◌, keep,
  eqb, if◌then◌else◌, ◌==◌, Bool-cases, string_key,
}
use inkbridge.Prelude.Map
use inkbridge.Broker.Model.{
  Manifest, DeviceSide, boox, supernote, RevisionPair, DeviceRevision, CanonicalDocumentState,
  PreservedInput, keep_current, revisions, device, set_device, set_revision, revision_of,
  revisions_key,
}
use inkbridge.Broker.External.{External}
use inkbridge.Broker.Apply.{Strokes, apply_manifest}
use inkbridge.Broker.Process.Mark.{next_u64}
use inkbridge.Broker.Conflict.Types.{ConflictContext, ConflictResolutionRequest, strategy_key}
use inkbridge.Broker.Conflict.Classify.{Selection}
use inkbridge.Broker.Conflict.Settle.{
  OutputFile, without_conflict, effective_event, selected_manifest, settled_state,
  with_output_views, consume_revision, consumed_device,
}

abbrev pub others : String → List PreservedInput → List PreservedInput
others id cs = keep (λ c. not (c.event_id == id)) cs

-- What applying operations and consuming a revision leave alone.
pub record SameBook (old new : CanonicalDocumentState) : Type 0 where
  pub document : new.document_id ≡ old.document_id
  pub schema : new.schema_version ≡ old.schema_version
  pub counted : new.state_revision ≡ old.state_revision
  pub conflicts : new.conflicts ≡ old.conflicts
  pub resolved : new.resolved_conflicts ≡ old.resolved_conflicts

same_book : (state : CanonicalDocumentState) → SameBook state state
same_book state = record {
  document = refl;
  schema = refl;
  counted = refl;
  conflicts = refl;
  resolved = refl;
}

set_device-SameBook :
    (state : CanonicalDocumentState) (side : DeviceSide) (d : DeviceRevision)
    → SameBook state (set_device state side d)
unfolding set_device
set_device-SameBook state boox d = record {
  document = refl;
  schema = refl;
  counted = refl;
  conflicts = refl;
  resolved = refl;
}
set_device-SameBook state supernote d = record {
  document = refl;
  schema = refl;
  counted = refl;
  conflicts = refl;
  resolved = refl;
}

strokes-set_device :
    (state : CanonicalDocumentState) (side : DeviceSide) (d : DeviceRevision)
    → (set_device state side d).strokes ≡ state.strokes
unfolding set_device
strokes-set_device state boox d = refl
strokes-set_device state supernote d = refl

revisions-set_device :
    (state : CanonicalDocumentState) (side : DeviceSide) (d : DeviceRevision)
    → revisions (set_device state side d) ≡ set_revision (revisions state) side d.revision
unfolding set_device set_revision revisions
revisions-set_device state boox d = refl
revisions-set_device state supernote d = refl

pub device-revision :
    (state : CanonicalDocumentState) (side : DeviceSide)
    → (device state side).revision ≡ revision_of (revisions state) side
unfolding device revision_of revisions
device-revision state boox = refl
device-revision state supernote = refl

set_revision_same :
    (r : RevisionPair) (side : DeviceSide) → set_revision r side (revision_of r side) ≡ r
unfolding set_revision revision_of
set_revision_same r boox = refl
set_revision_same r supernote = refl

module _ (state : CanonicalDocumentState) (context : ConflictContext) (proposed : Manifest) where
  abbrev moved_device : DeviceRevision
  moved_device = consumed_device (device state context.conflict.source) context proposed

  consume-SameBook : SameBook state (consume_revision state context proposed)
  unfolding consume_revision
  consume-SameBook =
      let b = set_device-SameBook state context.conflict.source moved_device in
      record {
        document = b.document;
        schema = b.schema;
        counted = b.counted;
        conflicts = b.conflicts;
        resolved = b.resolved;
      }

  strokes-consume : (consume_revision state context proposed).strokes ≡ state.strokes
  unfolding consume_revision
  strokes-consume = strokes-set_device state context.conflict.source moved_device

  revisions-consume :
      revisions (consume_revision state context proposed)
      ≡ set_revision (revisions state) context.conflict.source context.conflict.source_revision
  unfolding consume_revision revisions
  revisions-consume = revisions-set_device state context.conflict.source moved_device

-- The strokes after the selected operations are applied.
abbrev pub applied_ink :
    External → ConflictContext → ConflictResolutionRequest → Manifest → Selection → Strokes
applied_ink ext context request proposed selection =
    if request.strategy == keep_current
    then context.state.strokes
    else (apply_manifest context.state (selected_manifest ext proposed selection)
        (effective_event context.conflict request (revisions context.state))).strokes

module _ (ext : External) (context : ConflictContext) (request : ConflictResolutionRequest)
    (proposed : Manifest) (selection : Selection) where
  abbrev applied_state : CanonicalDocumentState
  applied_state =
      if request.strategy == keep_current
      then context.state
      else apply_manifest context.state (selected_manifest ext proposed selection)
          (effective_event context.conflict request (revisions context.state))

  applied-SameBook :
      SameBook context.state applied_state × (revisions applied_state ≡ revisions context.state)
  unfolding apply_manifest revisions
  applied-SameBook = elim (Bool-cases (request.strategy == keep_current)) [
    | inl kept ↦ rw kept (same_book context.state, refl)
    | inr changed ↦ rw changed (
      record { document = refl; schema = refl; counted = refl; conflicts = refl; resolved = refl },
      refl,
    )
  ]

  strokes-applied : applied_state.strokes ≡ applied_ink ext context request proposed selection
  strokes-applied = ground arith

  abbrev is_equal : Bool
  is_equal =
      eqb context.conflict.source_revision (device context.state context.conflict.source).revision

  abbrev consumed_state : CanonicalDocumentState
  consumed_state =
      if is_equal then applied_state else consume_revision applied_state context proposed

  -- The parts of the settled state.
  pub record Settled (settled : CanonicalDocumentState) : Type 0 where
    pub document : settled.document_id ≡ context.state.document_id
    pub schema : settled.schema_version ≡ context.state.schema_version
    pub counted : settled.state_revision ≡ next_u64 context.state.state_revision
    pub conflicts : settled.conflicts ≡ others request.conflict_event_id context.state.conflicts
    pub resolved : settled.resolved_conflicts ≡ context.state.resolved_conflicts
    pub strokes : settled.strokes ≡ applied_ink ext context request proposed selection
    pub moved :
        revisions settled
        ≡ set_revision
            (revisions context.state)
            context.conflict.source
            context.conflict.source_revision

  equal_same :
      is_equal ≡ true
      → revisions context.state
        ≡ set_revision
            (revisions context.state)
            context.conflict.source
            context.conflict.source_revision
  equal_same equal =
      let c = context.conflict in
      let same : c.source_revision ≡ revision_of (revisions context.state) c.source =
        (eqb_iff c.source_revision (device context.state c.source).revision).0 equal
        ∙ device-revision context.state c.source in
      rw same (sym (set_revision_same (revisions context.state) c.source))

  abbrev Consumed : Type 0
  Consumed =
      SameBook applied_state consumed_state
      × (consumed_state.strokes ≡ applied_state.strokes)
      × (revisions consumed_state
          ≡ set_revision (revisions context.state) context.conflict.source
              context.conflict.source_revision)

  consumed-Consumed : Consumed
  consumed-Consumed = elim (Bool-cases is_equal) [
    | inl equal ↦ rw equal (same_book applied_state, refl, applied-SameBook.1 ∙ equal_same equal)
    | inr advanced ↦ rw advanced (
      consume-SameBook applied_state context proposed,
      strokes-consume applied_state context proposed,
      revisions-consume applied_state context proposed
          ∙ ap (λ r. set_revision r context.conflict.source context.conflict.source_revision)
              applied-SameBook.1,
    )
  ]

  pub settled_state-Settled : Settled (settled_state ext context request proposed selection)
  unfolding settled_state without_conflict revisions
  settled_state-Settled =
      let book = applied-SameBook.0 in
      let (moved, ink, revised) = consumed-Consumed in
      record {
        document = moved.document ∙ book.document;
        schema = moved.schema ∙ book.schema;
        counted = ap next_u64 (moved.counted ∙ book.counted);
        conflicts = ap (others request.conflict_event_id) (moved.conflicts ∙ book.conflicts);
        resolved = moved.resolved ∙ book.resolved;
        strokes = ink ∙ strokes-applied;
        moved = revised;
      }

-- The views change nothing but `generated_views`.
pub views_only :
    (ext : External) (request : ConflictResolutionRequest) (state : CanonicalDocumentState)
    (files : List OutputFile)
    → with_output_views ext state request files ≡ record state {
      generated_views = (with_output_views ext state request files).generated_views;
    }
unfolding with_output_views revisions
views_only ext request state [] = refl
views_only ext request state (f ∷ files) =
    views_only ext request
      (record state {
        generated_views =
            Map.insert f.object_path
              (record {
                object_path = f.object_path;
                content_sha256 = ext.sha256_hex f.content;
                source_revisions = revisions state;
                event_id = request.resolution_id;
              })
              state.generated_views;
      })
      files
