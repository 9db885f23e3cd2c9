-- ===== src/Broker/Conflict/Result.antt =====
-- What every resolution of inkbridge-broker/src/conflict.rs leaves in the next state.
use inkbridge.Prelude.{true, false, ◌≡◌, refl, ◌∙◌, ap, sym, List, ltb, if◌then◌else◌, string_key}
use inkbridge.Prelude.Map
use inkbridge.Broker.Model.{
  Manifest, RevisionPair, CanonicalDocumentState, PreservedInput, ConflictResolutionRecord,
  revisions, device, set_revision, revision_of, revisions_key,
}
use inkbridge.Broker.Storage.{StoredObject}
use inkbridge.Broker.External.{External}
use inkbridge.Broker.Process.Mark.{next_u64}
use inkbridge.Broker.Conflict.Types.{ConflictContext, ConflictResolutionRequest, strategy_key}
use inkbridge.Broker.Conflict.Classify.{Selection}
use inkbridge.Broker.Conflict.Settling.{device-revision, others, Settled, views_only}
use inkbridge.Broker.Conflict.Settle.{
  resolution_record, with_record, OutputFile, without_conflict, superseded_record,
}
use inkbridge.Broker.Conflict.Loading.{LoadedFrom}
use inkbridge.Broker.Conflict.Inversion.{superseded_state, resolved_state}

-- The revisions after a conflict is resolved: its source is at the revision of the preserved input,
-- unless it is already past it.
abbrev pub advanced_revisions : RevisionPair → PreservedInput → RevisionPair
advanced_revisions current c =
    if ltb c.source_revision (revision_of current c.source)
    then current
    else set_revision current c.source c.source_revision

-- What every resolution of the conflict `c` leaves in the next state.
pub record Resolution (state : CanonicalDocumentState) (request : ConflictResolutionRequest)
    (c : PreservedInput) (next : CanonicalDocumentState) : Type 0 where
  pub document : next.document_id ≡ state.document_id
  pub schema : next.schema_version ≡ state.schema_version
  pub counted : next.state_revision ≡ next_u64 state.state_revision
  pub conflicts : next.conflicts ≡ others request.conflict_event_id state.conflicts
  pub moved : revisions next ≡ advanced_revisions (revisions state) c
  pub entry : ConflictResolutionRecord
  pub recorded :
      next.resolved_conflicts ≡ Map.insert request.conflict_event_id entry state.resolved_conflicts
  pub named : entry.resolution_id ≡ request.resolution_id
  pub strategy : entry.strategy ≡ request.strategy
  pub resulting : entry.resulting_revisions ≡ advanced_revisions (revisions state) c

module _ (ext : External) (object : StoredObject) (state : CanonicalDocumentState)
    (request : ConflictResolutionRequest) (context : ConflictContext)
    (l : LoadedFrom object state request.conflict_event_id context) where
  revisions_loaded : revisions context.state ≡ revisions state
  unfolding revisions
  revisions_loaded = ap revisions l.state_same

  older_same :
      ltb context.conflict.source_revision (revision_of (revisions state) context.conflict.source)
      ≡ ltb context.conflict.source_revision (device context.state context.conflict.source).revision
  older_same =
      let c = context.conflict in
      ap (ltb c.source_revision) (
        sym (
          device-revision context.state c.source
          ∙ ap (λ r. revision_of r c.source) revisions_loaded))

  kept_revisions :
      ltb context.conflict.source_revision (device context.state context.conflict.source).revision
        ≡ true
      → revisions context.state ≡ advanced_revisions (revisions state) context.conflict
  kept_revisions older = revisions_loaded ∙ rw (older_same ∙ older) refl

  moved_revisions :
      ltb context.conflict.source_revision (device context.state context.conflict.source).revision
        ≡ false
      → set_revision
          (revisions context.state)
          context.conflict.source
          context.conflict.source_revision
        ≡ advanced_revisions (revisions state) context.conflict
  moved_revisions not_older = rw (older_same ∙ not_older, revisions_loaded) refl

  pub superseded-Resolution :
      ltb context.conflict.source_revision (device context.state context.conflict.source).revision
        ≡ true
      → Resolution state request context.conflict (superseded_state ext context request)
  unfolding without_conflict with_record superseded_record revisions
  superseded-Resolution older =
      let e = l.state_same in
      let unmoved : revisions context.state
          ≡ advanced_revisions (revisions state) context.conflict =
        kept_revisions older in
      record {
        document = ap (λ x. x.document_id) e;
        schema = ap (λ x. x.schema_version) e;
        counted = ap (λ x. next_u64 x.state_revision) e;
        conflicts = ap (λ x. others request.conflict_event_id x.conflicts) e;
        moved = unmoved;
        entry = superseded_record ext context request;
        recorded =
            ap
              (λ x.
                Map.insert request.conflict_event_id (superseded_record ext context request)
                  x.resolved_conflicts)
              e;
        named = refl;
        strategy = refl;
        resulting = unmoved;
      }

  pub resolved-Resolution :
      (settled : CanonicalDocumentState) (proposed : Manifest) (selection : Selection)
      (files : List OutputFile)
      → ltb context.conflict.source_revision (device context.state context.conflict.source).revision
        ≡ false
      → Settled ext context request proposed selection settled
      → Resolution state request context.conflict
          (resolved_state ext context request settled selection files)
  unfolding with_record resolution_record revisions
  resolved-Resolution settled proposed selection files not_older g =
      let e = l.state_same in
      let v = views_only ext request settled files in
      let moved : revisions settled ≡ advanced_revisions (revisions state) context.conflict =
        g.moved ∙ moved_revisions not_older in
      let r = resolution_record ext context request (revisions settled) selection in
      record {
        document = ap (λ x. x.document_id) v ∙ g.document ∙ ap (λ x. x.document_id) e;
        schema = ap (λ x. x.schema_version) v ∙ g.schema ∙ ap (λ x. x.schema_version) e;
        counted = ap (λ x. x.state_revision) v ∙ g.counted ∙ ap (λ x. next_u64 x.state_revision) e;
        conflicts =
            ap (λ x. x.conflicts) v
            ∙ g.conflicts
            ∙ ap (λ x. others request.conflict_event_id x.conflicts) e;
        moved = ap revisions v ∙ moved;
        entry = r;
        recorded =
            ap (λ x. Map.insert request.conflict_event_id r x.resolved_conflicts) v
            ∙ ap (Map.insert request.conflict_event_id r)
                (g.resolved ∙ ap (λ x. x.resolved_conflicts) e);
        named = refl;
        strategy = refl;
        resulting = moved;
      }
