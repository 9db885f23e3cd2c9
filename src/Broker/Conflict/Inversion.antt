-- ===== src/Broker/Conflict/Inversion.antt =====
-- What a success of inkbridge-broker/src/conflict.rs was made of: the conflict that was read, and the
-- one commit of the state that the resolution leads to.
use inkbridge.Prelude.{
  Bool, true, false, not, ◌&&◌, ◌≡◌, ◌∙◌, ap, arith, ◌⊎◌, inl, inr, List, [], ◌∷◌, ◌++◌, map, ltb,
  eqb, ◌==◌, Bool-cases, string_key,
}
use inkbridge.Prelude.Fallible.{ok, map_err, refuse_if, >>=-eq-ok, map_err-eq-ok}
use inkbridge.Broker.Model.{
  Manifest, CanonicalDocumentState, keep_current, revisions, device, revisions_key,
}
use inkbridge.Broker.Storage.{StoredObject, matches, BrokerStorage}
use inkbridge.Broker.Errors.{
  Fallible, BrokerError, invalid_event, conditional_write, alternate_payload,
}
use inkbridge.Broker.External.{External}
use inkbridge.Broker.Paths.{state_path}
use inkbridge.Broker.Output.{state_write}
use inkbridge.Broker.Process.Commits.{StateCommit}
use inkbridge.Broker.Conflict.Types.{
  ConflictContext, ConflictResolutionRequest, ConflictResolutionOutcome, resolved, superseded,
  OperationGroup, strategy_key,
}
use inkbridge.Broker.Conflict.Classify.{Selection, classify_operations, select_operations}
use inkbridge.Broker.Conflict.Proposed.{proposed_conflict_manifest}
use inkbridge.Broker.Conflict.Context.{ensure_incremental_conflict_resolution_order}
use inkbridge.Broker.Conflict.Settle.{
  OutputFile, generated_outputs, marker_of, settled_state, resolution_record, superseded_record,
  without_conflict, with_record, record_write, output_file_write, with_output_views,
}
use inkbridge.Broker.Conflict.Resolve.{
  supersede_conflict, commit_resolution, resolution_files, resolve_active, resolve_context,
}

pub refused_not : (b : Bool) (e : BrokerError) → refuse_if b e ≡ ok tt → b ≡ false
refused_not b e h = ground arith

module _ (ext : External) where
  -- The parts of a resolution that is not superseded.
  pub record Chosen (context : ConflictContext) (request : ConflictResolutionRequest) : Type 0 where
    pub proposed : Manifest
    pub groups : List OperationGroup
    pub files : List OutputFile
    pub proposes :
        proposed_conflict_manifest ext context.state context.conflict context.input.bytes
        ≡ ok proposed
    pub classified :
        classify_operations context.state context.conflict proposed.operations ≡ ok groups

  abbrev pub chosen_settled :
      (context : ConflictContext) (request : ConflictResolutionRequest)
      → Chosen context request
      → CanonicalDocumentState
  chosen_settled context request c =
      settled_state ext context request c.proposed (select_operations c.groups request.strategy)

  -- The state that is committed, from the settled one.
  abbrev pub resolved_state :
      ConflictContext
      → ConflictResolutionRequest
      → CanonicalDocumentState
      → Selection
      → List OutputFile
      → CanonicalDocumentState
  resolved_state context request settled selection files =
      with_record (with_output_views ext settled request files)
        (resolution_record ext context request (revisions settled) selection)

  abbrev pub superseded_state : ConflictContext → ConflictResolutionRequest → CanonicalDocumentState
  superseded_state context request =
      with_record (without_conflict context.state request.conflict_event_id)
        (superseded_record ext context request)

module _ {S : Type 0} (st : BrokerStorage S) (ext : External) where
  pub record Committed (s s' : S) (context : ConflictContext) (request : ConflictResolutionRequest)
      (settled : CanonicalDocumentState) (selection : Selection) (files : List OutputFile)
      (o : ConflictResolutionOutcome) : Type 0 where
    pub objects : List StoredObject
    pub outcome :
        o
        ≡ resolved request.document_id request.conflict_event_id request.resolution_id
            request.strategy
            (revisions settled)
            selection.applied
            selection.preserved
            (generated_outputs files objects)
    pub commit :
        StateCommit st ext s s'
          (state_path request.document_id)
          context.state_object.generation
          (resolved_state ext context request settled selection files)

  pub record Superseded (s s' : S) (context : ConflictContext) (request : ConflictResolutionRequest)
      (o : ConflictResolutionOutcome) : Type 0 where
    pub older :
        ltb context.conflict.source_revision (device context.state context.conflict.source).revision
        ≡ true
    pub outcome :
        o
        ≡ superseded request.document_id request.conflict_event_id request.resolution_id
            (revisions context.state)
    pub commit :
        StateCommit st ext s s'
          (state_path request.document_id)
          context.state_object.generation
          (superseded_state ext context request)

  pub record Applied (s s' : S) (context : ConflictContext) (request : ConflictResolutionRequest)
      (o : ConflictResolutionOutcome) : Type 0 where
    pub not_older :
        ltb context.conflict.source_revision (device context.state context.conflict.source).revision
        ≡ false
    pub allowed :
        (eqb context.conflict.source_revision
            (device context.state context.conflict.source).revision
          && not (request.strategy == keep_current))
        ≡ false
    pub ordered :
        ensure_incremental_conflict_resolution_order context.state context.conflict ≡ ok tt
    pub choice : Chosen ext context request
    pub committed :
        Committed s s' context request
          (chosen_settled ext context request choice)
          (select_operations choice.groups request.strategy)
          choice.files
          o

  module _ (s s' : S) (context : ConflictContext) (request : ConflictResolutionRequest)
      (o : ConflictResolutionOutcome) where
    committed_as :
        (objects : List StoredObject) (t : S) (selection : Selection)
        (settled : CanonicalDocumentState) (files : List OutputFile)
        → ◌≡◌ {A = Fallible (ConflictResolutionOutcome × S)}
            (ok (
              resolved request.document_id request.conflict_event_id request.resolution_id
                  request.strategy
                  (revisions settled)
                  selection.applied
                  selection.preserved
                  (generated_outputs files objects),
              t,
            ))
            (ok (o, s'))
        → (o
            ≡ resolved request.document_id request.conflict_event_id request.resolution_id
                request.strategy
                (revisions settled)
                selection.applied
                selection.preserved
                (generated_outputs files objects))
          × (t ≡ s')
    committed_as objects t selection settled files h = (cc h, cc h)

    supersede_conflict-Superseded :
        ltb context.conflict.source_revision (device context.state context.conflict.source).revision
          ≡ true
        → supersede_conflict st ext s context request ≡ ok (o, s')
        → Superseded s s' context request o
    unfolding supersede_conflict
    supersede_conflict-Superseded older h =
        let state = superseded_state ext context request in
        let generation = context.state_object.generation in
        let (marker, _, h₁) =
          >>=-eq-ok (record_write ext request (superseded_record ext context request)) _ h in
        let (w, wrote, h₂) =
          >>=-eq-ok (state_write ext (state_path request.document_id) state (matches generation)) _
            h₁ in
        let (c, done, h₃) =
          >>=-eq-ok (map_err conditional_write (st.commit s (marker ∷ w ∷ []))) _ h₂ in
        record {
          older = older;
          outcome = cc h₃;
          commit = record {
            others = marker ∷ [];
            write = w;
            objects = c.0;
            wrote = wrote;
            committed =
                cc (h₃, map_err-eq-ok conditional_write (st.commit s (marker ∷ w ∷ [])) done);
          };
        }

    commit_resolution-Committed :
        (settled : CanonicalDocumentState) (selection : Selection) (files : List OutputFile)
        → commit_resolution st ext s context request settled selection files ≡ ok (o, s')
        → Committed s s' context request settled selection files o
    unfolding commit_resolution
    commit_resolution-Committed settled selection files h =
        let resulting = revisions settled in
        let r = resolution_record ext context request resulting selection in
        let next = with_record (with_output_views ext settled request files) r in
        let (marker, _, h₁) = >>=-eq-ok (record_write ext request r) _ h in
        let (w, wrote, h₂) =
          >>=-eq-ok
            (state_write ext (state_path request.document_id) next
              (matches context.state_object.generation))
            _ h₁ in
        let outputs = map (output_file_write ext (marker_of request resulting)) files in
        let batch = (outputs ++ marker ∷ []) ++ w ∷ [] in
        let (done, committed, h₃) =
          >>=-eq-ok (map_err conditional_write (st.commit s batch)) _ h₂ in
        let result = committed_as done.0 done.1 selection settled files h₃ in
        record {
          objects = done.0;
          outcome = result.0;
          commit = record {
            others = outputs ++ marker ∷ [];
            write = w;
            objects = done.0;
            wrote = wrote;
            committed =
                map_err-eq-ok conditional_write (st.commit s batch) committed
                ∙ ap (λ x. ok (done.0, x)) result.1;
          };
        }

    resolve_active-Applied :
        ltb context.conflict.source_revision (device context.state context.conflict.source).revision
          ≡ false
        → resolve_active st ext s context request ≡ ok (o, s')
        → Applied s s' context request o
    unfolding resolve_active
    resolve_active-Applied not_older h =
        let c = context.conflict in
        let equal = eqb c.source_revision (device context.state c.source).revision in
        let (_, allowed, h₁) =
          >>=-eq-ok
            (refuse_if (equal && not (request.strategy == keep_current))
              (invalid_event alternate_payload))
            _ h in
        let (_, ordered, h₂) =
          >>=-eq-ok (ensure_incremental_conflict_resolution_order context.state c) _ h₁ in
        let (proposed, proposes, h₃) =
          >>=-eq-ok (proposed_conflict_manifest ext context.state c context.input.bytes) _ h₂ in
        let (groups, classified, h₄) =
          >>=-eq-ok (classify_operations context.state c proposed.operations) _ h₃ in
        let selection = select_operations groups request.strategy in
        let settled = settled_state ext context request proposed selection in
        let (files, _, h₅) = >>=-eq-ok (resolution_files st ext s context request settled) _ h₄ in
        record {
          not_older = not_older;
          allowed =
              refused_not (equal && not (request.strategy == keep_current))
                (invalid_event alternate_payload) allowed;
          ordered = ordered;
          choice = record {
            proposed = proposed;
            groups = groups;
            files = files;
            proposes = proposes;
            classified = classified;
          };
          committed = commit_resolution-Committed settled selection files h₅;
        }

    pub resolve_context-cases :
        resolve_context st ext s context request ≡ ok (o, s')
        → Superseded s s' context request o ⊎ Applied s s' context request o
    unfolding resolve_context
    resolve_context-cases h =
        let c = context.conflict in
        elim (Bool-cases (ltb c.source_revision (device context.state c.source).revision)) [
          | inl older ↦ inl (supersede_conflict-Superseded older (rw older at h))
          | inr not_older ↦ inr (resolve_active-Applied not_older (rw not_older at h))
        ]
