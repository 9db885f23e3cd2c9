-- ===== src/Broker/Conflict/Resolve.antt =====
-- `Broker::resolve_conflict` and `supersede_conflict` of inkbridge-broker/src/conflict.rs.
use inkbridge.Prelude.{
  not, ◌&&◌, ◌||◌, none, some, List, [], ◌∷◌, ◌++◌, map, ltb, eqb, if◌then◌else◌, ◌==◌, string_key,
}
use inkbridge.Prelude.Fallible.{ok, err, ◌>>=◌, ◌>>◌, map_err, ok_or, refuse_if}
use inkbridge.Prelude.Map
use inkbridge.Prelude.Text.{is_blank}
use inkbridge.Broker.Model.{
  boox, revisions_key, CanonicalDocumentState, ConflictResolutionRecord, keep_current, revisions,
  device,
}
use inkbridge.Broker.Storage.{StoredObject, matches, BrokerStorage}
use inkbridge.Broker.Errors.{
  Fallible, invalid_event, missing_object, conversion, conditional_write, storage,
  resolution_schema, blank_resolution_field, resolution_reused, already_resolved, stale_analysis,
  alternate_payload,
}
use inkbridge.Broker.External.{External}
use inkbridge.Broker.Paths.{state_path, boox_view_path}
use inkbridge.Broker.Output.{state_write, decode_state}
use inkbridge.Broker.Process.Accept.{read_original, active_snapshots, tombstone_ids}
use inkbridge.Broker.Conflict.Types.{
  ConflictContext, ConflictResolutionRequest, ConflictResolutionOutcome, resolved, superseded,
  duplicate, resolution_schema_version, strategy_key,
}
use inkbridge.Broker.Conflict.Classify.{Selection, classify_operations, select_operations}
use inkbridge.Broker.Conflict.Proposed.{proposed_conflict_manifest}
use inkbridge.Broker.Conflict.Context.{
  missing_state, load_context_from_state, ensure_incremental_conflict_resolution_order,
}
use inkbridge.Broker.Conflict.Settle.{
  OutputFile, generated_outputs, marker_of, settled_state, resolution_record, superseded_record,
  without_conflict, with_record, record_write, resolution_destination_precondition,
  output_file_write, with_output_views, supernote_files, build_resolution_manifest,
}

unfoldable pub validate_resolution_request : ConflictResolutionRequest → Fallible (Unit {0})
validate_resolution_request request = do
  refuse_if (not (eqb request.schema_version resolution_schema_version))
      (invalid_event resolution_schema)
  refuse_if
      (is_blank request.resolution_id
        || (is_blank request.document_id || is_blank request.conflict_event_id))
      (invalid_event blank_resolution_field)
  ok tt

-- The answer to a request for a conflict that has been resolved.
unfoldable pub answer_resolved :
    ConflictResolutionRecord → ConflictResolutionRequest → Fallible ConflictResolutionOutcome
answer_resolved r request =
    if r.resolution_id == request.resolution_id && r.strategy == request.strategy
    then ok
        (duplicate request.document_id request.conflict_event_id request.resolution_id r.strategy)
    else if r.resolution_id == request.resolution_id
    then err (invalid_event resolution_reused)
    else err (invalid_event already_resolved)

module _ {S : Type 0} (st : BrokerStorage S) (ext : External) where
  unfoldable pub supersede_conflict :
      S → ConflictContext → ConflictResolutionRequest → Fallible (ConflictResolutionOutcome × S)
  unfolding superseded_record without_conflict with_record record_write state_write revisions
  supersede_conflict s context request = do
    let r = superseded_record ext context request
    let state = with_record (without_conflict context.state request.conflict_event_id) r
    marker ← record_write ext request r
    write ←
        state_write ext (state_path request.document_id) state
          (matches context.state_object.generation)
    committed ← map_err conditional_write (st.commit s (marker ∷ write ∷ []))
    ok (
      superseded request.document_id request.conflict_event_id request.resolution_id
          (revisions context.state),
      committed.1,
    )

  -- The writes for the devices, the record and the state, and their commit.
  unfoldable pub commit_resolution :
      S
      → ConflictContext
      → ConflictResolutionRequest
      → CanonicalDocumentState
      → Selection
      → List OutputFile
      → Fallible (ConflictResolutionOutcome × S)
  unfolding resolution_record with_output_views with_record record_write output_file_write
      state_write generated_outputs revisions
  commit_resolution s context request settled selection files = do
    let resulting = revisions settled
    let r = resolution_record ext context request resulting selection
    let state = with_record (with_output_views ext settled request files) r
    marker ← record_write ext request r
    write ←
        state_write ext (state_path request.document_id) state
          (matches context.state_object.generation)
    let outputs = map (output_file_write ext (marker_of request resulting)) files
    committed ← map_err conditional_write (st.commit s ((outputs ++ marker ∷ []) ++ write ∷ []))
    ok (
      resolved request.document_id request.conflict_event_id request.resolution_id request.strategy
          resulting selection.applied selection.preserved (generated_outputs files committed.0),
      committed.1,
    )

  -- The views for the devices, from the settled state.
  unfoldable pub resolution_files :
      S
      → ConflictContext
      → ConflictResolutionRequest
      → CanonicalDocumentState
      → Fallible (List OutputFile)
  unfolding read_original active_snapshots tombstone_ids build_resolution_manifest
      resolution_destination_precondition supernote_files
  resolution_files s context request settled = do
    original ← read_original st ext s settled
    pdf ← map_err conversion (
        ext.write_boox_view original.bytes (active_snapshots settled.strokes)
          (tombstone_ids settled.strokes))
    manifest ←
        build_resolution_manifest ext context.state settled context.conflict context.input.bytes pdf
    destination ← map_err storage (st.read s (boox_view_path settled))
    precondition ←
        resolution_destination_precondition ext context.state context.conflict
          (boox_view_path settled) destination
    others ← supernote_files ext request manifest
    ok (
        record {
          side = boox;
          object_path = boox_view_path settled;
          content = pdf;
          precondition = precondition;
        }
        ∷ others)

  -- A conflict at the current revision of its device, or past it.
  unfoldable pub resolve_active :
      S → ConflictContext → ConflictResolutionRequest → Fallible (ConflictResolutionOutcome × S)
  unfolding device ensure_incremental_conflict_resolution_order proposed_conflict_manifest
      classify_operations select_operations settled_state resolution_files commit_resolution
  resolve_active s context request = do
    let c = context.conflict
    let equal = eqb c.source_revision (device context.state c.source).revision
    refuse_if (equal && not (request.strategy == keep_current)) (invalid_event alternate_payload)
    ensure_incremental_conflict_resolution_order context.state c
    proposed ← proposed_conflict_manifest ext context.state c context.input.bytes
    groups ← classify_operations context.state c proposed.operations
    let selection = select_operations groups request.strategy
    let settled = settled_state ext context request proposed selection
    files ← resolution_files s context request settled
    commit_resolution s context request settled selection files

  unfoldable pub resolve_context :
      S → ConflictContext → ConflictResolutionRequest → Fallible (ConflictResolutionOutcome × S)
  unfolding device supersede_conflict resolve_active
  resolve_context s context request =
      let c = context.conflict in
      if ltb c.source_revision (device context.state c.source).revision
      then supersede_conflict s context request
      else resolve_active s context request

  -- A request for a conflict that has no record yet.
  unfoldable pub resolve_open :
      S
      → StoredObject
      → CanonicalDocumentState
      → ConflictResolutionRequest
      → Fallible (ConflictResolutionOutcome × S)
  unfolding revisions load_context_from_state resolve_context
  resolve_open s state_object state request = do
    refuse_if
        (not (eqb state.state_revision request.expected_state_revision)
          || not (revisions state == request.expected_current_revisions))
        (invalid_event stale_analysis)
    context ← load_context_from_state st ext s state_object state request.conflict_event_id
    resolve_context s context request

  -- From the lookup in `resolved_conflicts` on.
  unfoldable pub resolve_decoded :
      S
      → StoredObject
      → CanonicalDocumentState
      → ConflictResolutionRequest
      → Fallible (ConflictResolutionOutcome × S)
  unfolding Map.lookup answer_resolved resolve_open
  resolve_decoded s state_object state request =
      elim (Map.lookup request.conflict_event_id state.resolved_conflicts) [
        | some r ↦ answer_resolved r request >>= λ outcome. ok (outcome, s)
        | none ↦ resolve_open s state_object state request
      ]

  unfoldable pub resolve_conflict :
      S → ConflictResolutionRequest → Fallible (ConflictResolutionOutcome × S)
  unfolding validate_resolution_request decode_state resolve_decoded
  resolve_conflict s request = do
    validate_resolution_request request
    found ← map_err storage (st.read s (state_path request.document_id))
    state_object ← ok_or found (missing_object (missing_state request.document_id))
    state ← decode_state ext state_object.bytes
    resolve_decoded s state_object state request
