-- ===== src/Broker/Conflict/Context.antt =====
-- How inkbridge-broker/src/conflict.rs reads a conflict and its preserved input: `list_conflicts`,
-- `inspect_conflict`, `load_context`, `load_context_from_state` and the order in which the conflicts
-- of a device that sends increments are resolved.
use inkbridge.Prelude.{
  Bool, not, ◌&&◌, ◌||◌, Option, none, some, String, List, [], ◌∷◌, map, any, keep, ltb, eqb,
  if◌then◌else◌, ◌==◌, string_key,
}
use inkbridge.Prelude.Fallible.{ok, ◌>>=◌, ◌>>◌, map_err, ok_or, refuse_if}
use inkbridge.Prelude.Text.{concat}
use inkbridge.Broker.Model.{
  boox, supernote, boox_operation_manifest, side_key, kind_key, CanonicalDocumentState,
  PreservedInput, ConflictSummary, revisions, revision_of, device,
}
use inkbridge.Broker.Storage.{StoredObject, BrokerStorage}
use inkbridge.Broker.Errors.{
  Fallible, invalid_event, missing_object, corrupt_state, storage, state_document, not_active,
  input_changed, earlier_conflict, missing_predecessor,
}
use inkbridge.Broker.External.{External}
use inkbridge.Broker.Paths.{state_path}
use inkbridge.Broker.Output.{decode_state}
use inkbridge.Broker.Process.Accept.{ensure_original_page_count}
use inkbridge.Broker.Conflict.Types.{ConflictContext, ConflictAnalysis, OperationGroup}
use inkbridge.Broker.Conflict.Classify.{classify_operations}
use inkbridge.Broker.Conflict.Proposed.{proposed_conflict_manifest}

-- `iter().find(|conflict| conflict.event_id == id)`
unfoldable pub find_conflict : String → List PreservedInput → Option PreservedInput
find_conflict id [] = none
find_conflict id (c ∷ cs) = if c.event_id == id then some c else find_conflict id cs

abbrev pub missing_state : String → String
missing_state document_id = concat ("canonical state does not exist for " ∷ document_id ∷ [])

-- A conflict whose input is told against the strokes of a page, which has to be known.
abbrev pub needs_page_count : PreservedInput → Bool
needs_page_count c =
    c.source == supernote || (c.source == boox && c.payload_kind == boox_operation_manifest)

-- An earlier conflict of the same device.
abbrev pub precedes : PreservedInput → PreservedInput → Bool
precedes c candidate =
    candidate.source == c.source
    && (not (candidate.event_id == c.event_id) && ltb candidate.source_revision c.source_revision)

unfoldable pub ensure_incremental_conflict_resolution_order :
    CanonicalDocumentState → PreservedInput → Fallible (Unit {0})
unfolding device revision_of
ensure_incremental_conflict_resolution_order state c =
    let current = (device state c.source).revision in
    let checked : Fallible (Unit {0}) = (do
      refuse_if (any (precedes c) state.conflicts) (invalid_event earlier_conflict)
      refuse_if
          (ltb current c.source_revision && not (eqb current (revision_of c.based_on c.source)))
          (invalid_event missing_predecessor)
      ok tt) in
    if not (c.source == supernote) && not (c.payload_kind == boox_operation_manifest)
    then ok tt
    else checked

unfoldable pub analysis_from_groups : ConflictContext → List OperationGroup → ConflictAnalysis
unfolding revisions
analysis_from_groups context groups = record {
  document_id = context.state.document_id;
  conflict_event_id = context.conflict.event_id;
  source = context.conflict.source;
  source_revision = context.conflict.source_revision;
  based_on = context.conflict.based_on;
  current_revisions = revisions context.state;
  state_revision = context.state.state_revision;
  safe_changes = map (λ group. group.change) (keep (λ group. group.safe) groups);
  overlapping_changes = map (λ group. group.change) (keep (λ group. not group.safe) groups);
}

unfoldable pub summary_of : CanonicalDocumentState → String → PreservedInput → ConflictSummary
unfolding revisions
summary_of state document_id c = record {
  document_id = document_id;
  conflict_event_id = c.event_id;
  source = c.source;
  source_revision = c.source_revision;
  based_on = c.based_on;
  current_revisions = revisions state;
  state_revision = state.state_revision;
  payload_kind = c.payload_kind;
}

module _ {S : Type 0} (st : BrokerStorage S) (ext : External) where
  unfoldable pub list_conflicts : S → String → Fallible (List ConflictSummary)
  unfolding decode_state summary_of
  list_conflicts s document_id = do
    found ← map_err storage (st.read s (state_path document_id))
    state_object ← ok_or found (missing_object (missing_state document_id))
    state ← decode_state ext state_object.bytes
    refuse_if (not (state.document_id == document_id)) (corrupt_state state_document)
    ok (map (summary_of state document_id) state.conflicts)

  -- `load_context_from_state`, from the reading of the input on.
  unfoldable pub load_input :
      S → StoredObject → CanonicalDocumentState → PreservedInput → Fallible ConflictContext
  load_input s state_object state c = do
    found ← map_err storage (st.read s c.preserved_path)
    input ← ok_or found (missing_object c.preserved_path)
    refuse_if (not (ext.sha256_hex input.bytes == c.content_sha256)) (corrupt_state input_changed)
    ok (record { state_object = state_object; state = state; conflict = c; input = input })

  unfoldable pub load_context_from_state :
      S → StoredObject → CanonicalDocumentState → String → Fallible ConflictContext
  unfolding find_conflict ensure_original_page_count load_input
  load_context_from_state s state_object state conflict_event_id = do
    c ← ok_or (find_conflict conflict_event_id state.conflicts) (invalid_event not_active)
    let counted = ensure_original_page_count st ext s state
    state' ← if needs_page_count c then counted else ok state
    load_input s state_object state' c

  unfoldable pub load_context : S → String → String → Fallible ConflictContext
  unfolding decode_state load_context_from_state
  load_context s document_id conflict_event_id = do
    found ← map_err storage (st.read s (state_path document_id))
    state_object ← ok_or found (missing_object (missing_state document_id))
    state ← decode_state ext state_object.bytes
    load_context_from_state s state_object state conflict_event_id

  unfoldable pub inspect_conflict : S → String → String → Fallible ConflictAnalysis
  unfolding load_context proposed_conflict_manifest classify_operations analysis_from_groups
  inspect_conflict s document_id conflict_event_id = do
    context ← load_context s document_id conflict_event_id
    manifest ← proposed_conflict_manifest ext context.state context.conflict context.input.bytes
    groups ← classify_operations context.state context.conflict manifest.operations
    ok (analysis_from_groups context groups)
