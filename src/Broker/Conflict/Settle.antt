-- ===== src/Broker/Conflict/Settle.antt =====
-- The state that a resolution of inkbridge-broker/src/conflict.rs leads to, and what it writes beside
-- it: the parts of `resolve_conflict` and `supersede_conflict` that read nothing of the storage.
use inkbridge.Prelude.{
  true, false, not, ◌&&◌, Option, none, some, String, List, [], ◌∷◌, keep, length, eqb,
  if◌then◌else◌, ◌==◌, string_key,
}
use inkbridge.Prelude.Fallible.{ok, ◌>>=◌, map_err}
use inkbridge.Prelude.Map
use inkbridge.Prelude.Text.{concat}
use inkbridge.Broker.Model.{
  Bytes, Manifest, DeviceSide, boox, supernote, device_view, side_key, kind_key, RevisionPair,
  DeviceRevision, BrokerOutputMarker, broker_producer, CanonicalDocumentState, StorageEvent,
  PreservedInput, ConflictResolutionRecord, keep_current, revisions, device, set_device,
}
use inkbridge.Broker.Storage.{
  StoredObject, GenerationPrecondition, does_not_exist, matches, ConditionalWrite,
}
use inkbridge.Broker.Errors.{Fallible, conversion, corrupt_json}
use inkbridge.Broker.External.{External}
use inkbridge.Broker.Paths.{supernote_manifest_path, event_path_segment}
use inkbridge.Broker.Output.{
  Metadata, from_pairs, output_metadata, destination_precondition, add_newline, generated_by_key,
  generated_document_key, generated_event_key,
}
use inkbridge.Broker.Apply.{apply_manifest}
use inkbridge.Broker.Validate.{refresh_manifest_id, target_name}
use inkbridge.Broker.Process.Mark.{next_u64}
use inkbridge.Broker.Conflict.Types.{
  ConflictContext, ConflictResolutionRequest, GeneratedResolutionOutput, strategy_key,
}
use inkbridge.Broker.Conflict.Classify.{Selection, manifest_summary}
use inkbridge.Broker.Conflict.Proposed.{conflict_event, or_else}

-- `conflicts.retain(..)` and the revision of the state.
unfoldable pub without_conflict : CanonicalDocumentState → String → CanonicalDocumentState
without_conflict state id = record state {
  state_revision = next_u64 state.state_revision;
  conflicts = keep (λ c. not (c.event_id == id)) state.conflicts;
}

unfoldable pub with_record :
    CanonicalDocumentState → ConflictResolutionRecord → CanonicalDocumentState
unfolding Map.insert
with_record state r = record state {
  resolved_conflicts = Map.insert r.conflict_event_id r state.resolved_conflicts;
}

-- The event under which the selected operations are applied.
unfoldable pub effective_event :
    PreservedInput → ConflictResolutionRequest → RevisionPair → StorageEvent
unfolding conflict_event
effective_event c request previous = record (conflict_event c request.document_id) {
  event_id = request.resolution_id;
  based_on = previous;
}

abbrev pub consumed_device : DeviceRevision → ConflictContext → Manifest → DeviceRevision
consumed_device d context proposed = record d {
  revision = context.conflict.source_revision;
  content_sha256 = context.conflict.content_sha256;
  source_generation = context.input.generation;
  source_object_path = context.conflict.preserved_path;
  accepted_object_path = "";
  source_file_name = some proposed.document.source_file_name;
}

-- The source's device takes the revision of the preserved input.
unfoldable pub consume_revision :
    CanonicalDocumentState → ConflictContext → Manifest → CanonicalDocumentState
unfolding device set_device Map.insert
consume_revision state context proposed =
    let source = context.conflict.source in
    let moved = set_device state source (consumed_device (device state source) context proposed) in
    record moved {
      source_generations =
          Map.insert context.conflict.preserved_path context.input.generation
            moved.source_generations;
    }

abbrev pub with_frontier : CanonicalDocumentState → CanonicalDocumentState
with_frontier state = record state { last_common_revisions = revisions state }

-- One object that a resolution writes for a device.
pub record OutputFile : Type 0 where
  pub side : DeviceSide
  pub object_path : String
  pub content : Bytes
  pub precondition : GenerationPrecondition

-- `output_sides.zip(committed)`
unfoldable pub generated_outputs :
    List OutputFile → List StoredObject → List GeneratedResolutionOutput
generated_outputs (f ∷ files) (object ∷ objects) =
    record { side = f.side; object_path = f.object_path; generation = object.generation }
    ∷ generated_outputs files objects
generated_outputs _ _ = []

unfoldable pub resolution_metadata : ConflictResolutionRequest → Metadata
unfolding from_pairs
resolution_metadata request = from_pairs (
    (generated_by_key, broker_producer)
    ∷ (generated_document_key, request.document_id)
    ∷ (generated_event_key, request.resolution_id)
    ∷ ("inkbridge-kind", "conflict-resolution")
    ∷ ("inkbridge-conflict-event-id", request.conflict_event_id)
    ∷ [])

abbrev pub marker_of : ConflictResolutionRequest → RevisionPair → BrokerOutputMarker
marker_of request source_revisions = record {
  producer = broker_producer;
  event_id = request.resolution_id;
  document_id = request.document_id;
  source_revisions = source_revisions;
}

module _ (ext : External) where
  unfoldable pub conflict_resolution_path : String → String → String
  unfolding event_path_segment
  conflict_resolution_path document_id conflict_event_id = concat (
      "Conflicts/"
      ∷ document_id
      ∷ "/"
      ∷ event_path_segment ext conflict_event_id
      ∷ "/resolution.json"
      ∷ [])

  unfoldable pub selected_manifest : Manifest → Selection → Manifest
  unfolding manifest_summary refresh_manifest_id
  selected_manifest proposed selection = refresh_manifest_id ext (record proposed {
    operations = selection.operations;
    summary = manifest_summary selection.operations (length selection.preserved);
  })

  -- From `let mut state` to the `retain`: the state with the selected operations applied, the
  -- source's revision consumed unless it is the current one, and the conflict gone.
  unfoldable pub settled_state :
      ConflictContext → ConflictResolutionRequest → Manifest → Selection → CanonicalDocumentState
  unfolding selected_manifest effective_event apply_manifest consume_revision without_conflict
      device revisions
  settled_state context request proposed selection =
      let c = context.conflict in
      let state =
        if request.strategy == keep_current
        then context.state
        else apply_manifest context.state (selected_manifest proposed selection)
            (effective_event c request (revisions context.state)) in
      let equal = eqb c.source_revision (device context.state c.source).revision in
      let consumed = if equal then state else consume_revision state context proposed in
      without_conflict (with_frontier consumed) request.conflict_event_id

  unfoldable pub resolution_record :
      ConflictContext
      → ConflictResolutionRequest
      → (resulting : RevisionPair) → Selection
      → ConflictResolutionRecord
  unfolding conflict_resolution_path revisions
  resolution_record context request resulting selection = record {
    resolution_id = request.resolution_id;
    conflict_event_id = request.conflict_event_id;
    strategy = request.strategy;
    superseded = false;
    source = context.conflict.source;
    previous_revisions = revisions context.state;
    resulting_revisions = resulting;
    applied_stroke_ids = selection.applied;
    preserved_current_stroke_ids = selection.preserved;
    marker_path = conflict_resolution_path request.document_id request.conflict_event_id;
  }

  unfoldable pub superseded_record :
      ConflictContext → ConflictResolutionRequest → ConflictResolutionRecord
  unfolding conflict_resolution_path revisions
  superseded_record context request = record {
    resolution_id = request.resolution_id;
    conflict_event_id = request.conflict_event_id;
    strategy = request.strategy;
    superseded = true;
    source = context.conflict.source;
    previous_revisions = revisions context.state;
    resulting_revisions = revisions context.state;
    applied_stroke_ids = [];
    preserved_current_stroke_ids = [];
    marker_path = conflict_resolution_path request.document_id request.conflict_event_id;
  }

  -- The write of the record of a resolution.
  unfoldable pub record_write :
      ConflictResolutionRequest → ConflictResolutionRecord → Fallible ConditionalWrite
  unfolding resolution_metadata add_newline
  record_write request r = do
    json ← map_err corrupt_json (ext.record_to_json r)
    ok (record {
      path = r.marker_path;
      bytes = add_newline json;
      metadata = resolution_metadata request;
      precondition = does_not_exist;
    })

  unfoldable pub resolution_destination_precondition :
      CanonicalDocumentState
      → PreservedInput
      → String
      → Option StoredObject
      → Fallible GenerationPrecondition
  unfolding destination_precondition
  resolution_destination_precondition previous c path destination =
      let usual = destination_precondition ext previous path destination in
      elim destination [
        | none ↦ usual
        | some object ↦
            if c.source == boox
              && (c.payload_kind == device_view
                  && (c.object_path == path
                      && (eqb object.generation c.source_generation
                          && ext.sha256_hex object.bytes == c.content_sha256)))
            then ok (matches object.generation)
            else usual
      ]

  unfoldable pub output_file_write : BrokerOutputMarker → OutputFile → ConditionalWrite
  unfolding output_metadata
  output_file_write marker f = record {
    path = f.object_path;
    bytes = f.content;
    metadata = output_metadata marker (ext.sha256_hex f.content);
    precondition = f.precondition;
  }

  unfoldable pub with_output_views :
      CanonicalDocumentState → ConflictResolutionRequest → List OutputFile → CanonicalDocumentState
  unfolding Map.insert revisions
  with_output_views state request [] = state
  with_output_views state request (f ∷ files) =
      with_output_views
        (record state {
          generated_views =
              Map.insert f.object_path
                (record {
                  object_path = f.object_path;
                  content_sha256 = ext.sha256_hex f.content;
                  source_revisions = revisions state;
                  event_id = request.resolution_id;
                })
                state.generated_views;
        })
        request files

  -- The manifest for the Supernote, unless it is empty.
  unfoldable pub supernote_files : ConflictResolutionRequest → Manifest → Fallible (List OutputFile)
  unfolding supernote_manifest_path add_newline
  supernote_files request manifest =
      let written : Fallible (List OutputFile) = (do
        json ← map_err conversion (ext.manifest_to_json manifest)
        ok (
            record {
              side = supernote;
              object_path = supernote_manifest_path ext request.document_id request.resolution_id;
              content = add_newline json;
              precondition = does_not_exist;
            }
            ∷ [])) in
      elim manifest.operations [ [] ↦ ok [] | op ∷ ops ↦ written ]

  -- The pages of a Supernote export beside the baselines of the previous state.
  unfoldable pub build_resolution_manifest :
      (previous resulting : CanonicalDocumentState)
      → PreservedInput
      → (input pdf : Bytes) → Fallible Manifest
  unfolding refresh_manifest_id
  build_resolution_manifest previous resulting c input pdf =
      let exported : Fallible Manifest = (do
        export ← map_err conversion (ext.parse_baseline_bytes input c.object_path)
        let name =
            or_else export.source_file_name
              (or_else previous.supernote_device.source_file_name previous.original_file_name)
        ext.build_manifest previous (some (name, export.pages)) pdf) in
      do
        manifest ← elim c.source [
          | boox ↦ ext.build_manifest previous none pdf
          | supernote ↦ exported
        ]
        ok (
            refresh_manifest_id ext (record manifest {
              document = record manifest.document {
                target_file_names = target_name ext resulting ∷ [];
              };
            }))
