-- ===== src/Broker/Process/Accept.antt =====
-- The last part of `Broker::process` of inkbridge-broker/src/broker.rs: an event that is based on the
-- current revisions is converted, applied and committed with the view for the other device.
use inkbridge.Prelude.{
  ℕ, not, ◌||◌, Option, none, some, String, List, [], ◌∷◌, eqb, is_some, if◌then◌else◌, ◌==◌,
  string_key,
}
use inkbridge.Prelude.Fallible.{ok, ◌>>=◌, ◌>>◌, map_err, ok_or, refuse_if}
use inkbridge.Prelude.Map
use inkbridge.Prelude.Set
use inkbridge.Broker.Model.{
  Bytes, StrokeSnapshot, Manifest, DeviceSide, boox, supernote, device_view,
  boox_operation_manifest, DeviceRevision, GeneratedView, StorageEvent, CanonicalDocumentState,
  ProcessOutcome, applied, broker_producer, revisions, device, set_device, side_key, kind_key,
}
use inkbridge.Broker.Storage.{
  StoredObject, GenerationPrecondition, matches, ConditionalWrite, BrokerStorage,
}
use inkbridge.Broker.Errors.{
  Fallible, missing_object, corrupt_state, conversion, conditional_write, storage, original_changed,
  original_unreadable, original_empty,
}
use inkbridge.Broker.External.{External}
use inkbridge.Broker.Paths.{state_path, boox_view_path, supernote_manifest_path}
use inkbridge.Broker.Output.{output_metadata, destination_precondition, state_write, add_newline}
use inkbridge.Broker.Apply.{Strokes, apply_manifest, apply_supernote_export}
use inkbridge.Broker.Validate.{validate_boox_manifest}
use inkbridge.Broker.Process.Mark.{next_u64}

-- `state.strokes.values()`, without and with a tombstone.
unfoldable pub active_snapshots : Strokes → List StrokeSnapshot
active_snapshots [] = []
active_snapshots ((k, c) ∷ strokes) =
    if is_some c.tombstone then active_snapshots strokes else c.snapshot ∷ active_snapshots strokes

unfoldable pub tombstone_ids : Strokes → List String
tombstone_ids [] = []
tombstone_ids ((k, c) ∷ strokes) =
    if is_some c.tombstone then c.stroke_id ∷ tombstone_ids strokes else tombstone_ids strokes

-- The state with the input applied, and what goes to the other device.
pub record Converted : Type 0 where
  pub state : CanonicalDocumentState
  pub destination_path : String
  pub output_bytes : Bytes
  pub boox_source_file_name : Option String

-- The assignments to `device` of the source side.
abbrev pub advanced_device : DeviceRevision → StorageEvent → Option String → DeviceRevision
advanced_device d event name = record d {
  revision = event.source_revision;
  content_sha256 = event.content_sha256;
  source_generation = event.source_generation;
  source_object_path = event.object_path;
  accepted_object_path = "";
  source_file_name = if event.source == boox then name else d.source_file_name;
}

abbrev pub consumed_view : StorageEvent → CanonicalDocumentState → List (String × GeneratedView)
consumed_view event state = elim (Map.lookup event.object_path state.generated_views) [
  | none ↦ state.generated_views
  | some view ↦
      Map.insert event.object_path
        (record view {
          content_sha256 = event.content_sha256;
          source_revisions = revisions state;
          event_id = event.event_id;
        })
        state.generated_views
]

-- The state after the device, the frontier and the bookkeeping are advanced; `generated_views` has
-- the consumed view, and not yet the new one.
unfoldable pub advanced_state :
    CanonicalDocumentState → StorageEvent → Option String → CanonicalDocumentState
unfolding device set_device revisions Map.insert Map.lookup Set.insert
advanced_state state event name =
    let moved =
      set_device state event.source (advanced_device (device state event.source) event name) in
    record moved {
      last_common_revisions = revisions moved;
      source_generations =
          Map.insert event.object_path event.source_generation moved.source_generations;
      generated_views = consumed_view event moved;
      processed_event_ids = Set.insert event.event_id moved.processed_event_ids;
      state_revision = next_u64 moved.state_revision;
    }

abbrev pub with_view :
    CanonicalDocumentState → String → String → StorageEvent → CanonicalDocumentState
with_view state path hash event = record state {
  generated_views =
      Map.insert path
        (record {
          object_path = path;
          content_sha256 = hash;
          source_revisions = revisions state;
          event_id = event.event_id;
        })
        state.generated_views;
}

-- The write of the view for the other device, with the marker by which the broker knows its own.
unfoldable pub output_write :
    Converted
    → (advanced : CanonicalDocumentState) → (hash : String) → StorageEvent
    → GenerationPrecondition
    → ConditionalWrite
unfolding output_metadata
output_write converted advanced hash event precondition = record {
  path = converted.destination_path;
  bytes = converted.output_bytes;
  metadata =
      output_metadata
        (record {
          producer = broker_producer;
          event_id = event.event_id;
          document_id = event.document_id;
          source_revisions = revisions advanced;
        })
        hash;
  precondition = precondition;
}

-- The generation of the first committed object; a commit returns one object for each write.
abbrev pub first_generation : List StoredObject → ℕ
first_generation [] = 0
first_generation (o ∷ os) = o.generation

module _ {S : Type 0} (st : BrokerStorage S) (ext : External) where
  unfoldable pub read_original : S → CanonicalDocumentState → Fallible StoredObject
  read_original s state = do
    found ← map_err storage (st.read s state.original_object_path)
    original ← ok_or found (missing_object state.original_object_path)
    refuse_if (not (ext.sha256_hex original.bytes == state.original_pdf_sha256))
        (corrupt_state original_changed)
    ok original

  unfoldable pub count_pages : S → CanonicalDocumentState → Fallible CanonicalDocumentState
  unfolding read_original
  count_pages s state = do
    original ← read_original s state
    pages ← map_err (λ e. corrupt_state original_unreadable) (ext.load_page_count original.bytes)
    refuse_if (eqb pages 0) (corrupt_state original_empty)
    ok (record state { original_page_count = pages })

  unfoldable pub ensure_original_page_count :
      S → CanonicalDocumentState → Fallible CanonicalDocumentState
  unfolding count_pages
  ensure_original_page_count s state =
      if not (eqb state.original_page_count 0) then ok state else count_pages s state

  abbrev pub read_manifest : CanonicalDocumentState → StorageEvent → Bytes → Fallible Manifest
  read_manifest state event bytes = elim event.payload_kind [
    | device_view ↦ ext.boox_to_supernote state event bytes
    | boox_operation_manifest ↦ validate_boox_manifest ext state bytes
  ]

  -- The `match event.source`.
  unfoldable pub convert_from :
      DeviceSide → S → CanonicalDocumentState → StorageEvent → Bytes → Fallible Converted
  unfolding read_original apply_manifest apply_supernote_export add_newline
  convert_from boox s state event source_bytes = do
    manifest ← read_manifest state event source_bytes
    bytes ← map_err conversion (ext.manifest_to_json manifest)
    ok (record {
      state = apply_manifest state manifest event;
      destination_path = supernote_manifest_path ext event.document_id event.event_id;
      output_bytes = add_newline bytes;
      boox_source_file_name = some manifest.document.source_file_name;
    })
  convert_from supernote s state event source_bytes = do
    state' ← apply_supernote_export ext state event source_bytes
    original ← read_original s state'
    pdf ← map_err conversion (
        ext.write_boox_view original.bytes (active_snapshots state'.strokes)
          (tombstone_ids state'.strokes))
    ok (record {
      state = state';
      destination_path = boox_view_path state';
      output_bytes = pdf;
      boox_source_file_name = none;
    })

  unfoldable pub convert : S → CanonicalDocumentState → StorageEvent → Bytes → Fallible Converted
  unfolding convert_from
  convert s state event source_bytes = convert_from event.source s state event source_bytes

  -- From the advance of the device to the commit.
  unfoldable pub publish :
      S → Converted → (state_generation : ℕ) → StorageEvent → Fallible (ProcessOutcome × S)
  unfolding advanced_state destination_precondition output_write state_write
  publish s converted state_generation event = do
    let state = advanced_state converted.state event converted.boox_source_file_name
    let path = converted.destination_path
    let output_hash = ext.sha256_hex converted.output_bytes
    destination ← map_err storage (st.read s path)
    precondition ← destination_precondition ext state path destination
    write ←
        state_write ext (state_path event.document_id) (with_view state path output_hash event)
          (matches state_generation)
    committed ←
        map_err conditional_write
          (st.commit s (output_write converted state output_hash event precondition ∷ write ∷ []))
    ok (
      applied event.document_id event.event_id path (first_generation committed.0)
          (revisions state),
      committed.1,
    )

  unfoldable pub accept :
      S
      → CanonicalDocumentState
      → (state_generation : ℕ) → StorageEvent
      → Bytes
      → Fallible (ProcessOutcome × S)
  unfolding ensure_original_page_count convert publish
  accept s state state_generation event source_bytes =
      let counted = ensure_original_page_count s state in
      do
        state' ←
            if event.payload_kind == boox_operation_manifest || event.source == supernote
            then counted
            else ok state
        converted ← convert s state' event source_bytes
        publish s converted state_generation event
