-- ===== src/Broker/Process/Preserve.antt =====
-- `Broker::preserve_conflict` of inkbridge-broker/src/broker.rs: the incoming bytes and the accepted
-- inputs that they compete with are kept under Conflicts/, and the state records the conflict.
use inkbridge.Prelude.{
  ℕ, ◌||◌, none, some, String, List, [], ◌∷◌, ◌++◌, map, leb, if◌then◌else◌, ◌==◌, not, string_key,
}
use inkbridge.Prelude.Fallible.{ok, ◌>>=◌, ◌>>◌, map_err, ok_or, refuse_if}
use inkbridge.Prelude.Set
use inkbridge.Prelude.Text.{concat, extension}
use inkbridge.Broker.Model.{
  Bytes, DeviceSide, boox, supernote, DeviceRevision, StorageEvent, CanonicalDocumentState,
  ProcessOutcome, conflict, revisions, revision_of, device,
}
use inkbridge.Broker.Storage.{does_not_exist, matches, ConditionalWrite, BrokerStorage}
use inkbridge.Broker.Errors.{
  Fallible, missing_object, corrupt_state, conditional_write, storage, evidence_changed,
}
use inkbridge.Broker.External.{External}
use inkbridge.Broker.Paths.{state_path, event_path_segment}
use inkbridge.Broker.Output.{
  Metadata, from_pairs, generated_document_key, generated_event_key, state_write,
}
use inkbridge.Broker.Process.Mark.{next_u64}

unfoldable pub extension_or_bin : String → String
extension_or_bin path = elim (extension path) [ none ↦ "bin" | some e ↦ e ]

abbrev pub side_name : DeviceSide → String
side_name boox = "boox"
side_name supernote = "supernote"

unfoldable pub conflict_metadata : String → StorageEvent → Metadata
unfolding from_pairs
conflict_metadata kind event = from_pairs (
    ("inkbridge-kind", kind)
    ∷ (generated_document_key, event.document_id)
    ∷ (generated_event_key, event.event_id)
    ∷ [])

-- The path at which the accepted input of a device is found.
abbrev pub evidence_path : DeviceRevision → String
evidence_path d =
    if d.accepted_object_path == "" then d.source_object_path else d.accepted_object_path

module _ (ext : External) where
  unfoldable pub preserved_path : StorageEvent → String
  unfolding extension_or_bin event_path_segment
  preserved_path event = concat (
      "Conflicts/"
      ∷ event.document_id
      ∷ "/"
      ∷ event_path_segment ext event.event_id
      ∷ "/incoming."
      ∷ extension_or_bin event.object_path
      ∷ [])

  unfoldable pub current_path : StorageEvent → DeviceSide → String → String
  unfolding extension_or_bin event_path_segment
  current_path event side evidence = concat (
      "Conflicts/"
      ∷ event.document_id
      ∷ "/"
      ∷ event_path_segment ext event.event_id
      ∷ "/current-"
      ∷ side_name side
      ∷ "."
      ∷ extension_or_bin evidence
      ∷ [])

  unfoldable pub conflicted_state :
      CanonicalDocumentState → StorageEvent → (competing : List String) → CanonicalDocumentState
  unfolding preserved_path revisions Set.insert
  conflicted_state state event competing = record state {
    conflicts =
        state.conflicts
        ++ record {
          event_id = event.event_id;
          source = event.source;
          object_path = event.object_path;
          payload_kind = event.payload_kind;
          preserved_path = preserved_path event;
          competing_preserved_paths = competing;
          source_generation = event.source_generation;
          source_revision = event.source_revision;
          content_sha256 = event.content_sha256;
          based_on = event.based_on;
          current_revisions = revisions state;
        }
          ∷ [];
    processed_event_ids = Set.insert event.event_id state.processed_event_ids;
    state_revision = next_u64 state.state_revision;
  }

  unfoldable pub incoming_write : StorageEvent → Bytes → ConditionalWrite
  unfolding preserved_path conflict_metadata
  incoming_write event input = record {
    path = preserved_path event;
    bytes = input;
    metadata = conflict_metadata "conflict-input" event;
    precondition = does_not_exist;
  }

module _ {S : Type 0} (st : BrokerStorage S) (ext : External) where
  -- One round of the loop over the sides: the evidence of a device that is past the event's base.
  unfoldable pub competing_write :
      S → CanonicalDocumentState → StorageEvent → DeviceSide → Fallible (List ConditionalWrite)
  unfolding device revision_of current_path conflict_metadata
  competing_write s state event side =
      let d = device state side in
      let evidence = evidence_path d in
      let kept : Fallible (List ConditionalWrite) = (do
        found ← map_err storage (
            if d.accepted_object_path == ""
            then st.read_generation s evidence d.source_generation
            else st.read s evidence)
        current_input ← ok_or found (missing_object evidence)
        refuse_if (not (ext.sha256_hex current_input.bytes == d.content_sha256))
            (corrupt_state evidence_changed)
        ok (
            record {
              path = current_path ext event side evidence;
              bytes = current_input.bytes;
              metadata = conflict_metadata "conflict-competing-input" event;
              precondition = does_not_exist;
            }
            ∷ [])) in
      if leb d.revision (revision_of event.based_on side) || d.source_object_path == ""
      then ok []
      else kept

  unfoldable pub preserve_conflict :
      S
      → CanonicalDocumentState
      → (state_generation : ℕ) → StorageEvent
      → (input : Bytes) → Fallible (ProcessOutcome × S)
  unfolding competing_write conflicted_state incoming_write state_write
  preserve_conflict s state state_generation event input = do
    boox_writes ← competing_write s state event boox
    supernote_writes ← competing_write s state event supernote
    let competing = boox_writes ++ supernote_writes
    write ←
        state_write ext (state_path event.document_id)
          (conflicted_state ext state event (map (λ w. w.path) competing))
          (matches state_generation)
    committed ←
        map_err conditional_write
          (st.commit s ((incoming_write ext event input ∷ competing) ++ write ∷ []))
    ok (
      conflict event.document_id event.event_id (preserved_path ext event) (revisions state)
          event.based_on,
      committed.1,
    )
