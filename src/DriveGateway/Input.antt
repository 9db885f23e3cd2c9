-- ===== src/DriveGateway/Input.antt =====
-- A change of a bound file on its way to the broker: `prepare_drive_input`, `commit_drive_input`,
-- `accept_drive_input` and `reject_drive_input` of inkbridge-drive-gateway/src/planner.rs.
use inkbridge.Prelude.{
  ℕ, max, Bool, true, false, not, ◌||◌, Option, none, some, String, List, [], ◌∷◌, any, length, eqb,
  if◌then◌else◌, ◌==◌, string_key,
}
use inkbridge.Prelude.Fallible.{ok, err, ◌>>=◌, ◌>>◌, ok_or, refuse_if}
use inkbridge.Prelude.Map
use inkbridge.Prelude.Set
use inkbridge.Broker.Model.{
  Bytes, DeviceSide, DevicePayloadKind, RevisionPair, revision_of, set_revision, revisions_key,
  side_key,
}
use inkbridge.Broker.Process.{checked_next}
use inkbridge.DriveGateway.Model.{
  Outcome, size_mismatch, ambiguous_binding, lost_frontier, revision_overflow, zero_generation,
  unbound_file, changed_binding, wrong_revision, stale_input, different_input, second_input,
  finalized_input, trashed, generated, outside_folder, unsupported_mime, DriveGatewayConfig,
  validate_config, folder_id, DriveFileRevision, DocumentBinding, side_for_file, PendingDriveInput,
  input_eq, DriveGatewayCheckpoint, PreparedDriveInput, DriveInputDecision, ignore, duplicate,
  deferred, unbound, upload,
}
use inkbridge.DriveGateway.Checkpoint.{
  binding_for_file, has_value, has_side, has_frontier, validate,
}
use inkbridge.DriveGateway.Events.{
  is_generated, supported_payload_kind, drive_event_id_from_parts, input_path, input_metadata,
}

-- An operation with `&mut checkpoint`: its result, and the checkpoint that it leaves, which is changed
-- also where the last check refuses it.
abbrev pub Step : Type 0
Step = Outcome (Unit {0}) × DriveGatewayCheckpoint

-- `checkpoint.validate()` at the end of an operation.
unfoldable pub validated : DriveGatewayCheckpoint → Step
unfolding validate
validated checkpoint = (validate checkpoint, checkpoint)

-- `values().find(|pending| pending.drive_file_id == file_id)`
unfoldable pub find_pending : String → List (String × PendingDriveInput) → Option PendingDriveInput
find_pending file_id [] = none
find_pending file_id ((k, pending) ∷ inputs) =
    if pending.drive_file_id == file_id then some pending else find_pending file_id inputs

-- `based_on.get(source).max(frontier.get(source)).checked_add(1)`
unfoldable pub next_source_revision : RevisionPair → RevisionPair → DeviceSide → Option ℕ
unfolding revision_of
next_source_revision based_on frontier source =
    checked_next (max (revision_of based_on source) (revision_of frontier source))

module _ (sha256_hex : Bytes → String) where
  -- From `let Some(payload_kind)` on.
  unfoldable pub prepare_upload :
      DriveGatewayCheckpoint
      → DriveFileRevision
      → (frontier : RevisionPair) → DocumentBinding
      → DeviceSide
      → DevicePayloadKind
      → (content_sha256 event_id : String) → Outcome DriveInputDecision
  unfolding Map.lookup next_source_revision input_path input_metadata
  prepare_upload checkpoint file frontier binding source kind content_sha256 event_id = do
    based_on ← ok_or (Map.lookup file.file_id checkpoint.file_observed_frontiers) lost_frontier
    source_revision ← ok_or (next_source_revision based_on frontier source) revision_overflow
    ok (
        upload (record {
          drive_event_id = event_id;
          drive_file_id = file.file_id;
          gcs_object_path = input_path sha256_hex source kind binding.document_id event_id;
          content_sha256 = content_sha256;
          metadata =
              input_metadata sha256_hex file binding.document_id source_revision based_on kind
                content_sha256 event_id;
          document_id = binding.document_id;
          source = source;
          source_revision = source_revision;
          based_on = based_on;
          canonical_frontier = frontier;
          payload_kind = kind;
        }))

  -- From `side_for_file` on: the change is new.
  unfoldable pub prepare_new :
      DriveGatewayConfig
      → DriveGatewayCheckpoint
      → DriveFileRevision
      → (frontier : RevisionPair) → DocumentBinding
      → (content_sha256 event_id : String) → Outcome DriveInputDecision
  unfolding side_for_file folder_id supported_payload_kind prepare_upload
  prepare_new config checkpoint file frontier binding content_sha256 event_id = do
    source ← ok_or (side_for_file binding file.file_id) ambiguous_binding
    let inside = any (λ parent. parent == folder_id config source) file.parents
    let planned : Outcome DriveInputDecision = elim (supported_payload_kind source file.mime_type) [
      | none ↦ ok (ignore unsupported_mime)
      | some kind ↦
          prepare_upload checkpoint file frontier binding source kind content_sha256 event_id
    ]
    if inside then planned else ok (ignore outside_folder)

  -- From the check of the size on: the file is bound.
  unfoldable pub prepare_bound :
      DriveGatewayConfig
      → DriveGatewayCheckpoint
      → DriveFileRevision
      → Bytes
      → (frontier : RevisionPair) → DocumentBinding
      → Outcome DriveInputDecision
  unfolding drive_event_id_from_parts find_pending Map.lookup Set.contains prepare_new
  prepare_bound config checkpoint file bytes frontier binding = do
    let content_sha256 = sha256_hex bytes
    let event_id = drive_event_id_from_parts sha256_hex file.file_id file.version content_sha256
    refuse_if (not (eqb file.size (length bytes))) size_mismatch
    elim (find_pending file.file_id checkpoint.pending_drive_inputs) [
      | some pending ↦ ok (deferred file.file_id pending.drive_event_id)
      | none ↦
          if has_value checkpoint.accepted_file_content_sha256 file.file_id content_sha256
            || Set.contains event_id checkpoint.processed_drive_events
          then ok (duplicate event_id)
          else prepare_new config checkpoint file frontier binding content_sha256 event_id
    ]

  unfoldable pub prepare_drive_input :
      DriveGatewayConfig
      → DriveGatewayCheckpoint
      → DriveFileRevision
      → Bytes
      → (frontier : RevisionPair) → Outcome DriveInputDecision
  unfolding validate_config validate binding_for_file is_generated prepare_bound
  prepare_drive_input config checkpoint file bytes frontier = do
    validate_config config
    validate checkpoint
    let planned : Outcome DriveInputDecision = elim (binding_for_file checkpoint file.file_id) [
      | none ↦ if is_generated file then ok (ignore generated) else ok (unbound file.file_id)
      | some binding ↦ prepare_bound config checkpoint file bytes frontier binding
    ]
    if file.trashed then ok (ignore trashed) else planned

-- The pending input that a prepared input becomes.
unfoldable pub pending_of : PreparedDriveInput → (gcs_generation : ℕ) → PendingDriveInput
unfolding set_revision
pending_of input gcs_generation = record {
  drive_event_id = input.drive_event_id;
  drive_file_id = input.drive_file_id;
  gcs_object_path = input.gcs_object_path;
  gcs_generation = gcs_generation;
  document_id = input.document_id;
  source = input.source;
  content_sha256 = input.content_sha256;
  previous_frontier = input.based_on;
  proposed_frontier = set_revision input.based_on input.source input.source_revision;
}

-- The checks of `commit_drive_input` on the prepared input.
unfoldable pub check_prepared : DriveGatewayCheckpoint → PreparedDriveInput → ℕ → Outcome (Unit {0})
unfolding binding_for_file side_for_file next_source_revision Map.lookup
check_prepared checkpoint input gcs_generation = do
  refuse_if (eqb gcs_generation 0) zero_generation
  binding ← ok_or (binding_for_file checkpoint input.drive_file_id) unbound_file
  refuse_if
      (not (binding.document_id == input.document_id)
        || not (has_side binding input.drive_file_id input.source))
      changed_binding
  expected ←
      ok_or (next_source_revision input.based_on input.canonical_frontier input.source)
        revision_overflow
  refuse_if (not (eqb input.source_revision expected)) wrong_revision
  frontier ← ok_or (Map.lookup input.drive_file_id checkpoint.file_observed_frontiers) lost_frontier
  refuse_if (not (frontier == input.based_on)) stale_input
  ok tt

-- Whether the event has been committed before; an error, if it has been with different content.
unfoldable pub check_known : DriveGatewayCheckpoint → PreparedDriveInput → ℕ → Outcome Bool
unfolding pending_of find_pending Map.lookup Set.contains
check_known checkpoint input gcs_generation =
    let finalized : Outcome Bool =
      if has_value checkpoint.accepted_file_content_sha256 input.drive_file_id input.content_sha256
      then ok true
      else err finalized_input in
    elim (Map.lookup input.drive_event_id checkpoint.pending_drive_inputs) [
      | some found ↦
          if input_eq found (pending_of input gcs_generation) then ok true else err different_input
      | none ↦ elim (find_pending input.drive_file_id checkpoint.pending_drive_inputs) [
        | some other ↦ err second_input
        | none ↦
            if Set.contains input.drive_event_id checkpoint.processed_drive_events
            then finalized
            else ok false
      ]
    ]

-- The two insertions.
unfoldable pub with_pending :
    DriveGatewayCheckpoint → PreparedDriveInput → ℕ → DriveGatewayCheckpoint
unfolding Map.insert Set.insert pending_of
with_pending checkpoint input gcs_generation = record checkpoint {
  processed_drive_events = Set.insert input.drive_event_id checkpoint.processed_drive_events;
  pending_drive_inputs =
      Map.insert input.drive_event_id (pending_of input gcs_generation)
        checkpoint.pending_drive_inputs;
}

unfoldable pub commit_drive_input :
    DriveGatewayCheckpoint → PreparedDriveInput → (gcs_generation : ℕ) → Step
unfolding check_prepared check_known with_pending validated
commit_drive_input checkpoint input gcs_generation =
    elim (check_prepared checkpoint input gcs_generation >>= λ _.
    check_known checkpoint input gcs_generation) [
      | err e ↦ (err e, checkpoint)
      | ok true ↦ (ok tt, checkpoint)
      | ok false ↦ validated (with_pending checkpoint input gcs_generation)
    ]

unfoldable pub without_input : DriveGatewayCheckpoint → String → DriveGatewayCheckpoint
unfolding Map.remove
without_input checkpoint drive_event_id = record checkpoint {
  pending_drive_inputs = Map.remove drive_event_id checkpoint.pending_drive_inputs;
}

-- The frontier and the content of an accepted input.
unfoldable pub with_accepted : DriveGatewayCheckpoint → PendingDriveInput → DriveGatewayCheckpoint
unfolding Map.insert
with_accepted checkpoint pending = record checkpoint {
  file_observed_frontiers =
      Map.insert pending.drive_file_id pending.proposed_frontier checkpoint.file_observed_frontiers;
  accepted_file_content_sha256 =
      Map.insert pending.drive_file_id pending.content_sha256
        checkpoint.accepted_file_content_sha256;
}

-- From the removal of the pending input on.
unfoldable pub accept_pending : DriveGatewayCheckpoint → String → PendingDriveInput → Step
unfolding without_input with_accepted validated Map.insert Map.lookup
accept_pending checkpoint drive_event_id pending =
    let removed = without_input checkpoint drive_event_id in
    if has_frontier removed.file_observed_frontiers pending.drive_file_id pending.previous_frontier
    then validated (with_accepted removed pending)
    else (
      err stale_input,
      record removed {
        pending_drive_inputs =
            Map.insert pending.drive_event_id pending removed.pending_drive_inputs;
      },
    )

unfoldable pub accept_drive_input : DriveGatewayCheckpoint → (drive_event_id : String) → Step
unfolding validate accept_pending Map.lookup
accept_drive_input checkpoint drive_event_id = elim (validate checkpoint) [
  | err e ↦ (err e, checkpoint)
  | ok u ↦ elim (Map.lookup drive_event_id checkpoint.pending_drive_inputs) [
    | none ↦ (ok tt, checkpoint)
    | some pending ↦ accept_pending checkpoint drive_event_id pending
  ]
]

unfoldable pub reject_drive_input : DriveGatewayCheckpoint → (drive_event_id : String) → Step
unfolding validate without_input validated
reject_drive_input checkpoint drive_event_id = elim (validate checkpoint) [
  | err e ↦ (err e, checkpoint)
  | ok u ↦ validated (without_input checkpoint drive_event_id)
]
