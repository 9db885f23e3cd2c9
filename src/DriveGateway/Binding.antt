-- ===== src/DriveGateway/Binding.antt =====
-- What binds a file to a document: the plans `prepare_original_registration` and
-- `prepare_device_artifact_binding` of inkbridge-drive-gateway/src/planner.rs.
use inkbridge.Prelude.{
  true, false, not, ◌&&◌, ◌||◌, Option, none, some, String, [], ◌∷◌, any, length, ltb, eqb, is_some,
  if◌then◌else◌, ◌==◌, string_key,
}
use inkbridge.Prelude.Fallible.{ok, err, ◌>>◌, refuse_if}
use inkbridge.Prelude.Map
use inkbridge.Prelude.Set
use inkbridge.Prelude.Text.{concat, utf8}
use inkbridge.Broker.Model.{Bytes, DeviceSide, boox, supernote, other, RevisionPair, side_key}
use inkbridge.DriveGateway.Model.{
  Outcome, size_mismatch, bound_elsewhere, trashed, generated, outside_folder, unsupported_mime,
  not_a_pdf, not_one_folder, not_approved, unknown, ahead_of_broker, DriveGatewayConfig,
  validate_config, folder_id, DriveFileRevision, side_for_file, DriveGatewayCheckpoint,
  OriginalRegistrationApproval, PreparedOriginalRegistration, RegistrationDecision, ignore_original,
  duplicate_original, register, DeviceArtifactBindingApproval, DeviceArtifactBindingDecision,
  ignore_artifact, already_bound, bind,
}
use inkbridge.DriveGateway.Checkpoint.{binding_for_file, has_side, validate}
use inkbridge.DriveGateway.Events.{
  is_generated, supported_payload_kind, drive_event_id, original_metadata,
}

-- The only device folder among the parents.
unfoldable pub one_folder : DriveGatewayConfig → DriveFileRevision → Option DeviceSide
unfolding Set.contains
one_folder config file = elim (Set.contains config.boox_folder_id file.parents) [
  | true ↦ elim (Set.contains config.supernote_folder_id file.parents) [
    | true ↦ none
    | false ↦ some boox
  ]
  | false ↦ elim (Set.contains config.supernote_folder_id file.parents) [
    | true ↦ some supernote
    | false ↦ none
  ]
]

module _ (sha256_hex : Bytes → String) where
  -- `stable_document_id` of inkbridge-broker.
  unfoldable pub document_id_of : Bytes → String
  unfolding concat
  document_id_of bytes = concat ("inkbridge-doc-v1-" ∷ sha256_hex bytes ∷ [])

  unfoldable pub original_of : DriveFileRevision → Bytes → DeviceSide → PreparedOriginalRegistration
  unfolding drive_event_id document_id_of original_metadata concat utf8
  original_of file bytes source =
      let event_id = drive_event_id sha256_hex file bytes in
      record {
        drive_event_id = event_id;
        drive_file_id = file.file_id;
        source = source;
        document_id = document_id_of bytes;
        original_pdf_sha256 = sha256_hex bytes;
        gcs_object_path = concat ("Staging/drive-" ∷ sha256_hex (utf8 event_id) ∷ ".pdf" ∷ []);
        metadata =
            original_metadata sha256_hex file (document_id_of bytes) (sha256_hex bytes) event_id;
      }

  -- From the check of the size on.
  unfoldable pub prepare_original :
      DriveGatewayConfig
      → DriveGatewayCheckpoint
      → DriveFileRevision
      → Bytes
      → OriginalRegistrationApproval
      → Outcome RegistrationDecision
  unfolding one_folder original_of drive_event_id Set.contains
  prepare_original config checkpoint file bytes approval =
      let event_id = drive_event_id sha256_hex file bytes in
      let planned = λ (source : DeviceSide).
        (if not (approval.drive_file_id == file.file_id)
            || (not (eqb approval.drive_file_version file.version)
                || not (approval.content_sha256 == sha256_hex bytes))
          then ignore_original not_approved
          else if Set.contains event_id checkpoint.processed_drive_events
          then duplicate_original event_id
          else register (original_of file bytes source)) in
      do
        refuse_if (not (eqb file.size (length bytes))) size_mismatch
        elim (one_folder config file) [
          | none ↦ ok (ignore_original not_one_folder)
          | some source ↦ ok (planned source)
        ]

  unfoldable pub prepare_original_registration :
      DriveGatewayConfig
      → DriveGatewayCheckpoint
      → DriveFileRevision
      → Bytes
      → OriginalRegistrationApproval
      → Outcome RegistrationDecision
  unfolding validate_config validate is_generated prepare_original
  prepare_original_registration config checkpoint file bytes approval = do
    validate_config config
    validate checkpoint
    let planned = prepare_original config checkpoint file bytes approval
    if file.trashed || not (file.mime_type == "application/pdf")
        then ok (ignore_original not_a_pdf)
        else if is_generated file
        then ok (ignore_original generated)
        else planned

  -- From the check of the MIME type on.
  unfoldable pub prepare_artifact :
      DriveFileRevision
      → Bytes
      → DeviceArtifactBindingApproval
      → (frontier : RevisionPair) → Outcome DeviceArtifactBindingDecision
  prepare_artifact file bytes approval frontier = do
    refuse_if (not (eqb file.size (length bytes))) size_mismatch
    if eqb file.version 0
          || (not (approval.drive_file_id == file.file_id)
              || (not (eqb approval.drive_file_version file.version)
                  || not (approval.content_sha256 == sha256_hex bytes)))
        then ok (ignore_artifact not_approved)
        else if ltb frontier.boox_revision approval.based_on.boox_revision
            || ltb frontier.supernote_revision approval.based_on.supernote_revision
        then ok (ignore_artifact ahead_of_broker)
        else ok (
            bind (record {
              drive_file_id = file.file_id;
              drive_file_version = file.version;
              content_sha256 = sha256_hex bytes;
              document_id = approval.document_id;
              source = approval.source;
              based_on = approval.based_on;
              canonical_frontier = frontier;
            }))

  -- The checks of a file that is not bound.
  unfoldable pub prepare_unbound_artifact :
      DriveGatewayConfig
      → DriveGatewayCheckpoint
      → DriveFileRevision
      → Bytes
      → DeviceArtifactBindingApproval
      → (frontier : RevisionPair) → Outcome DeviceArtifactBindingDecision
  unfolding folder_id other is_generated supported_payload_kind prepare_artifact Map.lookup
  prepare_unbound_artifact config checkpoint file bytes approval frontier =
      let mine = any (λ parent. parent == folder_id config approval.source) file.parents in
      let theirs =
        any (λ parent. parent == folder_id config (other approval.source)) file.parents in
      let planned = prepare_artifact file bytes approval frontier in
      if not (is_some (Map.lookup approval.document_id checkpoint.documents))
      then ok (ignore_artifact unknown)
      else if is_generated file
      then ok (ignore_artifact generated)
      else if not mine || theirs
      then ok (ignore_artifact outside_folder)
      else if not (is_some (supported_payload_kind approval.source file.mime_type))
      then ok (ignore_artifact unsupported_mime)
      else planned

  unfoldable pub prepare_device_artifact_binding :
      DriveGatewayConfig
      → DriveGatewayCheckpoint
      → DriveFileRevision
      → Bytes
      → DeviceArtifactBindingApproval
      → (frontier : RevisionPair) → Outcome DeviceArtifactBindingDecision
  unfolding validate_config validate binding_for_file side_for_file prepare_unbound_artifact
  prepare_device_artifact_binding config checkpoint file bytes approval frontier = do
    validate_config config
    validate checkpoint
    let planned : Outcome DeviceArtifactBindingDecision =
        elim (binding_for_file checkpoint file.file_id) [
          | some found ↦
              if found.document_id == approval.document_id
                && has_side found file.file_id approval.source
              then ok (already_bound file.file_id)
              else err bound_elsewhere
          | none ↦ prepare_unbound_artifact config checkpoint file bytes approval frontier
        ]
    if file.trashed then ok (ignore_artifact trashed) else planned
