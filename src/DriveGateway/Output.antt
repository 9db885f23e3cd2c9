-- ===== src/DriveGateway/Output.antt =====
-- The broker's outputs on their way to a device's folder: `prepare_drive_output`,
-- `reserve_drive_output`, `reconcile_drive_output`, `commit_drive_output` and `commit_page_token` of
-- inkbridge-drive-gateway/src/planner.rs.
use inkbridge.Prelude.{
  ℕ, Bool, false, not, ◌||◌, none, some, String, List, [], ◌∷◌, any, eqb, is_some, if◌then◌else◌,
  ◌==◌, string_key,
}
use inkbridge.Prelude.Fallible.{ok, err, ◌>>=◌, ◌>>◌, ok_or, refuse_if}
use inkbridge.Prelude.Map
use inkbridge.Prelude.Set
use inkbridge.Prelude.Text.{is_blank, byte_length}
use inkbridge.Broker.Model.{Bytes, side_key}
use inkbridge.DriveGateway.Model.{
  Outcome, unbound_output, incomplete_marker, different_output, no_file_id, wrong_folder,
  not_reserved, other_reservation, existing_mismatch, several_files, incomplete_identity,
  other_file_id, committed_otherwise, bound_elsewhere, DriveGatewayConfig, validate_config,
  folder_id, DriveFileRevision, DocumentBinding, side_for_file, DriveGatewayCheckpoint,
  BrokerDriveOutput, PreparedDriveOutput, output_eq, DeliveredDriveOutput, delivered_eq,
  DriveOutputDecision, duplicate_output, reserve, reconcile, create, existing,
}
use inkbridge.DriveGateway.Checkpoint.{binding_for_file, has_value, has_side, validate}
use inkbridge.DriveGateway.Events.{
  drive_event_id_from_parts, safe_extension, delivery_id_of, output_file_name, output_properties,
}
use inkbridge.DriveGateway.Input.{Step, validated}
use inkbridge.DriveGateway.Bound.{bind_file}

module _ (sha256_hex : Bytes → String) where
  unfoldable pub prepared_of :
      DriveGatewayConfig → BrokerDriveOutput → (extension : String) → PreparedDriveOutput
  unfolding folder_id delivery_id_of output_file_name output_properties
  prepared_of config output extension =
      let delivery_id = delivery_id_of sha256_hex output in
      record {
        delivery_id = delivery_id;
        drive_file_id = "";
        gcs_object_path = output.gcs_object_path;
        gcs_generation = output.gcs_generation;
        document_id = output.document_id;
        target = output.target;
        content_sha256 = output.content_sha256;
        source_revisions = output.source_revisions;
        parent_folder_id = folder_id config output.target;
        file_name = output_file_name sha256_hex output extension;
        app_properties = output_properties sha256_hex output delivery_id;
      }

  -- From the check of the extension on: the output has not been delivered.
  unfoldable pub prepare_undelivered :
      DriveGatewayConfig → DriveGatewayCheckpoint → BrokerDriveOutput → Outcome DriveOutputDecision
  unfolding safe_extension prepared_of Map.lookup
  prepare_undelivered config checkpoint output = do
    extension ← safe_extension output.file_extension
    let prepared = prepared_of config output extension
    elim (Map.lookup prepared.delivery_id checkpoint.pending_drive_outputs) [
      | none ↦ ok (reserve prepared)
      | some pending ↦
          if output_eq pending (record prepared { drive_file_id = pending.drive_file_id })
          then ok (reconcile pending)
          else err different_output
    ]

  unfoldable pub prepare_drive_output :
      DriveGatewayConfig → DriveGatewayCheckpoint → BrokerDriveOutput → Outcome DriveOutputDecision
  unfolding validate_config validate delivery_id_of prepare_undelivered is_blank byte_length
      Map.lookup
  prepare_drive_output config checkpoint output = do
    validate_config config
    validate checkpoint
    refuse_if (not (is_some (Map.lookup output.document_id checkpoint.documents))) unbound_output
    refuse_if
        (eqb output.gcs_generation 0
          || (not (eqb (byte_length output.content_sha256) 64) || is_blank output.event_id))
        incomplete_marker
    let delivery_id = delivery_id_of sha256_hex output
    let planned = prepare_undelivered config checkpoint output
    if is_some (Map.lookup delivery_id checkpoint.delivered_broker_outputs)
        then ok (duplicate_output delivery_id)
        else planned

unfoldable pub with_reservation :
    DriveGatewayCheckpoint → PreparedDriveOutput → DriveGatewayCheckpoint
unfolding Map.insert
with_reservation checkpoint output = record checkpoint {
  pending_drive_outputs = Map.insert output.delivery_id output checkpoint.pending_drive_outputs;
}

-- From the check of the file's id on.
unfoldable pub reserve_output : DriveGatewayCheckpoint → PreparedDriveOutput → Step
unfolding is_blank with_reservation validated Map.lookup
reserve_output checkpoint output =
    let reserved : Step = elim (Map.lookup output.delivery_id checkpoint.pending_drive_outputs) [
      | none ↦ validated (with_reservation checkpoint output)
      | some found ↦
          if output_eq found output
          then validated checkpoint
          else (err different_output, checkpoint)
    ] in
    if is_blank output.drive_file_id
    then (err no_file_id, checkpoint)
    else if is_some (Map.lookup output.delivery_id checkpoint.delivered_broker_outputs)
    then (ok tt, checkpoint)
    else reserved

unfoldable pub reserve_drive_output : DriveGatewayCheckpoint → PreparedDriveOutput → Step
unfolding validate reserve_output
reserve_drive_output checkpoint output = elim (validate checkpoint) [
  | err e ↦ (err e, checkpoint)
  | ok u ↦ reserve_output checkpoint output
]

-- A property of the output that the file has not.
unfoldable pub lacks_property : DriveFileRevision → PreparedDriveOutput → Bool
unfolding Map.lookup
lacks_property file output =
    any (λ p. not (has_value file.app_properties p.0 p.1)) output.app_properties

unfoldable pub reconcile_drive_output :
    DriveGatewayConfig
    → DriveGatewayCheckpoint
    → PreparedDriveOutput
    → (matching_files : List DriveFileRevision) → Outcome DriveOutputDecision
unfolding validate_config validate folder_id lacks_property Map.lookup
reconcile_drive_output config checkpoint output matching_files = do
  validate_config config
  validate checkpoint
  refuse_if (not (output.parent_folder_id == folder_id config output.target)) wrong_folder
  pending ← ok_or (Map.lookup output.delivery_id checkpoint.pending_drive_outputs) not_reserved
  refuse_if (not (output_eq pending output)) other_reservation
  elim matching_files [
    | [] ↦ ok (create output)
    | file ∷ [] ↦
        if not (file.file_id == output.drive_file_id)
          || (file.trashed
              || (eqb file.version 0
                  || (not (any (λ parent. parent == output.parent_folder_id) file.parents)
                      || lacks_property file output)))
        then err existing_mismatch
        else ok (existing output file.file_id file.version)
    | file ∷ another ∷ files ↦ err several_files
  ]

abbrev pub delivered_of : PreparedDriveOutput → String → ℕ → DeliveredDriveOutput
delivered_of output drive_file_id drive_file_version = record {
  delivery_id = output.delivery_id;
  drive_file_id = drive_file_id;
  drive_file_version = drive_file_version;
  document_id = output.document_id;
  target = output.target;
  content_sha256 = output.content_sha256;
  source_revisions = output.source_revisions;
}

-- The file is bound to another document, or to the other side.
unfoldable pub is_bound_elsewhere : DriveGatewayCheckpoint → PreparedDriveOutput → String → Bool
unfolding binding_for_file side_for_file
is_bound_elsewhere checkpoint output drive_file_id =
    elim (binding_for_file checkpoint drive_file_id) [
      | none ↦ false
      | some found ↦
          not (found.document_id == output.document_id)
          || not (has_side found drive_file_id output.target)
    ]

module _ (sha256_hex : Bytes → String) where
  unfoldable pub with_delivery :
      DriveGatewayCheckpoint
      → PreparedDriveOutput
      → DocumentBinding
      → (drive_file_id : String) (drive_file_version : ℕ) → DriveGatewayCheckpoint
  unfolding bind_file drive_event_id_from_parts Map.insert Map.remove Set.insert
  with_delivery checkpoint output binding drive_file_id drive_file_version = record checkpoint {
    documents =
        Map.insert output.document_id (bind_file binding output.target drive_file_id)
          checkpoint.documents;
    processed_drive_events =
        Set.insert
          (drive_event_id_from_parts sha256_hex drive_file_id drive_file_version
            output.content_sha256)
          checkpoint.processed_drive_events;
    accepted_file_content_sha256 =
        Map.insert drive_file_id output.content_sha256 checkpoint.accepted_file_content_sha256;
    file_observed_frontiers =
        Map.insert drive_file_id output.source_revisions checkpoint.file_observed_frontiers;
    delivered_broker_outputs =
        Map.insert output.delivery_id (delivered_of output drive_file_id drive_file_version)
          checkpoint.delivered_broker_outputs;
    pending_drive_outputs = Map.remove output.delivery_id checkpoint.pending_drive_outputs;
  }

  -- An output that has not been delivered.
  unfoldable pub deliver :
      DriveGatewayCheckpoint
      → PreparedDriveOutput
      → (drive_file_id : String) (drive_file_version : ℕ) → Step
  unfolding is_bound_elsewhere with_delivery validated Map.lookup
  deliver checkpoint output drive_file_id drive_file_version =
      let bound : Step = elim (Map.lookup output.document_id checkpoint.documents) [
        | none ↦ (err unbound_output, checkpoint)
        | some binding ↦
            validated (with_delivery checkpoint output binding drive_file_id drive_file_version)
      ] in
      elim (Map.lookup output.delivery_id checkpoint.pending_drive_outputs) [
        | none ↦ (err not_reserved, checkpoint)
        | some pending ↦
            if not (output_eq pending output)
            then (err not_reserved, checkpoint)
            else if is_bound_elsewhere checkpoint output drive_file_id
            then (err bound_elsewhere, checkpoint)
            else bound
      ]

  -- From the checks of the identity on.
  unfoldable pub commit_output :
      DriveGatewayCheckpoint
      → PreparedDriveOutput
      → (drive_file_id : String) (drive_file_version : ℕ) → Step
  unfolding is_blank deliver Map.lookup
  commit_output checkpoint output drive_file_id drive_file_version =
      let known : Step = elim (Map.lookup output.delivery_id checkpoint.delivered_broker_outputs) [
        | some found ↦
            if delivered_eq found (delivered_of output drive_file_id drive_file_version)
            then (ok tt, checkpoint)
            else (err committed_otherwise, checkpoint)
        | none ↦ deliver checkpoint output drive_file_id drive_file_version
      ] in
      if is_blank drive_file_id || eqb drive_file_version 0
      then (err incomplete_identity, checkpoint)
      else if not (drive_file_id == output.drive_file_id)
      then (err other_file_id, checkpoint)
      else known

  unfoldable pub commit_drive_output :
      DriveGatewayCheckpoint
      → PreparedDriveOutput
      → (drive_file_id : String) (drive_file_version : ℕ) → Step
  unfolding validate commit_output
  commit_drive_output checkpoint output drive_file_id drive_file_version =
      elim (validate checkpoint) [
        | err e ↦ (err e, checkpoint)
        | ok u ↦ commit_output checkpoint output drive_file_id drive_file_version
      ]

unfoldable pub commit_page_token :
    DriveGatewayCheckpoint → (token : String) → DriveGatewayCheckpoint
commit_page_token checkpoint token = record checkpoint { next_page_token = some token }
