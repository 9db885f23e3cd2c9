-- ===== src/DriveGateway/Bound.antt =====
-- A file that is bound to a document: `commit_original_registration` and
-- `commit_device_artifact_binding` of inkbridge-drive-gateway/src/planner.rs.
use inkbridge.Prelude.{
  Bool, false, not, ◌&&◌, ◌||◌, none, some, String, [], ltb, if◌then◌else◌, ◌==◌, string_key,
}
use inkbridge.Prelude.Fallible.{ok, err}
use inkbridge.Prelude.Map
use inkbridge.Prelude.Set
use inkbridge.Broker.Model.{DeviceSide, boox, supernote, no_revisions, side_key}
use inkbridge.DriveGateway.Model.{
  bound_to_other, bound_to_other_side, different_original, registration_lost, bound_elsewhere,
  base_ahead, unknown_document, DocumentBinding, side_for_file, DriveGatewayCheckpoint,
  PreparedOriginalRegistration, PreparedDeviceArtifactBinding,
}
use inkbridge.DriveGateway.Checkpoint.{binding_for_file, has_side, validate}
use inkbridge.DriveGateway.Input.{Step, validated}

-- The insertion of a file into one side of a binding.
unfoldable pub bind_file : DocumentBinding → DeviceSide → String → DocumentBinding
unfolding Set.insert
bind_file binding boox file_id = record binding {
  boox_file_ids = Set.insert file_id binding.boox_file_ids;
}
bind_file binding supernote file_id = record binding {
  supernote_file_ids = Set.insert file_id binding.supernote_file_ids;
}

abbrev pub no_files : (document_id original_pdf_sha256 : String) → DocumentBinding
no_files document_id original_pdf_sha256 = record {
  document_id = document_id;
  original_pdf_sha256 = original_pdf_sha256;
  boox_file_ids = [];
  supernote_file_ids = [];
}

-- The entry of the document, with the file in it.
unfoldable pub registered_binding :
    DriveGatewayCheckpoint → PreparedOriginalRegistration → DocumentBinding
unfolding bind_file Map.lookup
registered_binding checkpoint r =
    bind_file
      (elim (Map.lookup r.document_id checkpoint.documents) [
        | none ↦ no_files r.document_id r.original_pdf_sha256
        | some found ↦ found
      ])
      r.source r.drive_file_id

unfoldable pub with_registration :
    DriveGatewayCheckpoint → PreparedOriginalRegistration → DriveGatewayCheckpoint
unfolding registered_binding Map.insert Set.insert
with_registration checkpoint r = record checkpoint {
  processed_drive_events = Set.insert r.drive_event_id checkpoint.processed_drive_events;
  accepted_file_content_sha256 =
      Map.insert r.drive_file_id r.original_pdf_sha256 checkpoint.accepted_file_content_sha256;
  file_observed_frontiers =
      Map.insert r.drive_file_id no_revisions checkpoint.file_observed_frontiers;
  documents = Map.insert r.document_id (registered_binding checkpoint r) checkpoint.documents;
}

-- The document has another original.
unfoldable pub has_other_original : DriveGatewayCheckpoint → PreparedOriginalRegistration → Bool
unfolding Map.lookup
has_other_original checkpoint r = elim (Map.lookup r.document_id checkpoint.documents) [
  | none ↦ false
  | some found ↦ not (found.original_pdf_sha256 == r.original_pdf_sha256)
]

-- A file that is not bound. The second look for its binding in the code finds none.
unfoldable pub register_unbound : DriveGatewayCheckpoint → PreparedOriginalRegistration → Step
unfolding has_other_original with_registration validated Set.contains
register_unbound checkpoint r =
    if has_other_original checkpoint r
    then (err different_original, checkpoint)
    else if Set.contains r.drive_event_id checkpoint.processed_drive_events
    then (err registration_lost, checkpoint)
    else validated (with_registration checkpoint r)

unfoldable pub commit_original_registration :
    DriveGatewayCheckpoint → PreparedOriginalRegistration → Step
unfolding validate binding_for_file side_for_file register_unbound
commit_original_registration checkpoint r = elim (validate checkpoint) [
  | err e ↦ (err e, checkpoint)
  | ok u ↦ elim (binding_for_file checkpoint r.drive_file_id) [
    | some found ↦
        if not (found.document_id == r.document_id)
        then (err bound_to_other, checkpoint)
        else if not (has_side found r.drive_file_id r.source)
        then (err bound_to_other_side, checkpoint)
        else (ok tt, checkpoint)
    | none ↦ register_unbound checkpoint r
  ]
]

unfoldable pub with_artifact :
    DriveGatewayCheckpoint
    → PreparedDeviceArtifactBinding
    → DocumentBinding
    → DriveGatewayCheckpoint
unfolding bind_file Map.insert
with_artifact checkpoint artifact binding = record checkpoint {
  documents =
      Map.insert artifact.document_id (bind_file binding artifact.source artifact.drive_file_id)
        checkpoint.documents;
  file_observed_frontiers =
      Map.insert artifact.drive_file_id artifact.based_on checkpoint.file_observed_frontiers;
}

-- From the check of the causal base on.
unfoldable pub bind_artifact : DriveGatewayCheckpoint → PreparedDeviceArtifactBinding → Step
unfolding binding_for_file side_for_file with_artifact validated Map.lookup
bind_artifact checkpoint artifact = elim (binding_for_file checkpoint artifact.drive_file_id) [
  | some found ↦
      if found.document_id == artifact.document_id
        && has_side found artifact.drive_file_id artifact.source
      then (ok tt, checkpoint)
      else (err bound_elsewhere, checkpoint)
  | none ↦ elim (Map.lookup artifact.document_id checkpoint.documents) [
    | none ↦ (err unknown_document, checkpoint)
    | some binding ↦ validated (with_artifact checkpoint artifact binding)
  ]
]

unfoldable pub commit_device_artifact_binding :
    DriveGatewayCheckpoint → PreparedDeviceArtifactBinding → Step
unfolding validate bind_artifact
commit_device_artifact_binding checkpoint artifact =
    let bound = bind_artifact checkpoint artifact in
    elim (validate checkpoint) [
      | err e ↦ (err e, checkpoint)
      | ok u ↦
          if ltb artifact.canonical_frontier.boox_revision artifact.based_on.boox_revision
            || ltb artifact.canonical_frontier.supernote_revision
                artifact.based_on.supernote_revision
          then (err base_ahead, checkpoint)
          else bound
    ]
