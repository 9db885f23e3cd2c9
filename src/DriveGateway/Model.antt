-- ===== src/DriveGateway/Model.antt =====
-- The types of inkbridge-drive-gateway/src/model.rs. An error's text is a constructor of `Refusal`
-- without the values that it prints.
use inkbridge.Prelude.{
  ℕ, Bool, true, false, not, ◌&&◌, ◌||◌, Option, none, some, String, List, ltb, eqb, ◌==◌,
  string_key, list_key, pair_key,
}
use inkbridge.Prelude.Fallible.{Result, ok, ◌>>◌, refuse_if}
use inkbridge.Prelude.Set
use inkbridge.Prelude.Text.{byte_length, all_chars, is_ascii_alphanumeric}
use inkbridge.Broker.Model.{
  DeviceSide, boox, supernote, DevicePayloadKind, RevisionPair, side_key, revisions_key,
}

pub data Refusal : Type 0 where
  config_schema config_folder same_folders : Refusal
  checkpoint_schema binding_key binding_identity file_on_both_sides file_in_two_documents : Refusal
  output_key output_pending_and_delivered output_structure : Refusal
  delivery_key delivery_version delivery_document delivery_side : Refusal
  accepted_unbound accepted_hash frontier_missing frontier_unbound : Refusal
  input_key input_unprocessed input_file_twice input_unbound input_binding : Refusal
  input_frontier input_proposal input_hash input_evidence : Refusal
  size_mismatch ambiguous_binding lost_frontier revision_overflow : Refusal
  zero_generation unbound_file changed_binding wrong_revision stale_input : Refusal
  different_input second_input finalized_input : Refusal
  bound_to_other bound_to_other_side different_original registration_lost : Refusal
  bound_elsewhere base_ahead unknown_document : Refusal
  unbound_output incomplete_marker unsupported_extension different_output : Refusal
  no_file_id wrong_folder not_reserved other_reservation existing_mismatch : Refusal
  several_files incomplete_identity other_file_id committed_otherwise : Refusal

abbrev pub Outcome : Type 0 → Type 0
Outcome A = Result Refusal A

abbrev pub drive_gateway_schema_version : ℕ
drive_gateway_schema_version = 1

abbrev pub drive_gateway_producer : String
drive_gateway_producer = "inkbridge-drive-gateway"

pub record DriveGatewayConfig : Type 0 where
  pub schema_version : ℕ
  pub boox_folder_id : String
  pub supernote_folder_id : String

unfoldable pub validate_drive_id : String → Outcome (Unit {0})
unfolding byte_length all_chars
validate_drive_id value =
    refuse_if
      (ltb (byte_length value) 10
        || (ltb 200 (byte_length value)
            || not (all_chars (λ c. is_ascii_alphanumeric c || (eqb c b'-' || eqb c b'_')) value)))
      config_folder

-- `DriveGatewayConfig::validate`
unfoldable pub validate_config : DriveGatewayConfig → Outcome (Unit {0})
unfolding validate_drive_id
validate_config config = do
  refuse_if (not (eqb config.schema_version drive_gateway_schema_version)) config_schema
  validate_drive_id config.boox_folder_id
  validate_drive_id config.supernote_folder_id
  refuse_if (config.boox_folder_id == config.supernote_folder_id) same_folders
  ok tt

-- `DriveGatewayConfig::folder_id`
unfoldable pub folder_id : DriveGatewayConfig → DeviceSide → String
folder_id config boox = config.boox_folder_id
folder_id config supernote = config.supernote_folder_id

abbrev pub Properties : Type 0
Properties = List (String × String)

-- `DriveChange` holds nothing else.
pub record DriveFileRevision : Type 0 where
  pub file_id : String
  pub name : String
  pub version : ℕ
  pub mime_type : String
  pub parents : List String
  pub size : ℕ
  pub trashed : Bool
  pub app_properties : Properties

pub record DocumentBinding : Type 0 where
  pub document_id : String
  pub original_pdf_sha256 : String
  pub boox_file_ids : List String
  pub supernote_file_ids : List String

-- `DocumentBinding::side_for_file`
unfoldable pub side_for_file : DocumentBinding → String → Option DeviceSide
unfolding Set.contains
side_for_file binding file_id = elim (Set.contains file_id binding.boox_file_ids) [
  | true ↦ elim (Set.contains file_id binding.supernote_file_ids) [
    | true ↦ none
    | false ↦ some boox
  ]
  | false ↦ elim (Set.contains file_id binding.supernote_file_ids) [
    | true ↦ some supernote
    | false ↦ none
  ]
]

pub record PendingDriveInput : Type 0 where
  pub drive_event_id : String
  pub drive_file_id : String
  pub gcs_object_path : String
  pub gcs_generation : ℕ
  pub document_id : String
  pub source : DeviceSide
  pub content_sha256 : String
  pub previous_frontier : RevisionPair
  pub proposed_frontier : RevisionPair

pub record PreparedDriveOutput : Type 0 where
  pub delivery_id : String
  pub drive_file_id : String
  pub gcs_object_path : String
  pub gcs_generation : ℕ
  pub document_id : String
  pub target : DeviceSide
  pub content_sha256 : String
  pub source_revisions : RevisionPair
  pub parent_folder_id : String
  pub file_name : String
  pub app_properties : Properties

pub record DeliveredDriveOutput : Type 0 where
  pub delivery_id : String
  pub drive_file_id : String
  pub drive_file_version : ℕ
  pub document_id : String
  pub target : DeviceSide
  pub content_sha256 : String
  pub source_revisions : RevisionPair

-- The derived equalities.
abbrev pub input_eq : PendingDriveInput → PendingDriveInput → Bool
input_eq a b =
    a.drive_event_id == b.drive_event_id
    && (a.drive_file_id == b.drive_file_id
        && (a.gcs_object_path == b.gcs_object_path
            && (eqb a.gcs_generation b.gcs_generation
                && (a.document_id == b.document_id
                    && (a.source == b.source
                        && (a.content_sha256 == b.content_sha256
                            && (a.previous_frontier == b.previous_frontier
                                && a.proposed_frontier == b.proposed_frontier)))))))

abbrev pub output_eq : PreparedDriveOutput → PreparedDriveOutput → Bool
output_eq a b =
    a.delivery_id == b.delivery_id
    && (a.drive_file_id == b.drive_file_id
        && (a.gcs_object_path == b.gcs_object_path
            && (eqb a.gcs_generation b.gcs_generation
                && (a.document_id == b.document_id
                    && (a.target == b.target
                        && (a.content_sha256 == b.content_sha256
                            && (a.source_revisions == b.source_revisions
                                && (a.parent_folder_id == b.parent_folder_id
                                    && (a.file_name == b.file_name
                                        && a.app_properties == b.app_properties)))))))))

abbrev pub delivered_eq : DeliveredDriveOutput → DeliveredDriveOutput → Bool
delivered_eq a b =
    a.delivery_id == b.delivery_id
    && (a.drive_file_id == b.drive_file_id
        && (eqb a.drive_file_version b.drive_file_version
            && (a.document_id == b.document_id
                && (a.target == b.target
                    && (a.content_sha256 == b.content_sha256
                        && a.source_revisions == b.source_revisions)))))

pub record DriveGatewayCheckpoint : Type 0 where
  pub schema_version : ℕ
  pub next_page_token : Option String
  pub documents : List (String × DocumentBinding)
  pub processed_drive_events : List String
  pub accepted_file_content_sha256 : List (String × String)
  pub file_observed_frontiers : List (String × RevisionPair)
  pub pending_drive_inputs : List (String × PendingDriveInput)
  pub pending_drive_outputs : List (String × PreparedDriveOutput)
  pub delivered_broker_outputs : List (String × DeliveredDriveOutput)

pub record PreparedDriveInput : Type 0 where
  pub drive_event_id : String
  pub drive_file_id : String
  pub gcs_object_path : String
  pub content_sha256 : String
  pub metadata : Properties
  pub document_id : String
  pub source : DeviceSide
  pub source_revision : ℕ
  pub based_on : RevisionPair
  pub canonical_frontier : RevisionPair
  pub payload_kind : DevicePayloadKind

-- A reason for which a change is ignored.
pub data IgnoreReason : Type 0 where
  trashed generated outside_folder unsupported_mime not_a_pdf not_one_folder not_approved unknown
        ahead_of_broker :
      IgnoreReason

pub data DriveInputDecision : Type 0 where
  ignore : IgnoreReason → DriveInputDecision
  duplicate : (drive_event_id : String) → DriveInputDecision
  deferred : (file_id pending_drive_event_id : String) → DriveInputDecision
  unbound : (file_id : String) → DriveInputDecision
  upload : PreparedDriveInput → DriveInputDecision

pub record OriginalRegistrationApproval : Type 0 where
  pub drive_file_id : String
  pub drive_file_version : ℕ
  pub content_sha256 : String

pub record PreparedOriginalRegistration : Type 0 where
  pub drive_event_id : String
  pub drive_file_id : String
  pub source : DeviceSide
  pub document_id : String
  pub original_pdf_sha256 : String
  pub gcs_object_path : String
  pub metadata : Properties

pub record DeviceArtifactBindingApproval : Type 0 where
  pub drive_file_id : String
  pub drive_file_version : ℕ
  pub content_sha256 : String
  pub document_id : String
  pub source : DeviceSide
  pub based_on : RevisionPair

pub record PreparedDeviceArtifactBinding : Type 0 where
  pub drive_file_id : String
  pub drive_file_version : ℕ
  pub content_sha256 : String
  pub document_id : String
  pub source : DeviceSide
  pub based_on : RevisionPair
  pub canonical_frontier : RevisionPair

pub data DeviceArtifactBindingDecision : Type 0 where
  ignore_artifact : IgnoreReason → DeviceArtifactBindingDecision
  already_bound : (file_id : String) → DeviceArtifactBindingDecision
  bind : PreparedDeviceArtifactBinding → DeviceArtifactBindingDecision

pub data RegistrationDecision : Type 0 where
  ignore_original : IgnoreReason → RegistrationDecision
  duplicate_original : (drive_event_id : String) → RegistrationDecision
  register : PreparedOriginalRegistration → RegistrationDecision

pub record BrokerDriveOutput : Type 0 where
  pub gcs_object_path : String
  pub gcs_generation : ℕ
  pub document_id : String
  pub target : DeviceSide
  pub event_id : String
  pub source_revisions : RevisionPair
  pub content_sha256 : String
  pub file_extension : String

pub data DriveOutputDecision : Type 0 where
  duplicate_output : (delivery_id : String) → DriveOutputDecision
  reserve : PreparedDriveOutput → DriveOutputDecision
  reconcile : PreparedDriveOutput → DriveOutputDecision
  create : PreparedDriveOutput → DriveOutputDecision
  existing :
      (output : PreparedDriveOutput) (drive_file_id : String) (drive_file_version : ℕ)
      → DriveOutputDecision
