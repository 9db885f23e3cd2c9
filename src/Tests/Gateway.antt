-- ===== src/Tests/Gateway.antt =====
-- A checkpoint of the Drive gateway with one document: its BOOX file has a change that the broker has not
-- answered yet, and an output for the Supernote is reserved.
use inkbridge.Prelude.{
  ◌≡◌, ◌≢◌, refl, true, false, none, some, String, [], ◌∷◌, if◌then◌else◌, eqb, is_some, string_key,
}
use inkbridge.Prelude.Fallible.{ok, err}
use inkbridge.Prelude.Map
use inkbridge.Broker.Model.{Bytes, RevisionPair, boox, supernote, device_view}
use inkbridge.DriveGateway.Model.{
  committed_otherwise, DriveGatewayConfig, DriveFileRevision, DocumentBinding,
  DriveGatewayCheckpoint, PendingDriveInput, PreparedDriveInput, PreparedDriveOutput,
  BrokerDriveOutput, duplicate_output, upload, validate_config,
}
use inkbridge.DriveGateway.Checkpoint.{validate}
use inkbridge.DriveGateway.Events.{delivery_id_of}
use inkbridge.DriveGateway.Input.{prepare_drive_input, accept_drive_input, reject_drive_input}
use inkbridge.DriveGateway.Output.{prepared_of, prepare_drive_output, commit_drive_output}
use inkbridge.DriveGateway.Once.{is_complete, commit_drive_output_once}
use inkbridge.DriveGateway.Echo.{commit_drive_output-no_echo}
use inkbridge.DriveGateway.Uploaded.{prepared_input}
use inkbridge.DriveGateway.Committed.{prepare_drive_input-commits}
use inkbridge.DriveGateway.Checkpoint.{is_sha256_hex}
use inkbridge.DriveGateway.Events.{drive_event_id_from_parts}
use inkbridge.DriveGateway.Input.{commit_drive_input, pending_of}
use inkbridge.DriveGateway.Accepted.{Accepted, accept_drive_input-Accepted, reject_drive_input-ok}

abbrev hash : String
hash = "0123456789abcdef0123456789abcdef0123456789abcdef0123456789abcdef"

abbrev digest : Bytes → String
digest bytes = hash

abbrev document : String
document = "inkbridge-doc-v1-0123456789abcdef0123456789abcdef0123456789abcdef0123456789abcdef"

abbrev config : DriveGatewayConfig
config = record {
  schema_version = 1;
  boox_folder_id = "boox-folder";
  supernote_folder_id = "supernote-folder";
}

abbrev frontier : RevisionPair
frontier = record { boox_revision = 1; supernote_revision = 0 }

abbrev change : PendingDriveInput
change = record {
  drive_event_id = "e1";
  drive_file_id = "boox-file";
  gcs_object_path =
      "BOOX_Folder/inkbridge-doc-v1-0123456789abcdef0123456789abcdef0123456789abcdef0123456789abcdef/drive/e1.pdf";
  gcs_generation = 7;
  document_id = document;
  source = boox;
  content_sha256 = hash;
  previous_frontier = frontier;
  proposed_frontier = record { boox_revision = 2; supernote_revision = 0 };
}

abbrev made : BrokerDriveOutput
made = record {
  gcs_object_path =
      "Supernote_Folder/inkbridge-doc-v1-0123456789abcdef0123456789abcdef0123456789abcdef0123456789abcdef/view.json";
  gcs_generation = 8;
  document_id = document;
  target = supernote;
  event_id = "e0";
  source_revisions = frontier;
  content_sha256 = hash;
  file_extension = "json";
}

abbrev output : PreparedDriveOutput
output = record (prepared_of digest config made "json") { drive_file_id = "supernote-file" }

abbrev binding : DocumentBinding
binding = record {
  document_id = document;
  original_pdf_sha256 = hash;
  boox_file_ids = "boox-file" ∷ [];
  supernote_file_ids = [];
}

abbrev checkpoint : DriveGatewayCheckpoint
checkpoint = record {
  schema_version = 1;
  next_page_token = none;
  documents = (document, binding) ∷ [];
  processed_drive_events = "e1" ∷ [];
  accepted_file_content_sha256 = [];
  file_observed_frontiers = ("boox-file", frontier) ∷ [];
  pending_drive_inputs = ("e1", change) ∷ [];
  pending_drive_outputs = (output.delivery_id, output) ∷ [];
  delivered_broker_outputs = [];
}

abbrev delivered : DriveGatewayCheckpoint
delivered = (commit_drive_output digest checkpoint output "supernote-file" 3).1

abbrev file : DriveFileRevision
file = record {
  file_id = "supernote-file";
  name = "view.json";
  version = 3;
  mime_type = "application/json";
  parents = "supernote-folder" ∷ [];
  size = 0;
  trashed = false;
  app_properties = [];
}

abbrev anything : PreparedDriveInput
anything = record {
  drive_event_id = "";
  drive_file_id = "";
  gcs_object_path = "";
  content_sha256 = "";
  metadata = [];
  document_id = "";
  source = boox;
  source_revision = 0;
  based_on = frontier;
  canonical_frontier = frontier;
  payload_kind = device_view;
}

checkpoint_valid : validate checkpoint ≡ ok tt
unfolding validate prepared_of
checkpoint_valid = refl

commits : commit_drive_output digest checkpoint output "supernote-file" 3 ≡ (ok tt, delivered)
unfolding commit_drive_output prepared_of
commits = refl

configured : validate_config config ≡ ok tt
unfolding validate_config
configured = refl

named : output.delivery_id ≡ delivery_id_of digest made
unfolding prepared_of
named = refl

delivered_bound : is_some (Map.lookup document delivered.documents) ≡ true
unfolding commit_drive_output prepared_of
delivered_bound = refl

made_complete : is_complete made ≡ true
unfolding is_complete
made_complete = refl

commit_drive_output_once_example :
    (commit_drive_output digest delivered output "supernote-file" 4
      ≡ ((if eqb 3 4 then ok tt else err committed_otherwise), delivered))
    × (prepare_drive_output digest config delivered made
        ≡ ok (duplicate_output (delivery_id_of digest made)))
commit_drive_output_once_example =
    commit_drive_output_once digest config checkpoint delivered made output "supernote-file" 3 4
      named commits refl configured delivered_bound made_complete

not_delivered : Map.lookup output.delivery_id checkpoint.delivered_broker_outputs ≡ none
unfolding Map.lookup
not_delivered = refl

same_content : digest [] ≡ output.content_sha256
unfolding prepared_of
same_content = refl

commit_drive_output-no_echo_example :
    prepare_drive_input digest config delivered file [] frontier ≢ ok (upload anything)
commit_drive_output-no_echo_example =
    commit_drive_output-no_echo digest config checkpoint delivered output 3 file [] frontier
      anything not_delivered commits same_content

found_change : Map.lookup "e1" checkpoint.pending_drive_inputs ≡ some change
unfolding Map.lookup
found_change = refl

accept_drive_input-Accepted_example :
    (after : DriveGatewayCheckpoint) × (accept_drive_input checkpoint "e1" ≡ (ok tt, after))
    × Accepted checkpoint after "e1" change "boox-file" "e1"
accept_drive_input-Accepted_example =
    accept_drive_input-Accepted checkpoint "e1" change "boox-file" "e1" checkpoint_valid
      found_change

reject_drive_input-ok_example :
    (after : DriveGatewayCheckpoint) × (reject_drive_input checkpoint "e1" ≡ (ok tt, after))
    × (validate after ≡ ok tt)
    × (Map.lookup "e1" after.pending_drive_inputs ≡ none)
reject_drive_input-ok_example = reject_drive_input-ok checkpoint "e1" "e1" checkpoint_valid

abbrev quiet : DriveGatewayCheckpoint
quiet = record checkpoint { processed_drive_events = []; pending_drive_inputs = [] }

abbrev boox_change : DriveFileRevision
boox_change = record file {
  file_id = "boox-file";
  mime_type = "application/pdf";
  parents = "boox-folder" ∷ [];
}

abbrev boox_input : PreparedDriveInput
boox_input =
    prepared_input digest boox_change binding boox device_view hash
      (drive_event_id_from_parts digest "boox-file" 3 hash) frontier frontier 2

plans : prepare_drive_input digest config quiet boox_change [] frontier ≡ ok (upload boox_input)
unfolding prepare_drive_input prepared_of
plans = refl

digest-hex : (bytes : Bytes) → is_sha256_hex (digest bytes) ≡ true
unfolding is_sha256_hex
digest-hex bytes = refl

prepare_drive_input-commits_example :
    (after : DriveGatewayCheckpoint) × (commit_drive_input quiet boox_input 9 ≡ (ok tt, after))
    × (validate after ≡ ok tt)
    × (Map.lookup boox_input.drive_event_id after.pending_drive_inputs
        ≡ some (pending_of boox_input 9))
prepare_drive_input-commits_example =
    prepare_drive_input-commits digest digest-hex config quiet boox_change [] frontier boox_input 9
      plans refl
