-- ===== src/DriveGateway/Events.antt =====
-- The identifiers, paths and metadata of inkbridge-drive-gateway/src/planner.rs. The digest of sha2 is
-- a parameter.
use inkbridge.Prelude.{
  ℕ, Bool, false, ◌||◌, Option, none, some, String, [], ◌∷◌, eqb, ◌==◌, if◌then◌else◌, string_key,
}
use Prim.Native.Char.{code}
use inkbridge.Prelude.Fallible.{ok, err}
use inkbridge.Prelude.Map
use inkbridge.Prelude.Text.{concat, decimal, utf8, take_chars}
use inkbridge.Broker.Model.{
  Bytes, DeviceSide, boox, supernote, DevicePayloadKind, device_view, boox_operation_manifest,
  RevisionPair, broker_producer,
}
use inkbridge.Broker.Output.{from_pairs}
use inkbridge.DriveGateway.Model.{
  Outcome, unsupported_extension, Properties, drive_gateway_producer, DriveFileRevision,
  BrokerDriveOutput,
}

-- The file was made by InkBridge itself.
unfoldable pub is_generated : DriveFileRevision → Bool
unfolding Map.lookup
is_generated file = elim (Map.lookup "inkbridgeGeneratedBy" file.app_properties) [
  | none ↦ false
  | some producer ↦ producer == broker_producer || producer == drive_gateway_producer
]

unfoldable pub supported_payload_kind : DeviceSide → (mime_type : String) → Option DevicePayloadKind
supported_payload_kind boox mime_type =
    if mime_type == "application/pdf"
    then some device_view
    else if mime_type == "application/json"
    then some boox_operation_manifest
    else none
supported_payload_kind supernote mime_type =
    if mime_type == "application/json" then some device_view else none

abbrev pub side_folder : DeviceSide → String
side_folder boox = "BOOX_Folder"
side_folder supernote = "Supernote_Folder"

abbrev pub payload_extension : DeviceSide → DevicePayloadKind → String
payload_extension boox device_view = "pdf"
payload_extension _ _ = "json"

abbrev pub payload_name : DevicePayloadKind → String
payload_name device_view = "device_view"
payload_name boox_operation_manifest = "boox_operation_manifest"

abbrev pub side_name : DeviceSide → String
side_name boox = "boox"
side_name supernote = "supernote"

-- `trim_start_matches('.')`
strip_dots : String → String
strip_dots String.[] = ""
strip_dots (String.◌∷◌ c s) = if eqb (code c) b'.' then strip_dots s else String.◌∷◌ c s

unfoldable pub safe_extension : String → Outcome String
unfolding strip_dots
safe_extension value =
    let value = strip_dots value in
    if value == "pdf" || value == "json" then ok value else err unsupported_extension

module _ (sha256_hex : Bytes → String) where
  unfoldable pub drive_event_id_from_parts :
      (file_id : String) (version : ℕ) (content_sha256 : String) → String
  unfolding concat decimal utf8
  drive_event_id_from_parts file_id version content_sha256 =
      let seed = concat (file_id ∷ "\0" ∷ decimal version ∷ "\0" ∷ content_sha256 ∷ []) in
      concat ("drive-v1-" ∷ sha256_hex (utf8 seed) ∷ [])

  unfoldable pub drive_event_id : DriveFileRevision → Bytes → String
  unfolding drive_event_id_from_parts
  drive_event_id file bytes = drive_event_id_from_parts file.file_id file.version (sha256_hex bytes)

  unfoldable pub input_path :
      DeviceSide → DevicePayloadKind → (document_id event_id : String) → String
  unfolding concat utf8
  input_path source kind document_id event_id = concat (
      side_folder source
      ∷ "/"
      ∷ document_id
      ∷ "/drive/"
      ∷ sha256_hex (utf8 event_id)
      ∷ "."
      ∷ payload_extension source kind
      ∷ [])

  unfoldable pub delivery_id_of : BrokerDriveOutput → String
  unfolding concat decimal utf8
  delivery_id_of output =
      let seed = concat (
        output.gcs_object_path
        ∷ "\0"
        ∷ decimal output.gcs_generation
        ∷ "\0"
        ∷ output.document_id
        ∷ "\0"
        ∷ output.event_id
        ∷ "\0"
        ∷ output.content_sha256
        ∷ []) in
      concat ("drive-delivery-v1-" ∷ sha256_hex (utf8 seed) ∷ [])

  unfoldable pub output_file_name : BrokerDriveOutput → (extension : String) → String
  unfolding concat decimal utf8 take_chars
  output_file_name output extension = concat (
      "inkbridge-"
      ∷ side_name output.target
      ∷ "-r"
      ∷ decimal output.source_revisions.boox_revision
      ∷ "-r"
      ∷ decimal output.source_revisions.supernote_revision
      ∷ "-"
      ∷ take_chars 16 (sha256_hex (utf8 output.event_id))
      ∷ "."
      ∷ extension
      ∷ [])

  unfoldable pub output_properties : BrokerDriveOutput → (delivery_id : String) → Properties
  unfolding from_pairs concat decimal
  output_properties output delivery_id = from_pairs (
      ("inkbridgeGeneratedBy", broker_producer)
      ∷ ("inkbridgeEventId", output.event_id)
      ∷ ("inkbridgeDocumentId", output.document_id)
      ∷ (
        "inkbridgeSourceRevisions",
        concat (
            decimal output.source_revisions.boox_revision
            ∷ ":"
            ∷ decimal output.source_revisions.supernote_revision
            ∷ []),
      )
      ∷ ("inkbridgeContentSha256", output.content_sha256)
      ∷ ("inkbridgeGcsGeneration", decimal output.gcs_generation)
      ∷ ("inkbridgeDeliveryId", delivery_id)
      ∷ [])

  unfoldable pub input_metadata :
      DriveFileRevision
      → (document_id : String) (source_revision : ℕ) (based_on : RevisionPair)
        (kind : DevicePayloadKind) (content_sha256 event_id : String)
      → Properties
  unfolding from_pairs decimal
  input_metadata file document_id source_revision based_on kind content_sha256 event_id =
      from_pairs (
        ("inkbridge-document-id", document_id)
        ∷ ("inkbridge-source-revision", decimal source_revision)
        ∷ ("inkbridge-based-on-boox", decimal based_on.boox_revision)
        ∷ ("inkbridge-based-on-supernote", decimal based_on.supernote_revision)
        ∷ ("inkbridge-sync-ready", "true")
        ∷ ("inkbridge-payload-kind", payload_name kind)
        ∷ ("inkbridge-content-sha256", content_sha256)
        ∷ ("inkbridge-drive-file-id", file.file_id)
        ∷ ("inkbridge-drive-file-version", decimal file.version)
        ∷ ("inkbridge-drive-event-id", event_id)
        ∷ [])

  unfoldable pub original_metadata :
      DriveFileRevision → (document_id content_sha256 event_id : String) → Properties
  unfolding from_pairs decimal
  original_metadata file document_id content_sha256 event_id = from_pairs (
      ("inkbridge-register-original", "true")
      ∷ ("inkbridge-original-file-name", file.name)
      ∷ ("inkbridge-document-id", document_id)
      ∷ ("inkbridge-content-sha256", content_sha256)
      ∷ ("inkbridge-drive-file-id", file.file_id)
      ∷ ("inkbridge-drive-file-version", decimal file.version)
      ∷ ("inkbridge-drive-event-id", event_id)
      ∷ [])
