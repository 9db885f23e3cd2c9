-- ===== src/DriveGateway/Checkpoint.antt =====
-- `DriveGatewayCheckpoint` of inkbridge-drive-gateway/src/model.rs: `validate` and `binding_for_file`.
use inkbridge.Prelude.{
  Bool, false, not, ◌&&◌, ◌||◌, Option, none, some, String, List, [], ◌∷◌, ◌++◌, any, leb, eqb,
  is_some, if◌then◌else◌, ◌==◌, string_key,
}
use inkbridge.Prelude.Fallible.{ok, ◌>>=◌, ◌>>◌, ok_or, refuse_if, for_each}
use inkbridge.Prelude.Map
use inkbridge.Prelude.Set
use inkbridge.Prelude.Text.{
  concat, decimal, is_blank, byte_length, all_chars, contains_text, is_ascii_hexdigit,
}
use text.Mathlib.Text.{starts_with}
use inkbridge.Broker.Model.{
  DeviceSide, boox, supernote, other, RevisionPair, revision_of, side_key, revisions_key,
}
use inkbridge.DriveGateway.Model.{
  checkpoint_schema, binding_key, binding_identity, file_on_both_sides, file_in_two_documents,
  output_key, output_pending_and_delivered, output_structure, delivery_key, delivery_version,
  delivery_document, delivery_side, accepted_unbound, accepted_hash, frontier_missing,
  frontier_unbound, input_key, input_unprocessed, input_file_twice, input_unbound, input_binding,
  input_frontier, input_proposal, input_hash, input_evidence, Outcome, Properties,
  drive_gateway_schema_version, DocumentBinding, side_for_file, PendingDriveInput,
  PreparedDriveOutput, DeliveredDriveOutput, DriveGatewayCheckpoint,
}

-- `values().find(|binding| binding.side_for_file(file_id).is_some())`
unfoldable pub find_binding : String → List (String × DocumentBinding) → Option DocumentBinding
unfolding side_for_file
find_binding file_id [] = none
find_binding file_id ((k, binding) ∷ documents) =
    if is_some (side_for_file binding file_id) then some binding else find_binding file_id documents

unfoldable pub binding_for_file : DriveGatewayCheckpoint → String → Option DocumentBinding
unfolding find_binding
binding_for_file checkpoint file_id = find_binding file_id checkpoint.documents

-- `map.get(key) == Some(&value)`
abbrev pub has_value : Properties → String → String → Bool
has_value properties key value = elim (Map.lookup key properties) [
  | none ↦ false
  | some found ↦ found == value
]

abbrev pub has_side : DocumentBinding → String → DeviceSide → Bool
has_side binding file_id side = elim (side_for_file binding file_id) [
  | none ↦ false
  | some found ↦ found == side
]

abbrev pub has_frontier : List (String × RevisionPair) → String → RevisionPair → Bool
has_frontier frontiers file_id frontier = elim (Map.lookup file_id frontiers) [
  | none ↦ false
  | some found ↦ found == frontier
]

abbrev pub folder_prefix : DeviceSide → String
folder_prefix boox = "BOOX_Folder/"
folder_prefix supernote = "Supernote_Folder/"

unfoldable pub is_sha256_hex : String → Bool
unfolding byte_length all_chars
is_sha256_hex s = eqb (byte_length s) 64 && all_chars is_ascii_hexdigit s

-- The loop that fills `all_file_ids` from one binding.
unfoldable pub claim_files : List String → (all_file_ids : List String) → Outcome (List String)
unfolding Set.contains Set.insert
claim_files [] all_file_ids = ok all_file_ids
claim_files (file_id ∷ file_ids) all_file_ids =
    refuse_if (Set.contains file_id all_file_ids) file_in_two_documents
    >> claim_files file_ids (Set.insert file_id all_file_ids)

unfoldable pub check_binding : String → DocumentBinding → Outcome (Unit {0})
unfolding concat byte_length Set.contains
check_binding document_id binding = do
  refuse_if (not (document_id == binding.document_id)) binding_key
  refuse_if
      (not (starts_with document_id "inkbridge-doc-v1-")
        || (not (eqb (byte_length binding.original_pdf_sha256) 64)
            || not
                (document_id == concat ("inkbridge-doc-v1-" ∷ binding.original_pdf_sha256 ∷ []))))
      binding_identity
  refuse_if (any (λ file_id. Set.contains file_id binding.supernote_file_ids) binding.boox_file_ids)
      file_on_both_sides
  ok tt

-- The loop over the documents; the result is `all_file_ids`.
unfoldable pub check_documents :
    List (String × DocumentBinding) → (all_file_ids : List String) → Outcome (List String)
unfolding check_binding claim_files
check_documents [] all_file_ids = ok all_file_ids
check_documents ((document_id, binding) ∷ documents) all_file_ids =
    check_binding document_id binding
    >> claim_files (binding.boox_file_ids ++ binding.supernote_file_ids) all_file_ids
    >>= λ claimed. check_documents documents claimed

-- `/{document_id}/`
unfoldable pub document_segment : String → String
unfolding concat
document_segment document_id = concat ("/" ∷ document_id ∷ "/" ∷ [])

unfoldable pub bad_output : DriveGatewayCheckpoint → String → PreparedDriveOutput → Bool
unfolding Map.lookup is_blank byte_length decimal contains_text document_segment
bad_output checkpoint delivery_id pending =
    not (is_some (Map.lookup pending.document_id checkpoint.documents))
    || (is_blank pending.drive_file_id
        || (is_blank pending.gcs_object_path
            || (eqb pending.gcs_generation 0
                || (is_blank pending.parent_folder_id
                    || (is_blank pending.file_name
                        || (not (eqb (byte_length pending.content_sha256) 64)
                            || (not (
                                  has_value pending.app_properties "inkbridgeDeliveryId"
                                    delivery_id)
                                || (not (
                                      has_value pending.app_properties "inkbridgeDocumentId"
                                        pending.document_id)
                                    || (not (
                                          has_value pending.app_properties "inkbridgeContentSha256"
                                            pending.content_sha256)
                                        || (not (
                                              has_value pending.app_properties
                                                "inkbridgeGcsGeneration"
                                                (decimal pending.gcs_generation))
                                            || (not (
                                                  starts_with pending.gcs_object_path
                                                    (folder_prefix pending.target))
                                                || not (
                                                    contains_text pending.gcs_object_path (
                                                      document_segment
                                                        pending.document_id)))))))))))))

unfoldable pub check_output :
    DriveGatewayCheckpoint → String × PreparedDriveOutput → Outcome (Unit {0})
unfolding bad_output Map.lookup
check_output checkpoint (delivery_id, pending) = do
  refuse_if (not (delivery_id == pending.delivery_id)) output_key
  refuse_if (is_some (Map.lookup delivery_id checkpoint.delivered_broker_outputs))
      output_pending_and_delivered
  refuse_if (bad_output checkpoint delivery_id pending) output_structure
  ok tt

unfoldable pub check_delivery :
    DriveGatewayCheckpoint → String × DeliveredDriveOutput → Outcome (Unit {0})
unfolding side_for_file Map.lookup
check_delivery checkpoint (delivery_id, delivery) = do
  refuse_if (not (delivery_id == delivery.delivery_id)) delivery_key
  refuse_if (eqb delivery.drive_file_version 0) delivery_version
  binding ← ok_or (Map.lookup delivery.document_id checkpoint.documents) delivery_document
  refuse_if (not (has_side binding delivery.drive_file_id delivery.target)) delivery_side
  ok tt

unfoldable pub check_accepted : (all_file_ids : List String) → String × String → Outcome (Unit {0})
unfolding is_sha256_hex Set.contains
check_accepted all_file_ids (file_id, content_sha256) = do
  refuse_if (not (Set.contains file_id all_file_ids)) accepted_unbound
  refuse_if (not (is_sha256_hex content_sha256)) accepted_hash
  ok tt

unfoldable pub check_has_frontier :
    List (String × RevisionPair) → (file_id : String) → Outcome (Unit {0})
unfolding Map.lookup
check_has_frontier frontiers file_id =
    refuse_if (not (is_some (Map.lookup file_id frontiers))) frontier_missing

unfoldable pub check_frontier :
    (all_file_ids : List String) → String × RevisionPair → Outcome (Unit {0})
unfolding Set.contains
check_frontier all_file_ids (file_id, frontier) =
    refuse_if (not (Set.contains file_id all_file_ids)) frontier_unbound

unfoldable pub check_input :
    DriveGatewayCheckpoint → String × PendingDriveInput → Outcome (Unit {0})
unfolding binding_for_file side_for_file revision_of other is_sha256_hex is_blank contains_text
    document_segment Map.lookup
check_input checkpoint (event_id, pending) = do
  binding ← ok_or (binding_for_file checkpoint pending.drive_file_id) input_unbound
  refuse_if
      (not (binding.document_id == pending.document_id)
        || not (has_side binding pending.drive_file_id pending.source))
      input_binding
  refuse_if
      (not (
        has_frontier checkpoint.file_observed_frontiers pending.drive_file_id
          pending.previous_frontier))
      input_frontier
  refuse_if
      (leb (revision_of pending.proposed_frontier pending.source)
          (revision_of pending.previous_frontier pending.source)
        || not (
            eqb (revision_of pending.proposed_frontier (other pending.source))
              (revision_of pending.previous_frontier (other pending.source))))
      input_proposal
  refuse_if (not (is_sha256_hex pending.content_sha256)) input_hash
  refuse_if
      (is_blank pending.gcs_object_path
        || (eqb pending.gcs_generation 0
            || (not (starts_with pending.gcs_object_path (folder_prefix pending.source))
                || not (
                    contains_text pending.gcs_object_path (document_segment pending.document_id)))))
      input_evidence
  ok tt

-- The loop over the pending inputs, with the files that it has seen.
unfoldable pub check_inputs :
    DriveGatewayCheckpoint
    → List (String × PendingDriveInput)
    → (pending_file_ids : List String) → Outcome (Unit {0})
unfolding check_input Set.contains Set.insert
check_inputs checkpoint [] pending_file_ids = ok tt
check_inputs checkpoint ((event_id, pending) ∷ inputs) pending_file_ids = do
  refuse_if (not (event_id == pending.drive_event_id)) input_key
  refuse_if (not (Set.contains event_id checkpoint.processed_drive_events)) input_unprocessed
  refuse_if (Set.contains pending.drive_file_id pending_file_ids) input_file_twice
  check_input checkpoint (event_id, pending)
  check_inputs checkpoint inputs (Set.insert pending.drive_file_id pending_file_ids)

-- `DriveGatewayCheckpoint::validate`
unfoldable pub validate : DriveGatewayCheckpoint → Outcome (Unit {0})
unfolding check_documents check_output check_delivery check_accepted check_has_frontier
    check_frontier check_inputs
validate checkpoint = do
  refuse_if (not (eqb checkpoint.schema_version drive_gateway_schema_version)) checkpoint_schema
  all_file_ids ← check_documents checkpoint.documents []
  for_each (check_output checkpoint) checkpoint.pending_drive_outputs
  for_each (check_delivery checkpoint) checkpoint.delivered_broker_outputs
  for_each (check_accepted all_file_ids) checkpoint.accepted_file_content_sha256
  for_each (check_has_frontier checkpoint.file_observed_frontiers) all_file_ids
  for_each (check_frontier all_file_ids) checkpoint.file_observed_frontiers
  check_inputs checkpoint checkpoint.pending_drive_inputs []
