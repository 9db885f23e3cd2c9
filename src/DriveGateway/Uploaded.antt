-- ===== src/DriveGateway/Uploaded.antt =====
-- What an upload that `prepare_drive_input` of inkbridge-drive-gateway/src/planner.rs plans was made
-- of.
use inkbridge.Prelude.{
  ℕ, true, false, not, ◌||◌, ◌≡◌, none, some, String, any, eqb, length, ◌==◌, string_key, inl, inr,
  Bool-cases, Option-cases,
}
use inkbridge.Prelude.Fallible.{ok, ok_or, refuse_if, >>=-eq-ok, ok_or-eq-ok}
use inkbridge.Prelude.Map
use inkbridge.Prelude.Set
use inkbridge.Broker.Model.{Bytes, DeviceSide, DevicePayloadKind, RevisionPair}
use inkbridge.DriveGateway.Model.{
  size_mismatch, ambiguous_binding, lost_frontier, revision_overflow, DriveGatewayConfig,
  validate_config, folder_id, DriveFileRevision, DocumentBinding, side_for_file,
  DriveGatewayCheckpoint, PreparedDriveInput, upload,
}
use inkbridge.DriveGateway.Checkpoint.{binding_for_file, has_value, validate}
use inkbridge.DriveGateway.Events.{
  is_generated, supported_payload_kind, drive_event_id_from_parts, input_path, input_metadata,
}
use inkbridge.DriveGateway.Input.{
  find_pending, next_source_revision, prepare_upload, prepare_new, prepare_bound,
  prepare_drive_input,
}

module _ (sha256_hex : Bytes → String) where
  -- The input that is uploaded.
  abbrev pub prepared_input :
      DriveFileRevision
      → DocumentBinding
      → (source : DeviceSide) (kind : DevicePayloadKind)
      → (content_sha256 event_id : String) (based_on frontier : RevisionPair) (source_revision : ℕ)
      → PreparedDriveInput
  prepared_input file binding source kind content_sha256 event_id based_on frontier
        source_revision =
      record {
        drive_event_id = event_id;
        drive_file_id = file.file_id;
        gcs_object_path = input_path sha256_hex source kind binding.document_id event_id;
        content_sha256 = content_sha256;
        metadata =
            input_metadata sha256_hex file binding.document_id source_revision based_on kind
              content_sha256 event_id;
        document_id = binding.document_id;
        source = source;
        source_revision = source_revision;
        based_on = based_on;
        canonical_frontier = frontier;
        payload_kind = kind;
      }

  pub record Uploaded (config : DriveGatewayConfig) (cp : DriveGatewayCheckpoint)
      (file : DriveFileRevision) (frontier : RevisionPair) (binding : DocumentBinding)
      (content_sha256 event_id : String) (p : PreparedDriveInput) : Type 0 where
    pub source : DeviceSide
    pub kind : DevicePayloadKind
    pub based_on : RevisionPair
    pub source_revision : ℕ
    pub side : side_for_file binding file.file_id ≡ some source
    pub inside : any (λ parent. parent == folder_id config source) file.parents ≡ true
    pub based : Map.lookup file.file_id cp.file_observed_frontiers ≡ some based_on
    pub next : next_source_revision based_on frontier source ≡ some source_revision
    pub prepared :
        p
        ≡ prepared_input file binding source kind content_sha256 event_id based_on frontier
            source_revision

  module _ (config : DriveGatewayConfig) (cp : DriveGatewayCheckpoint) (file : DriveFileRevision)
      (frontier : RevisionPair) (p : PreparedDriveInput) where
    prepare_upload-Uploaded :
        (binding : DocumentBinding) (source : DeviceSide) (kind : DevicePayloadKind)
        (content_sha256 event_id : String)
        → side_for_file binding file.file_id ≡ some source
        → any (λ parent. parent == folder_id config source) file.parents ≡ true
        → prepare_upload sha256_hex cp file frontier binding source kind content_sha256 event_id
          ≡ ok (upload p)
        → Uploaded config cp file frontier binding content_sha256 event_id p
    unfolding prepare_upload
    prepare_upload-Uploaded binding source kind content_sha256 event_id side inside h =
        let (based_on, based, h₁) =
          >>=-eq-ok (ok_or (Map.lookup file.file_id cp.file_observed_frontiers) lost_frontier) _
            h in
        let (source_revision, next, h₂) =
          >>=-eq-ok (ok_or (next_source_revision based_on frontier source) revision_overflow) _
            h₁ in
        record {
          source = source;
          kind = kind;
          based_on = based_on;
          source_revision = source_revision;
          side = side;
          inside = inside;
          based =
              ok_or-eq-ok (Map.lookup file.file_id cp.file_observed_frontiers) based_on
                lost_frontier based;
          next =
              ok_or-eq-ok (next_source_revision based_on frontier source) source_revision
                revision_overflow next;
          prepared = cc h₂;
        }

    prepare_new-Uploaded :
        (binding : DocumentBinding) (content_sha256 event_id : String)
        → prepare_new sha256_hex config cp file frontier binding content_sha256 event_id
          ≡ ok (upload p)
        → Uploaded config cp file frontier binding content_sha256 event_id p
    unfolding prepare_new
    prepare_new-Uploaded binding content_sha256 event_id h =
        let (source, found, h₁) =
          >>=-eq-ok (ok_or (side_for_file binding file.file_id) ambiguous_binding) _ h in
        let side =
          ok_or-eq-ok (side_for_file binding file.file_id) source ambiguous_binding found in
        elim (Bool-cases (any (λ parent. parent == folder_id config source) file.parents)) [
          | inr outside ↦ cc (rw outside at h₁)
          | inl inside ↦ elim (Option-cases (supported_payload_kind source file.mime_type)) [
            | inl unsupported ↦ cc (rw (inside, unsupported) at h₁)
            | inr (kind, supported) ↦
                prepare_upload-Uploaded binding source kind content_sha256 event_id side inside
                  (rw (inside, supported) at h₁)
          ]
        ]

    -- The checks before.
    pub record Changed (bytes : Bytes) : Type 0 where
      pub binding : DocumentBinding
      pub valid : validate cp ≡ ok tt
      pub bound : binding_for_file cp file.file_id ≡ some binding
      pub alone : find_pending file.file_id cp.pending_drive_inputs ≡ none
      pub not_known :
          (has_value cp.accepted_file_content_sha256 file.file_id (sha256_hex bytes)
            || Set.contains
                (drive_event_id_from_parts sha256_hex file.file_id file.version (sha256_hex bytes))
                cp.processed_drive_events)
          ≡ false
      pub uploaded :
          Uploaded config cp file frontier binding
            (sha256_hex bytes)
            (drive_event_id_from_parts sha256_hex file.file_id file.version (sha256_hex bytes))
            p

    prepare_bound-Changed :
        (bytes : Bytes) (binding : DocumentBinding)
        → validate cp ≡ ok tt
        → binding_for_file cp file.file_id ≡ some binding
        → prepare_bound sha256_hex config cp file bytes frontier binding ≡ ok (upload p)
        → Changed bytes
    unfolding prepare_bound
    prepare_bound-Changed bytes binding valid bound h =
        let (_, _, h₁) =
          >>=-eq-ok (refuse_if (not (eqb file.size (length bytes))) size_mismatch) _ h in
        let event_id =
          drive_event_id_from_parts sha256_hex file.file_id file.version (sha256_hex bytes) in
        elim (Option-cases (find_pending file.file_id cp.pending_drive_inputs)) [
          | inr (pending, found) ↦ cc (rw found at h₁)
          | inl alone ↦
              elim (Bool-cases (
                has_value cp.accepted_file_content_sha256 file.file_id (sha256_hex bytes)
                || Set.contains event_id cp.processed_drive_events)) [
                  | inl known ↦ cc (rw (alone, known) at h₁)
                  | inr not_known ↦ record {
                    binding = binding;
                    valid = valid;
                    bound = bound;
                    alone = alone;
                    not_known = not_known;
                    uploaded =
                        prepare_new-Uploaded binding (sha256_hex bytes) event_id
                          (rw (alone, not_known) at h₁);
                  }
                ]
        ]

    pub prepare_drive_input-Changed :
        (bytes : Bytes)
        → prepare_drive_input sha256_hex config cp file bytes frontier ≡ ok (upload p)
        → Changed bytes
    unfolding prepare_drive_input
    prepare_drive_input-Changed bytes h =
        let (_, _, h₁) = >>=-eq-ok (validate_config config) _ h in
        let (_, valid, h₂) = >>=-eq-ok (validate cp) _ h₁ in
        elim (Bool-cases file.trashed) [
          | inl t ↦ cc (rw t at h₂)
          | inr live ↦ elim (Option-cases (binding_for_file cp file.file_id)) [
            | inr (binding, bound) ↦
                prepare_bound-Changed bytes binding valid bound (rw (live, bound) at h₂)
            | inl alone ↦ elim (Bool-cases (is_generated file)) [
              | inl g ↦ cc (rw (live, alone, g) at h₂)
              | inr g ↦ cc (rw (live, alone, g) at h₂)
            ]
          ]
        ]
