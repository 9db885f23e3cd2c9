-- ===== src/DriveGateway/Echo.antt =====
-- What InkBridge wrote to a folder, or has taken from it, does not come back as an input:
-- `prepare_drive_input` after `commit_drive_output` and after `accept_drive_input`.
use inkbridge.Prelude.{
  ℕ, Bool, true, false, not, ◌||◌, ◌≡◌, ◌≢◌, sym, ◌∙◌, ap, none, some, String, eqb, ◌==◌,
  string_key, inl, inr, Bool-cases,
}
use inkbridge.Prelude.Fallible.{ok}
use inkbridge.Prelude.Map
use inkbridge.Prelude.Set
use inkbridge.Prelude.Text.{is_blank}
use inkbridge.Broker.Model.{Bytes, RevisionPair, revisions_key}
use inkbridge.DriveGateway.Model.{
  DriveGatewayConfig, DriveFileRevision, DriveGatewayCheckpoint, PreparedDriveInput,
  PreparedDriveOutput, upload,
}
use inkbridge.DriveGateway.Checkpoint.{has_value, validate}
use inkbridge.DriveGateway.Events.{drive_event_id_from_parts}
use inkbridge.DriveGateway.Equality.{==_refl}
use inkbridge.DriveGateway.Input.{prepare_drive_input}
use inkbridge.DriveGateway.Output.{with_delivery, commit_output, commit_drive_output, deliver}
use inkbridge.DriveGateway.Delivered.{deliver-ok, Result-cases}
use inkbridge.DriveGateway.Uploaded.{prepare_drive_input-Changed}

known_not : (known seen : Bool) → known ≡ true → (known || seen) ≢ false
known_not known seen h k = cc (rw h at k)

prepare_drive_input-accepted :
    (sha256_hex : Bytes → String) (config : DriveGatewayConfig) (cp : DriveGatewayCheckpoint)
    (file : DriveFileRevision) (bytes : Bytes) (frontier : RevisionPair) (p : PreparedDriveInput)
    (hash : String)
    → Map.lookup file.file_id cp.accepted_file_content_sha256 ≡ some hash
    → sha256_hex bytes ≡ hash
    → prepare_drive_input sha256_hex config cp file bytes frontier ≢ ok (upload p)
prepare_drive_input-accepted sha256_hex config cp file bytes frontier p hash accepted same_bytes h =
    let changed = prepare_drive_input-Changed sha256_hex config cp file frontier p bytes h in
    known_not (has_value cp.accepted_file_content_sha256 file.file_id (sha256_hex bytes))
      (Set.contains
        (drive_event_id_from_parts sha256_hex file.file_id file.version (sha256_hex bytes))
        cp.processed_drive_events)
      (rw (has_value, accepted, same_bytes) (==_refl hash)) changed.not_known

deliver-accepted :
    (sha256_hex : Bytes → String) (cp cp' : DriveGatewayCheckpoint) (output : PreparedDriveOutput)
    (id : String) (v : ℕ)
    → deliver sha256_hex cp output id v ≡ (ok tt, cp')
    → Map.lookup id cp'.accepted_file_content_sha256 ≡ some output.content_sha256
unfolding with_delivery
deliver-accepted sha256_hex cp cp' output id v h =
    let (binding, _, left) = deliver-ok sha256_hex cp cp' output id v h in
    ap (λ c. Map.lookup id c.accepted_file_content_sha256) (sym left)
    ∙ Map.lookup-insert_self id output.content_sha256 cp.accepted_file_content_sha256

fresh_deliver :
    (sha256_hex : Bytes → String) (cp cp' : DriveGatewayCheckpoint) (output : PreparedDriveOutput)
    (id : String) (v : ℕ)
    → Map.lookup output.delivery_id cp.delivered_broker_outputs ≡ none
    → commit_drive_output sha256_hex cp output id v ≡ (ok tt, cp')
    → deliver sha256_hex cp output id v ≡ (ok tt, cp')
unfolding commit_drive_output commit_output
fresh_deliver sha256_hex cp cp' output id v fresh h = elim (Result-cases (validate cp)) [
  | inr (e, refused) ↦ cc (rw (commit_drive_output, refused) at h)
  | inl valid ↦ elim (Bool-cases (is_blank id || eqb v 0)) [
    | inl blank ↦ cc (rw (commit_drive_output, valid, commit_output, blank) at h)
    | inr complete ↦ elim (Bool-cases (not (id == output.drive_file_id))) [
      | inl different ↦
          cc (rw (commit_drive_output, valid, commit_output, complete, different) at h)
      | inr same_file ↦
          rw (commit_drive_output, valid, commit_output, complete, same_file, fresh) at h
    ]
  ]
]

-- After an output has been committed that was not delivered before, `prepare_drive_input` does not plan
-- an upload of its file with the content that was delivered, whatever the version of the file, its
-- other fields and the broker's frontier are.
pub commit_drive_output-no_echo :
    (sha256_hex : Bytes → String) (config : DriveGatewayConfig) (cp cp' : DriveGatewayCheckpoint)
    (output : PreparedDriveOutput) (v : ℕ) (file : DriveFileRevision) (bytes : Bytes)
    (frontier : RevisionPair) (p : PreparedDriveInput)
    → Map.lookup output.delivery_id cp.delivered_broker_outputs ≡ none
    → commit_drive_output sha256_hex cp output file.file_id v ≡ (ok tt, cp')
    → sha256_hex bytes ≡ output.content_sha256
    → prepare_drive_input sha256_hex config cp' file bytes frontier ≢ ok (upload p)
commit_drive_output-no_echo sha256_hex config cp cp' output v file bytes frontier p fresh committed
      content =
    prepare_drive_input-accepted sha256_hex config cp' file bytes frontier p output.content_sha256
      (deliver-accepted sha256_hex cp cp' output file.file_id v
        (fresh_deliver sha256_hex cp cp' output file.file_id v fresh committed))
      content
