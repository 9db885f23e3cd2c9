-- ===== src/DriveGateway/Once.antt =====
-- An output is delivered once: a second `commit_drive_output`, or a second `prepare_drive_output`, of
-- inkbridge-drive-gateway/src/planner.rs.
use inkbridge.Prelude.{
  ℕ, Bool, true, false, not, ◌||◌, ◌≡◌, refl, sym, ◌∙◌, ap, arith, String, eqb, is_some, string_key,
  if◌then◌else◌,
}
use inkbridge.Prelude.Fallible.{ok, err}
use inkbridge.Prelude.Map
use inkbridge.Prelude.Text.{is_blank, byte_length}
use inkbridge.Broker.Model.{Bytes, side_key, revisions_key}
use inkbridge.DriveGateway.Model.{
  committed_otherwise, DriveGatewayConfig, validate_config, DriveGatewayCheckpoint,
  PreparedDriveOutput, BrokerDriveOutput, duplicate_output, delivered_eq,
}
use inkbridge.DriveGateway.Checkpoint.{validate}
use inkbridge.DriveGateway.Events.{delivery_id_of}
use inkbridge.DriveGateway.Equality.{==_refl}
use inkbridge.DriveGateway.Output.{
  delivered_of, commit_output, commit_drive_output, prepare_drive_output,
}
use inkbridge.DriveGateway.Delivered.{Recorded, commit_drive_output-Recorded}

delivered_eq-delivered_of :
    (output : PreparedDriveOutput) (id : String) (v w : ℕ)
    → delivered_eq (delivered_of output id v) (delivered_of output id w) ≡ eqb v w
delivered_eq-delivered_of output id v w =
    rw
      (
        ==_refl output.delivery_id,
        ==_refl id,
        ==_refl output.document_id,
        ==_refl output.target,
        ==_refl output.content_sha256,
        ==_refl output.source_revisions,
      )
      (ground arith)

complete_parts : (a b c : Bool) → (a || b) ≡ false → c ≡ false → (a || c) ≡ false
complete_parts a b c h k = ground arith

false_inside : (b : Bool) → not b ≡ true → b ≡ false
false_inside b h = ground arith

-- The marker of the output has everything that `prepare_drive_output` asks for.
unfoldable pub is_complete : BrokerDriveOutput → Bool
unfolding byte_length is_blank
is_complete b =
    not (
      eqb b.gcs_generation 0
      || (not (eqb (byte_length b.content_sha256) 64) || is_blank b.event_id))

module _ (sha256_hex : Bytes → String) where
  commit_output_again :
      (cp : DriveGatewayCheckpoint) (output : PreparedDriveOutput) (id : String) (v w : ℕ)
      → Recorded sha256_hex cp output id v
      → eqb w 0 ≡ false
      → commit_output sha256_hex cp output id w
        ≡ ((if eqb v w then ok tt else err committed_otherwise), cp)
  unfolding commit_output
  commit_output_again cp output id v w done nonzero =
      rw
        (
          complete_parts (is_blank id) (eqb v 0) (eqb w 0) done.complete nonzero,
          done.reserved_file,
          done.recorded,
          delivered_eq-delivered_of output id v w,
        )
        (ground arith)

  prepare_again :
      (config : DriveGatewayConfig) (cp : DriveGatewayCheckpoint) (b : BrokerDriveOutput)
      → validate_config config ≡ ok tt
      → validate cp ≡ ok tt
      → is_some (Map.lookup b.document_id cp.documents) ≡ true
      → is_complete b ≡ true
      → is_some (Map.lookup (delivery_id_of sha256_hex b) cp.delivered_broker_outputs) ≡ true
      → prepare_drive_output sha256_hex config cp b
        ≡ ok (duplicate_output (delivery_id_of sha256_hex b))
  unfolding prepare_drive_output is_complete
  prepare_again config cp b configured valid bound complete known =
      rw
        (
          prepare_drive_output,
          configured,
          valid,
          bound,
          false_inside
              (eqb b.gcs_generation 0
                || (not (eqb (byte_length b.content_sha256) 64) || is_blank b.event_id))
              complete,
          known,
        )
        refl

-- An output of the broker that has been committed is delivered: a second commit to the same file leaves
-- the checkpoint as it is, and is a success exactly if it names the same version of the file; the plan
-- for the output is that it is a duplicate, if the configuration and the output's marker are complete
-- and its document is bound.
pub commit_drive_output_once :
    (sha256_hex : Bytes → String) (config : DriveGatewayConfig) (cp cp' : DriveGatewayCheckpoint)
    (b : BrokerDriveOutput) (output : PreparedDriveOutput) (id : String) (v w : ℕ)
    → output.delivery_id ≡ delivery_id_of sha256_hex b
    → commit_drive_output sha256_hex cp output id v ≡ (ok tt, cp')
    → eqb w 0 ≡ false
    → validate_config config ≡ ok tt
    → is_some (Map.lookup b.document_id cp'.documents) ≡ true
    → is_complete b ≡ true
    → (commit_drive_output sha256_hex cp' output id w
        ≡ ((if eqb v w then ok tt else err committed_otherwise), cp'))
      × (prepare_drive_output sha256_hex config cp' b
          ≡ ok (duplicate_output (delivery_id_of sha256_hex b)))
unfolding commit_drive_output
commit_drive_output_once sha256_hex config cp cp' b output id v w named committed nonzero configured
      bound complete =
    let done = commit_drive_output-Recorded sha256_hex cp cp' output id v committed in
    (
      rw (commit_drive_output, done.valid)
          (commit_output_again sha256_hex cp' output id v w done nonzero),
      prepare_again sha256_hex config cp' b configured done.valid bound complete (
          ap (λ k. is_some (Map.lookup k cp'.delivered_broker_outputs)) (sym named)
          ∙ ap is_some done.recorded),
    )
