-- ===== src/DriveGateway/Delivered.antt =====
-- What a success of `commit_drive_output` of inkbridge-drive-gateway/src/planner.rs leaves in the
-- checkpoint.
use inkbridge.Prelude.{
  ℕ, false, not, ◌||◌, ◌≡◌, refl, sym, ◌∙◌, ap, some, String, eqb, ◌==◌, string_key, inl, inr, ◌⊎◌,
  Bool-cases, Option-cases,
}
use inkbridge.Prelude.Fallible.{ok, err}
use inkbridge.Prelude.Map
use inkbridge.Prelude.Text.{is_blank}
use inkbridge.Broker.Model.{Bytes}
use inkbridge.DriveGateway.Model.{
  Outcome, Refusal, DriveGatewayCheckpoint, PreparedDriveOutput, delivered_eq, output_eq,
}
use inkbridge.DriveGateway.Checkpoint.{validate}
use inkbridge.DriveGateway.Equality.{delivered_eq-eq}
use inkbridge.DriveGateway.Input.{validated}
use inkbridge.DriveGateway.Output.{
  delivered_of, is_bound_elsewhere, with_delivery, deliver, commit_output, commit_drive_output,
}

pub validated-ok :
    (cp cp' : DriveGatewayCheckpoint)
    → validated cp ≡ (ok tt, cp')
    → (validate cp ≡ ok tt) × (cp ≡ cp')
unfolding validated
validated-ok cp cp' h = (ap (λ p. p.0) h, ap (λ p. p.1) h)

pub Result-cases : (r : Outcome (Unit {0})) → (r ≡ ok tt) ⊎ ((e : Refusal) × (r ≡ err e))
Result-cases (ok u) = inl refl
Result-cases (err e) = inr (e, refl)

module _ (sha256_hex : Bytes → String) where
  pub deliver-ok :
      (cp cp' : DriveGatewayCheckpoint) (output : PreparedDriveOutput) (id : String) (v : ℕ)
      → deliver sha256_hex cp output id v ≡ (ok tt, cp')
      → (binding : _) × (validate cp' ≡ ok tt)
        × (with_delivery sha256_hex cp output binding id v ≡ cp')
  unfolding deliver
  deliver-ok cp cp' output id v h =
      elim (Option-cases (Map.lookup output.delivery_id cp.pending_drive_outputs)) [
        | inl missing ↦ cc (rw (deliver, missing) at h)
        | inr (pending, found) ↦ elim (Bool-cases (output_eq pending output)) [
          | inl e ↦ elim (Bool-cases (is_bound_elsewhere cp output id)) [
            | inl b ↦ cc (rw (deliver, found, e, b) at h)
            | inr b ↦ elim (Option-cases (Map.lookup output.document_id cp.documents)) [
              | inl missing ↦ cc (rw (deliver, found, e, b, missing) at h)
              | inr (binding, bound) ↦
                  let done =
                    validated-ok (with_delivery sha256_hex cp output binding id v) cp'
                      (rw (deliver, found, e, b, bound) at h) in
                  (binding, ap validate (sym done.1) ∙ done.0, done.1)
            ]
          ]
          | inr e ↦ cc (rw (deliver, found, e) at h)
        ]
      ]

  -- The delivery is recorded, and the file is complete and the reserved one.
  pub record Recorded (cp' : DriveGatewayCheckpoint) (output : PreparedDriveOutput) (id : String)
      (v : ℕ) : Type 0 where
    pub valid : validate cp' ≡ ok tt
    pub complete : (is_blank id || eqb v 0) ≡ false
    pub reserved_file : not (id == output.drive_file_id) ≡ false
    pub recorded :
        Map.lookup output.delivery_id cp'.delivered_broker_outputs ≡ some (delivered_of output id v)

  recorded_delivery :
      (cp cp' : DriveGatewayCheckpoint) (output : PreparedDriveOutput) (id : String) (v : ℕ)
      → deliver sha256_hex cp output id v ≡ (ok tt, cp')
      → (validate cp' ≡ ok tt)
        × (Map.lookup output.delivery_id cp'.delivered_broker_outputs
            ≡ some (delivered_of output id v))
  unfolding with_delivery
  recorded_delivery cp cp' output id v h =
      let (binding, valid, left) = deliver-ok cp cp' output id v h in
      (
        valid,
        ap (λ c. Map.lookup output.delivery_id c.delivered_broker_outputs) (sym left)
            ∙ Map.lookup-insert_self output.delivery_id (delivered_of output id v)
                cp.delivered_broker_outputs,
      )

  commit_output-Recorded :
      (cp cp' : DriveGatewayCheckpoint) (output : PreparedDriveOutput) (id : String) (v : ℕ)
      → validate cp ≡ ok tt
      → commit_output sha256_hex cp output id v ≡ (ok tt, cp')
      → Recorded cp' output id v
  unfolding commit_output
  commit_output-Recorded cp cp' output id v valid h = elim (Bool-cases (is_blank id || eqb v 0)) [
    | inl blank ↦ cc (rw blank at h)
    | inr complete ↦ elim (Bool-cases (not (id == output.drive_file_id))) [
      | inl different ↦ cc (rw (complete, different) at h)
      | inr same_file ↦
          elim (Option-cases (Map.lookup output.delivery_id cp.delivered_broker_outputs)) [
            | inl fresh ↦
                let done =
                  recorded_delivery cp cp' output id v (rw (complete, same_file, fresh) at h) in
                record {
                  valid = done.0;
                  complete = complete;
                  reserved_file = same_file;
                  recorded = done.1;
                }
            | inr (found, known) ↦
                elim (Bool-cases (delivered_eq found (delivered_of output id v))) [
                  | inl e ↦
                      let stays : cp ≡ cp' =
                        ap (λ p. p.1) (rw (complete, same_file, known, e) at h) in
                      record {
                        valid = ap validate (sym stays) ∙ valid;
                        complete = complete;
                        reserved_file = same_file;
                        recorded =
                            ap (λ c. Map.lookup output.delivery_id c.delivered_broker_outputs)
                              (sym stays)
                            ∙ known
                            ∙ ap some (delivered_eq-eq found (delivered_of output id v) e);
                      }
                  | inr e ↦ cc (rw (complete, same_file, known, e) at h)
                ]
          ]
    ]
  ]

  pub commit_drive_output-Recorded :
      (cp cp' : DriveGatewayCheckpoint) (output : PreparedDriveOutput) (id : String) (v : ℕ)
      → commit_drive_output sha256_hex cp output id v ≡ (ok tt, cp')
      → Recorded cp' output id v
  unfolding commit_drive_output
  commit_drive_output-Recorded cp cp' output id v h = elim (Result-cases (validate cp)) [
    | inl valid ↦
        commit_output-Recorded cp cp' output id v valid (rw (commit_drive_output, valid) at h)
    | inr (e, refused) ↦ cc (rw (commit_drive_output, refused) at h)
  ]
