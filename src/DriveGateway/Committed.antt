-- ===== src/DriveGateway/Committed.antt =====
-- What `prepare_drive_input` of inkbridge-drive-gateway/src/planner.rs plans to upload, its
-- `commit_drive_input` takes.
use inkbridge.Prelude.{
  ℕ, Bool, true, false, not, ◌||◌, ◌≡◌, refl, sym, ◌∙◌, ap, arith, inl, inr, Option-cases, none,
  some, String, [], leb, eqb, eqb_iff, ◌==◌, string_key,
}
use inkbridge.Prelude.Fallible.{ok}
use inkbridge.Prelude.Map
use inkbridge.Prelude.Set
use inkbridge.Broker.Model.{
  Bytes, DeviceSide, boox, supernote, other, DevicePayloadKind, RevisionPair, revision_of,
  set_revision, side_key, revisions_key,
}
use inkbridge.DriveGateway.Model.{
  DriveGatewayConfig, DriveFileRevision, DocumentBinding, side_for_file, DriveGatewayCheckpoint,
  PreparedDriveInput, upload,
}
use inkbridge.DriveGateway.Checkpoint.{
  binding_for_file, has_side, has_frontier, has_value, is_sha256_hex, check_output, check_delivery,
  check_input, validate,
}
use inkbridge.DriveGateway.Events.{drive_event_id_from_parts}
use inkbridge.DriveGateway.Equality.{==_refl}
use inkbridge.DriveGateway.Evidence.{input_path-prefix, input_path-segment, input_path-not_blank}
use inkbridge.DriveGateway.Input.{
  find_pending, next_source_revision, pending_of, check_prepared, check_known, with_pending,
  commit_drive_input, prepare_drive_input, validated,
}
use inkbridge.DriveGateway.Loops.{or_false}
use inkbridge.DriveGateway.Pending.{lookup-processed}
use inkbridge.DriveGateway.Reserved.{Extends, Addable, check_inputs-insert}
use inkbridge.DriveGateway.Uploaded.{prepared_input, prepare_drive_input-Changed}
use inkbridge.DriveGateway.Valid.{Valid, validate-Valid, Valid-validate}

either : (a b : Bool) → not b ≡ false → not (a || b) ≡ false
either a b h = ground arith

next_proposal :
    (source : DeviceSide) (based_on frontier : RevisionPair) (revision : ℕ)
    → next_source_revision based_on frontier source ≡ some revision
    → (leb
          (revision_of (set_revision based_on source revision) source)
          (revision_of based_on source)
        || not (
            eqb
              (revision_of (set_revision based_on source revision) (other source))
              (revision_of based_on (other source))))
      ≡ false
unfolding next_source_revision revision_of set_revision other
next_proposal boox based_on frontier revision h = ground arith
next_proposal supernote based_on frontier revision h = ground arith

module _ (cp : DriveGatewayCheckpoint) (input : PreparedDriveInput) (gcs_generation : ℕ) where
  with_pending-Extends : Extends cp (with_pending cp input gcs_generation)
  unfolding with_pending check_input binding_for_file
  with_pending-Extends = record {
    events = λ k known.
        rw (Set.contains-insert input.drive_event_id k cp.processed_drive_events)
          (either (input.drive_event_id == k) (Set.contains k cp.processed_drive_events) known);
    inputs = λ k x. refl;
  }

  with_pending-Valid :
      Valid cp
      → Addable
          (with_pending cp input gcs_generation)
          input.drive_event_id
          (pending_of input gcs_generation)
      → find_pending input.drive_file_id cp.pending_drive_inputs ≡ none
      → Valid (with_pending cp input gcs_generation)
  unfolding with_pending pending_of check_output check_delivery Set.contains
  with_pending-Valid v addable alone = record {
    all_file_ids = v.all_file_ids;
    schema = v.schema;
    bindings = v.bindings;
    reservations = v.reservations;
    deliveries = v.deliveries;
    contents = v.contents;
    observed = v.observed;
    frontiers = v.frontiers;
    changes =
        check_inputs-insert cp (with_pending cp input gcs_generation) with_pending-Extends
          input.drive_event_id (pending_of input gcs_generation) addable cp.pending_drive_inputs []
          alone refl v.changes;
  }

module _ (sha256_hex : Bytes → String) (cp : DriveGatewayCheckpoint) (file : DriveFileRevision)
    (binding : DocumentBinding) (source : DeviceSide) (kind : DevicePayloadKind)
    (content event_id : String) (based_on frontier : RevisionPair) (revision gcs_generation : ℕ)
    (bound : binding_for_file cp file.file_id ≡ some binding)
    (side : side_for_file binding file.file_id ≡ some source)
    (based : Map.lookup file.file_id cp.file_observed_frontiers ≡ some based_on)
    (next : next_source_revision based_on frontier source ≡ some revision)
    (nonzero : eqb gcs_generation 0 ≡ false) where
  abbrev planned : PreparedDriveInput
  planned =
      prepared_input sha256_hex file binding source kind content event_id based_on frontier revision

  check_prepared-ok : check_prepared cp planned gcs_generation ≡ ok tt
  unfolding check_prepared
  check_prepared-ok =
      rw
        (
          check_prepared,
          nonzero,
          bound,
          ==_refl binding.document_id,
          has_side,
          side,
          ==_refl source,
          next,
          (eqb_iff revision revision).1 refl,
          based,
          ==_refl based_on,
        )
        refl

  check_planned :
      is_sha256_hex content ≡ true
      → check_input
          (with_pending cp planned gcs_generation)
          (event_id, pending_of planned gcs_generation)
        ≡ ok tt
  unfolding check_input with_pending pending_of binding_for_file
  check_planned hex =
      rw
        (
          check_input,
          bound,
          ==_refl binding.document_id,
          has_side,
          side,
          ==_refl source,
          has_frontier,
          based,
          ==_refl based_on,
          next_proposal source based_on frontier revision next,
          hex,
          input_path-not_blank sha256_hex source kind binding.document_id event_id,
          nonzero,
          input_path-prefix sha256_hex source kind binding.document_id event_id,
          input_path-segment sha256_hex source kind binding.document_id event_id,
        )
        refl

  planned-Addable :
      is_sha256_hex content ≡ true
      → Addable
          (with_pending cp planned gcs_generation)
          event_id
          (pending_of planned gcs_generation)
  unfolding with_pending pending_of
  planned-Addable hex = record {
    key_matches = ap not (==_refl event_id);
    processed = ap not (Set.contains-insert_self event_id cp.processed_drive_events);
    checked = check_planned hex;
  }

  check_known-new :
      Valid cp
      → find_pending file.file_id cp.pending_drive_inputs ≡ none
      → Set.contains event_id cp.processed_drive_events ≡ false
      → check_known cp planned gcs_generation ≡ ok false
  unfolding check_known
  check_known-new v alone new = elim (Option-cases (Map.lookup event_id cp.pending_drive_inputs)) [
    | inl missing ↦ rw (check_known, missing, alone, new) refl
    | inr (x, found) ↦
        let processed = lookup-processed cp event_id x cp.pending_drive_inputs [] v.changes found in
        cc (new, processed)
  ]

  commit_planned :
      Valid cp
      → is_sha256_hex content ≡ true
      → find_pending file.file_id cp.pending_drive_inputs ≡ none
      → Set.contains event_id cp.processed_drive_events ≡ false
      → (validate (with_pending cp planned gcs_generation) ≡ ok tt)
        × (commit_drive_input cp planned gcs_generation
            ≡ (ok tt, with_pending cp planned gcs_generation))
  unfolding commit_drive_input validated
  commit_planned v hex alone new =
      let after = with_pending cp planned gcs_generation in
      let valid =
        Valid-validate after
          (with_pending-Valid cp planned gcs_generation v (planned-Addable hex) alone) in
      (
        valid,
        rw (commit_drive_input, check_prepared-ok, check_known-new v alone new, validated, valid)
            refl,
      )

-- What `prepare_drive_input` plans to upload can be committed: with a digest of 64 hexadecimal digits and
-- a generation of the upload that is not 0, `commit_drive_input` on the same checkpoint is a success and
-- leaves a valid checkpoint, in which the input is pending under its event, with that generation.
pub prepare_drive_input-commits :
    (sha256_hex : Bytes → String) (hex : (bytes : Bytes) → is_sha256_hex (sha256_hex bytes) ≡ true)
    (config : DriveGatewayConfig) (cp : DriveGatewayCheckpoint) (file : DriveFileRevision)
    (bytes : Bytes) (frontier : RevisionPair) (p : PreparedDriveInput) (gcs_generation : ℕ)
    → prepare_drive_input sha256_hex config cp file bytes frontier ≡ ok (upload p)
    → eqb gcs_generation 0 ≡ false
    → (cp' : DriveGatewayCheckpoint) × (commit_drive_input cp p gcs_generation ≡ (ok tt, cp'))
      × (validate cp' ≡ ok tt)
      × (Map.lookup p.drive_event_id cp'.pending_drive_inputs ≡ some (pending_of p gcs_generation))
unfolding with_pending
prepare_drive_input-commits sha256_hex hex config cp file bytes frontier p gcs_generation h
      nonzero =
    let c = prepare_drive_input-Changed sha256_hex config cp file frontier p bytes h in
    let u = c.uploaded in
    let content = sha256_hex bytes in
    let event_id = drive_event_id_from_parts sha256_hex file.file_id file.version content in
    let new =
      or_false (has_value cp.accepted_file_content_sha256 file.file_id content)
        (Set.contains event_id cp.processed_drive_events) c.not_known in
    let q =
      prepared_input sha256_hex file c.binding u.source u.kind content event_id u.based_on frontier
        u.source_revision in
    let done =
      commit_planned sha256_hex cp file c.binding u.source u.kind content event_id u.based_on
        frontier u.source_revision gcs_generation c.bound u.side u.based u.next nonzero
        (validate-Valid cp c.valid) (hex bytes) c.alone new.1 in
    (
      with_pending cp q gcs_generation,
      ap (λ x. commit_drive_input cp x gcs_generation) u.prepared ∙ done.1,
      done.0,
      ap
            (λ (x : PreparedDriveInput).
              Map.lookup x.drive_event_id (with_pending cp q gcs_generation).pending_drive_inputs)
            u.prepared
          ∙ Map.lookup-insert_self event_id (pending_of q gcs_generation) cp.pending_drive_inputs
          ∙ ap (λ x. some (pending_of x gcs_generation)) (sym u.prepared),
    )
