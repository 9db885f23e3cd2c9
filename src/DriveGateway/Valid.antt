-- ===== src/DriveGateway/Valid.antt =====
-- The parts of `DriveGatewayCheckpoint::validate` of inkbridge-drive-gateway/src/model.rs.
use inkbridge.Prelude.{
  true, false, not, ◌||◌, ◌≡◌, ◌∙◌, ap, some, String, List, [], eqb, leb, ◌==◌, string_key, inl,
  inr, Option-cases,
}
use inkbridge.Prelude.Fallible.{ok, ok_or, refuse_if, for_each, >>=-eq-ok}
use inkbridge.Prelude.Map
use inkbridge.Prelude.Set
use inkbridge.Broker.Model.{RevisionPair, revision_of, other, revisions_key, side_key}
use inkbridge.DriveGateway.Model.{
  checkpoint_schema, drive_gateway_schema_version, DriveGatewayCheckpoint, PendingDriveInput,
  input_unbound, input_binding, input_frontier, input_proposal, input_hash, frontier_unbound,
}
use inkbridge.DriveGateway.Checkpoint.{
  binding_for_file, has_side, has_frontier, is_sha256_hex, check_documents, check_output,
  check_delivery, check_accepted, check_has_frontier, check_frontier, check_input, check_inputs,
  validate,
}
use inkbridge.DriveGateway.Equality.{same}
use inkbridge.DriveGateway.Loops.{refused_not, refused_unless, for_each-lookup}

pub record Valid (cp : DriveGatewayCheckpoint) : Type 0 where
  pub all_file_ids : List String
  pub schema :
      refuse_if (not (eqb cp.schema_version drive_gateway_schema_version)) checkpoint_schema ≡ ok tt
  pub bindings : check_documents cp.documents [] ≡ ok all_file_ids
  pub reservations : for_each (check_output cp) cp.pending_drive_outputs ≡ ok tt
  pub deliveries : for_each (check_delivery cp) cp.delivered_broker_outputs ≡ ok tt
  pub contents : for_each (check_accepted all_file_ids) cp.accepted_file_content_sha256 ≡ ok tt
  pub observed : for_each (check_has_frontier cp.file_observed_frontiers) all_file_ids ≡ ok tt
  pub frontiers : for_each (check_frontier all_file_ids) cp.file_observed_frontiers ≡ ok tt
  pub changes : check_inputs cp cp.pending_drive_inputs [] ≡ ok tt

pub validate-Valid : (cp : DriveGatewayCheckpoint) → validate cp ≡ ok tt → Valid cp
unfolding validate
validate-Valid cp h =
    let (_, a, h₁) =
      >>=-eq-ok
        (refuse_if (not (eqb cp.schema_version drive_gateway_schema_version)) checkpoint_schema) _
        h in
    let (ids, b, h₂) = >>=-eq-ok (check_documents cp.documents []) _ h₁ in
    let (_, c, h₃) = >>=-eq-ok (for_each (check_output cp) cp.pending_drive_outputs) _ h₂ in
    let (_, d, h₄) = >>=-eq-ok (for_each (check_delivery cp) cp.delivered_broker_outputs) _ h₃ in
    let (_, e, h₅) =
      >>=-eq-ok (for_each (check_accepted ids) cp.accepted_file_content_sha256) _ h₄ in
    let (_, f, h₆) =
      >>=-eq-ok (for_each (check_has_frontier cp.file_observed_frontiers) ids) _ h₅ in
    let (_, g, h₇) = >>=-eq-ok (for_each (check_frontier ids) cp.file_observed_frontiers) _ h₆ in
    record {
      all_file_ids = ids;
      schema = a;
      bindings = b;
      reservations = c;
      deliveries = d;
      contents = e;
      observed = f;
      frontiers = g;
      changes = h₇;
    }

pub Valid-validate : (cp : DriveGatewayCheckpoint) → Valid cp → validate cp ≡ ok tt
unfolding validate
Valid-validate cp v =
    rw
      (
        validate, v.schema, v.bindings, v.reservations, v.deliveries, v.contents, v.observed,
        v.frontiers,
      )
      v.changes

-- What the checks of a pending input say.
pub record ValidInput (cp : DriveGatewayCheckpoint) (k : String) (x : PendingDriveInput)
    : Type 0 where
  pub at_frontier :
      has_frontier cp.file_observed_frontiers x.drive_file_id x.previous_frontier ≡ true
  pub proposal :
      (leb (revision_of x.proposed_frontier x.source) (revision_of x.previous_frontier x.source)
        || not (
            eqb
              (revision_of x.proposed_frontier (other x.source))
              (revision_of x.previous_frontier (other x.source))))
      ≡ false
  pub hash : is_sha256_hex x.content_sha256 ≡ true

pub check_input-ValidInput :
    (cp : DriveGatewayCheckpoint) (k : String) (x : PendingDriveInput)
    → check_input cp (k, x) ≡ ok tt
    → ValidInput cp k x
unfolding check_input
check_input-ValidInput cp k x h =
    let (binding, _, h₁) =
      >>=-eq-ok (ok_or (binding_for_file cp x.drive_file_id) input_unbound) _ h in
    let (_, _, h₂) =
      >>=-eq-ok
        (refuse_if
          (not (binding.document_id == x.document_id)
            || not (has_side binding x.drive_file_id x.source))
          input_binding)
        _ h₁ in
    let (_, c, h₃) =
      >>=-eq-ok
        (refuse_if
          (not (has_frontier cp.file_observed_frontiers x.drive_file_id x.previous_frontier))
          input_frontier)
        _ h₂ in
    let moved =
      leb (revision_of x.proposed_frontier x.source) (revision_of x.previous_frontier x.source)
      || not (
          eqb (revision_of x.proposed_frontier (other x.source))
            (revision_of x.previous_frontier (other x.source))) in
    let (_, d, h₄) = >>=-eq-ok (refuse_if moved input_proposal) _ h₃ in
    let (_, e, _) = >>=-eq-ok (refuse_if (not (is_sha256_hex x.content_sha256)) input_hash) _ h₄ in
    record {
      at_frontier =
          refused_unless
            (has_frontier cp.file_observed_frontiers x.drive_file_id x.previous_frontier)
            input_frontier c;
      proposal = refused_not moved input_proposal d;
      hash = refused_unless (is_sha256_hex x.content_sha256) input_hash e;
    }

pub has_frontier-lookup :
    (frontiers : List (String × RevisionPair)) (f : String) (r : RevisionPair)
    → has_frontier frontiers f r ≡ true
    → Map.lookup f frontiers ≡ some r
unfolding Map.lookup
has_frontier-lookup frontiers f r h = elim (Option-cases (Map.lookup f frontiers)) [
  | inl missing ↦ cc (rw (has_frontier, missing) at h)
  | inr (found, known) ↦ known ∙ ap some (same found r (rw (has_frontier, known) at h))
]

pub frontier-bound :
    (cp : DriveGatewayCheckpoint) (v : Valid cp) (f : String) (r : RevisionPair)
    → Map.lookup f cp.file_observed_frontiers ≡ some r
    → Set.contains f v.all_file_ids ≡ true
unfolding check_frontier
frontier-bound cp v f r found = refused_unless (Set.contains f v.all_file_ids) frontier_unbound (
    for_each-lookup (check_frontier v.all_file_ids) f r cp.file_observed_frontiers v.frontiers
      found)
