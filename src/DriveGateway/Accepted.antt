-- ===== src/DriveGateway/Accepted.antt =====
-- `accept_drive_input` and `reject_drive_input` of inkbridge-drive-gateway/src/planner.rs on a valid
-- checkpoint: the check at their end never refuses.
use inkbridge.Prelude.{
  ℕ, ◌<◌, false, not, ◌≡◌, refl, arith, none, some, String, [], eqb, leb, ◌==◌, string_key,
  if◌then◌else◌, inl, inr, Option-cases,
}
use inkbridge.Prelude.Fallible.{ok}
use inkbridge.Prelude.Map
use inkbridge.Broker.Model.{revision_of, other, revisions_key}
use inkbridge.DriveGateway.Model.{DriveGatewayCheckpoint, PendingDriveInput}
use inkbridge.DriveGateway.Checkpoint.{
  check_output, check_delivery, binding_for_file, has_frontier, check_accepted, check_frontier,
  check_input, validate,
}
use inkbridge.DriveGateway.Input.{
  without_input, with_accepted, accept_pending, accept_drive_input, reject_drive_input, validated,
}
use inkbridge.DriveGateway.Loops.{or_false, for_each-insert, has_frontiers-insert}
use inkbridge.DriveGateway.Pending.{
  KeepsOthers, Within, check_inputs-remove, check_inputs-remove_found, lookup-check_input,
}
use inkbridge.DriveGateway.Valid.{
  Valid, validate-Valid, Valid-validate, check_input-ValidInput, has_frontier-lookup,
  frontier-bound,
}

module _ (cp : DriveGatewayCheckpoint) (e : String) (p : PendingDriveInput) where
  abbrev pub accepted_state : DriveGatewayCheckpoint
  accepted_state = with_accepted (without_input cp e) p

  check_input-accepted_state :
      (k : String) (x : PendingDriveInput)
      → (p.drive_file_id == x.drive_file_id) ≡ false
      → check_input cp (k, x) ≡ ok tt
      → check_input accepted_state (k, x) ≡ ok tt
  unfolding check_input binding_for_file with_accepted without_input
  check_input-accepted_state k x elsewhere h =
      let same_frontier : Map.lookup x.drive_file_id (accepted_state).file_observed_frontiers
          ≡ Map.lookup x.drive_file_id cp.file_observed_frontiers =
        rw
          (
            Map.lookup-insert p.drive_file_id x.drive_file_id p.proposed_frontier
                cp.file_observed_frontiers,
            elsewhere,
          )
          refl in
      elim (Option-cases (binding_for_file cp x.drive_file_id)) [
        | inl missing ↦ cc (rw (check_input, missing) at h)
        | inr (binding, bound) ↦
            rw (check_input, bound, has_frontier, same_frontier)
              (rw (check_input, bound, has_frontier) at h)
      ]

  accepted_state-KeepsOthers : KeepsOthers cp accepted_state p.drive_file_id
  unfolding with_accepted without_input
  accepted_state-KeepsOthers = record { events = refl; inputs = check_input-accepted_state }

  accepted_state-Valid :
      (v : Valid cp) → Map.lookup e cp.pending_drive_inputs ≡ some p → Valid accepted_state
  unfolding with_accepted without_input check_accepted check_frontier check_output check_delivery
  accepted_state-Valid v found =
      let input =
        check_input-ValidInput cp e p
          (lookup-check_input cp e p cp.pending_drive_inputs [] v.changes found) in
      let observed =
        has_frontier-lookup cp.file_observed_frontiers p.drive_file_id p.previous_frontier
          input.at_frontier in
      let bound = frontier-bound cp v p.drive_file_id p.previous_frontier observed in
      record {
        all_file_ids = v.all_file_ids;
        schema = v.schema;
        bindings = v.bindings;
        reservations = v.reservations;
        deliveries = v.deliveries;
        contents =
            for_each-insert (check_accepted v.all_file_ids) p.drive_file_id p.content_sha256
              cp.accepted_file_content_sha256 (rw (check_accepted, bound, input.hash) refl)
              v.contents;
        observed =
            has_frontiers-insert cp.file_observed_frontiers p.drive_file_id p.proposed_frontier
              v.all_file_ids v.observed;
        frontiers =
            for_each-insert (check_frontier v.all_file_ids) p.drive_file_id p.proposed_frontier
              cp.file_observed_frontiers (rw (check_frontier, bound) refl) v.frontiers;
        changes =
            check_inputs-remove_found cp accepted_state e p cp.pending_drive_inputs []
              accepted_state-KeepsOthers v.changes found;
      }

-- The state after an input has been accepted, at a file and an event.
pub record Accepted (cp cp' : DriveGatewayCheckpoint) (e : String) (p : PendingDriveInput)
    (file event : String) : Type 0 where
  pub valid : validate cp' ≡ ok tt
  pub frontier : Map.lookup file cp'.file_observed_frontiers ≡ (
      if p.drive_file_id == file
      then some p.proposed_frontier
      else Map.lookup file cp.file_observed_frontiers)
  pub content : Map.lookup file cp'.accepted_file_content_sha256 ≡ (
      if p.drive_file_id == file
      then some p.content_sha256
      else Map.lookup file cp.accepted_file_content_sha256)
  pub pending :
      Map.lookup event cp'.pending_drive_inputs
      ≡ (if e == event then none else Map.lookup event cp.pending_drive_inputs)
  pub previous : Map.lookup p.drive_file_id cp.file_observed_frontiers ≡ some p.previous_frontier
  pub advances : revision_of p.previous_frontier p.source < revision_of p.proposed_frontier p.source
  pub other_side :
      revision_of p.proposed_frontier (other p.source)
      ≡ revision_of p.previous_frontier (other p.source)

not_le : (a b : ℕ) → leb a b ≡ false → b < a
not_le a b h = ground arith

not_different : (a b : ℕ) → not (eqb a b) ≡ false → a ≡ b
not_different a b h = ground arith

-- A pending input of a valid checkpoint can always be accepted: the result is a success and leaves a
-- valid checkpoint, in which the file of the input has the proposed frontier and the content of the
-- input, every other file what it had, and every other pending input is still there. The frontier moves
-- forward on the side of the input, from the one that the file had, and stays on the other side.
pub accept_drive_input-Accepted :
    (cp : DriveGatewayCheckpoint) (e : String) (p : PendingDriveInput) (file event : String)
    → validate cp ≡ ok tt
    → Map.lookup e cp.pending_drive_inputs ≡ some p
    → (cp' : DriveGatewayCheckpoint) × (accept_drive_input cp e ≡ (ok tt, cp'))
      × Accepted cp cp' e p file event
unfolding accept_drive_input accept_pending validated with_accepted without_input
accept_drive_input-Accepted cp e p file event valid found =
    let v = validate-Valid cp valid in
    let input =
      check_input-ValidInput cp e p
        (lookup-check_input cp e p cp.pending_drive_inputs [] v.changes found) in
    let still = Valid-validate (accepted_state cp e p) (accepted_state-Valid cp e p v found) in
    let split =
      or_false
        (leb (revision_of p.proposed_frontier p.source) (revision_of p.previous_frontier p.source))
        _ input.proposal in
    (
      accepted_state cp e p,
      rw (accept_drive_input, valid, found, accept_pending, input.at_frontier, validated, still)
          refl,
      record {
        valid = still;
        frontier =
            Map.lookup-insert p.drive_file_id file p.proposed_frontier cp.file_observed_frontiers;
        content =
            Map.lookup-insert p.drive_file_id file p.content_sha256 cp.accepted_file_content_sha256;
        pending = Map.lookup-remove e event cp.pending_drive_inputs;
        previous =
            has_frontier-lookup cp.file_observed_frontiers p.drive_file_id p.previous_frontier
              input.at_frontier;
        advances =
            not_le (revision_of p.proposed_frontier p.source)
              (revision_of p.previous_frontier p.source) split.0;
        other_side =
            not_different (revision_of p.proposed_frontier (other p.source))
              (revision_of p.previous_frontier (other p.source)) split.1;
      },
    )

without_input-Valid :
    (cp : DriveGatewayCheckpoint) (e : String) → Valid cp → Valid (without_input cp e)
unfolding without_input Within check_input check_output check_delivery
without_input-Valid cp e v = record {
  all_file_ids = v.all_file_ids;
  schema = v.schema;
  bindings = v.bindings;
  reservations = v.reservations;
  deliveries = v.deliveries;
  contents = v.contents;
  observed = v.observed;
  frontiers = v.frontiers;
  changes =
      check_inputs-remove cp (without_input cp e) e cp.pending_drive_inputs [] []
        (record { events = refl; inputs = λ k x outside h. h }) (λ f outside. outside) v.changes;
}

-- On a valid checkpoint a rejection is a success and leaves a valid checkpoint, in which the pending
-- inputs are those before, without the rejected one.
pub reject_drive_input-ok :
    (cp : DriveGatewayCheckpoint) (e event : String)
    → validate cp ≡ ok tt
    → (cp' : DriveGatewayCheckpoint) × (reject_drive_input cp e ≡ (ok tt, cp'))
      × (validate cp' ≡ ok tt)
      × (Map.lookup event cp'.pending_drive_inputs
          ≡ (if e == event then none else Map.lookup event cp.pending_drive_inputs))
unfolding reject_drive_input validated without_input
reject_drive_input-ok cp e event valid =
    let still =
      Valid-validate (without_input cp e) (without_input-Valid cp e (validate-Valid cp valid)) in
    (
      without_input cp e,
      rw (reject_drive_input, valid, validated, still) refl,
      still,
      Map.lookup-remove e event cp.pending_drive_inputs,
    )
