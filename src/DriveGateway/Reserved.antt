-- ===== src/DriveGateway/Reserved.antt =====
-- The loop of `DriveGatewayCheckpoint::validate` of inkbridge-drive-gateway/src/model.rs over the pending
-- inputs, when one is added.
use inkbridge.Prelude.{
  false, not, ◌≡◌, refl, sym, ◌∙◌, inl, inr, Bool-cases, none, String, List, [], ◌∷◌, ◌==◌,
  string_key,
}
use inkbridge.Prelude.Fallible.{ok}
use inkbridge.Prelude.Map
use inkbridge.Prelude.Set
use inkbridge.DriveGateway.Model.{DriveGatewayCheckpoint, PendingDriveInput}
use inkbridge.DriveGateway.Checkpoint.{check_input, check_inputs}
use inkbridge.DriveGateway.Input.{find_pending}
use inkbridge.DriveGateway.Loops.{or_false}
use inkbridge.DriveGateway.Pending.{check_inputs-Checked, Checked-check_inputs, differ}

-- What a changed checkpoint has to keep.
pub record Extends (cp cp' : DriveGatewayCheckpoint) : Type 0 where
  pub events :
      (k : String)
      → not (Set.contains k cp.processed_drive_events) ≡ false
      → not (Set.contains k cp'.processed_drive_events) ≡ false
  pub inputs : (k : String) (x : PendingDriveInput) → check_input cp (k, x) ≡ check_input cp' (k, x)

-- The files of `seen` are those of `all` and at most `f`.
pub Adds : (f : String) (all seen : List String) → Type 0
Adds f all seen =
    (g : String) → (f == g) ≡ false → Set.contains g all ≡ false → Set.contains g seen ≡ false

Adds-insert :
    (f x : String) (all seen : List String)
    → Adds f all seen
    → Adds f (Set.insert x all) (Set.insert x seen)
unfolding Adds
Adds-insert f x all seen adds g other outside =
    let split =
      or_false (x == g) (Set.contains g all) (sym (Set.contains-insert x g all) ∙ outside) in
    Set.contains-insert x g seen ∙ rw (split.0, adds g other split.1) refl

find_pending-none :
    (f k : String) (x : PendingDriveInput) (m : List (String × PendingDriveInput))
    → find_pending f ((k, x) ∷ m) ≡ none
    → ((x.drive_file_id == f) ≡ false) × (find_pending f m ≡ none)
unfolding find_pending
find_pending-none f k x m h = elim (Bool-cases (x.drive_file_id == f)) [
  | inl e ↦ cc (rw e at h)
  | inr e ↦ (e, rw e at h)
]

module _ (cp cp' : DriveGatewayCheckpoint) (extends : Extends cp cp') (f : String) where
  -- The inputs of other files are still valid beside `f`.
  check_inputs-beside :
      (m : List (String × PendingDriveInput)) (all seen : List String)
      → find_pending f m ≡ none
      → Adds f all seen
      → check_inputs cp m all ≡ ok tt
      → check_inputs cp' m seen ≡ ok tt
  unfolding check_inputs Adds
  check_inputs-beside [] all seen alone adds h = refl
  check_inputs-beside ((k, x) ∷ m) all seen alone adds h =
      let c = check_inputs-Checked cp k x m all h in
      let split = find_pending-none f k x m alone in
      Checked-check_inputs cp' k x m seen (record {
        key_matches = c.key_matches;
        processed = extends.events k c.processed;
        new_file = adds x.drive_file_id (differ x.drive_file_id f split.0) c.new_file;
        checked = sym (extends.inputs k x) ∙ c.checked;
        others =
            check_inputs-beside m (Set.insert x.drive_file_id all) (Set.insert x.drive_file_id seen)
              split.1 (Adds-insert f x.drive_file_id all seen adds) c.others;
      })

Adds-self : (f x : String) (seen : List String) → Adds f (Set.insert x seen) (Set.insert f seen)
unfolding Adds
Adds-self f x seen g elsewhere outside =
    Set.contains-insert f g seen
    ∙ rw
        (
          elsewhere,
          (or_false (x == g) (Set.contains g seen)
              (sym (Set.contains-insert x g seen) ∙ outside)).1,
        )
        refl

Adds-only : (f : String) (seen : List String) → Adds f seen (Set.insert f seen)
unfolding Adds
Adds-only f seen g elsewhere outside = Set.contains-insert f g seen ∙ rw (elsewhere, outside) refl

-- An input that may be added: it is processed, its file is bound to it, and no other input has its file.
pub record Addable (cp' : DriveGatewayCheckpoint) (e : String) (p : PendingDriveInput)
    : Type 0 where
  pub key_matches : not (e == p.drive_event_id) ≡ false
  pub processed : not (Set.contains e cp'.processed_drive_events) ≡ false
  pub checked : check_input cp' (e, p) ≡ ok tt

module _ (cp cp' : DriveGatewayCheckpoint) (extends : Extends cp cp') (e : String)
    (p : PendingDriveInput) (addable : Addable cp' e p) where
  added :
      (m : List (String × PendingDriveInput)) (seen : List String)
      → Set.contains p.drive_file_id seen ≡ false
      → check_inputs cp' m (Set.insert p.drive_file_id seen) ≡ ok tt
      → check_inputs cp' ((e, p) ∷ m) seen ≡ ok tt
  added m seen fresh rest = Checked-check_inputs cp' e p m seen (record {
    key_matches = addable.key_matches;
    processed = addable.processed;
    new_file = fresh;
    checked = addable.checked;
    others = rest;
  })

  pub check_inputs-insert :
      (m : List (String × PendingDriveInput)) (seen : List String)
      → find_pending p.drive_file_id m ≡ none
      → Set.contains p.drive_file_id seen ≡ false
      → check_inputs cp m seen ≡ ok tt
      → check_inputs cp' (Map.insert e p m) seen ≡ ok tt
  unfolding check_inputs Adds Map.insert
  check_inputs-insert [] seen alone fresh h = added [] seen fresh refl
  check_inputs-insert ((k, x) ∷ m) seen alone fresh h =
      let f = p.drive_file_id in
      let c = check_inputs-Checked cp k x m seen h in
      let split = find_pending-none f k x m alone in
      elim (Bool-cases (k == e)) [
        | inl here ↦ rw here (
            added m seen fresh (
              check_inputs-beside cp cp' extends f m (Set.insert x.drive_file_id seen)
                (Set.insert f seen) split.1 (Adds-self f x.drive_file_id seen) c.others))
        | inr there ↦ elim (Bool-cases (string_key.lt e k)) [
          | inl before ↦
              rw (there, before)
                (added ((k, x) ∷ m) seen fresh (
                  check_inputs-beside cp cp' extends f ((k, x) ∷ m) seen (Set.insert f seen) alone
                    (Adds-only f seen) h))
          | inr after ↦
              rw (there, after)
                (Checked-check_inputs cp' k x (Map.insert e p m) seen (record {
                  key_matches = c.key_matches;
                  processed = extends.events k c.processed;
                  new_file = c.new_file;
                  checked = sym (extends.inputs k x) ∙ c.checked;
                  others =
                      check_inputs-insert m (Set.insert x.drive_file_id seen) split.1
                        (Set.contains-insert x.drive_file_id f seen ∙ rw (split.0, fresh) refl)
                        c.others;
                }))
        ]
      ]
