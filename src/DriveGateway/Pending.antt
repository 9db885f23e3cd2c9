-- ===== src/DriveGateway/Pending.antt =====
-- The loop of `DriveGatewayCheckpoint::validate` of inkbridge-drive-gateway/src/model.rs over the pending
-- inputs, when one is removed.
use inkbridge.DriveGateway.Loops.{refused_not, or_false}
use inkbridge.Prelude.{
  false, not, ◌≡◌, refl, sym, ◌∙◌, ap, some, String, List, [], ◌∷◌, ◌==◌, string_key, inl, inr,
  Bool-cases, ==_iff, subst,
}
use inkbridge.Prelude.Fallible.{ok, refuse_if, >>=-eq-ok}
use inkbridge.Prelude.Map
use inkbridge.Prelude.Set
use inkbridge.DriveGateway.Model.{
  DriveGatewayCheckpoint, PendingDriveInput, input_key, input_unprocessed, input_file_twice,
}
use inkbridge.DriveGateway.Checkpoint.{check_input, check_inputs}
use inkbridge.DriveGateway.Equality.{same}

-- The checks of one pending input that are done.
pub record Checked (cp : DriveGatewayCheckpoint) (k : String) (x : PendingDriveInput)
    (m : List (String × PendingDriveInput)) (seen : List String) : Type 0 where
  pub key_matches : not (k == x.drive_event_id) ≡ false
  pub processed : not (Set.contains k cp.processed_drive_events) ≡ false
  pub new_file : Set.contains x.drive_file_id seen ≡ false
  pub checked : check_input cp (k, x) ≡ ok tt
  pub others : check_inputs cp m (Set.insert x.drive_file_id seen) ≡ ok tt

pub check_inputs-Checked :
    (cp : DriveGatewayCheckpoint) (k : String) (x : PendingDriveInput)
    (m : List (String × PendingDriveInput)) (seen : List String)
    → check_inputs cp ((k, x) ∷ m) seen ≡ ok tt
    → Checked cp k x m seen
unfolding check_inputs
check_inputs-Checked cp k x m seen h =
    let (_, a, h₁) = >>=-eq-ok (refuse_if (not (k == x.drive_event_id)) input_key) _ h in
    let (_, b, h₂) =
      >>=-eq-ok (refuse_if (not (Set.contains k cp.processed_drive_events)) input_unprocessed) _
        h₁ in
    let (_, c, h₃) =
      >>=-eq-ok (refuse_if (Set.contains x.drive_file_id seen) input_file_twice) _ h₂ in
    let (_, d, h₄) = >>=-eq-ok (check_input cp (k, x)) _ h₃ in
    record {
      key_matches = refused_not (not (k == x.drive_event_id)) input_key a;
      processed = refused_not (not (Set.contains k cp.processed_drive_events)) input_unprocessed b;
      new_file = refused_not (Set.contains x.drive_file_id seen) input_file_twice c;
      checked = d;
      others = h₄;
    }

pub Checked-check_inputs :
    (cp : DriveGatewayCheckpoint) (k : String) (x : PendingDriveInput)
    (m : List (String × PendingDriveInput)) (seen : List String)
    → Checked cp k x m seen
    → check_inputs cp ((k, x) ∷ m) seen ≡ ok tt
unfolding check_inputs
Checked-check_inputs cp k x m seen c =
    rw (check_inputs, c.key_matches, c.processed, c.new_file, c.checked) c.others

-- The files of `seen` are among those of `all`.
unfoldable pub Within : (seen all : List String) → Type 0
Within seen all = (f : String) → Set.contains f all ≡ false → Set.contains f seen ≡ false

Within-insert :
    (g : String) (seen all : List String)
    → Within seen all
    → Within (Set.insert g seen) (Set.insert g all)
unfolding Within
Within-insert g seen all within f outside =
    let split =
      or_false (g == f) (Set.contains f all) (sym (Set.contains-insert g f all) ∙ outside) in
    Set.contains-insert g f seen ∙ rw (split.0, within f split.1) refl

Within-more :
    (g : String) (seen all : List String) → Within seen all → Within seen (Set.insert g all)
unfolding Within
Within-more g seen all within f outside =
    within f
      ((or_false (g == f) (Set.contains f all) (sym (Set.contains-insert g f all) ∙ outside)).1)

-- What a changed checkpoint has to keep for the pending inputs whose file is not in `seen`.
pub record Keeps (cp cp' : DriveGatewayCheckpoint) (seen : List String) : Type 0 where
  pub events : cp.processed_drive_events ≡ cp'.processed_drive_events
  pub inputs :
      (k : String) (x : PendingDriveInput)
      → Set.contains x.drive_file_id seen ≡ false
      → check_input cp (k, x) ≡ ok tt
      → check_input cp' (k, x) ≡ ok tt

Keeps-insert :
    (cp cp' : DriveGatewayCheckpoint) (g : String) (seen : List String)
    → Keeps cp cp' seen
    → Keeps cp cp' (Set.insert g seen)
Keeps-insert cp cp' g seen keeps = record {
  events = keeps.events;
  inputs = λ k x outside. keeps.inputs k x (
      (or_false (g == x.drive_file_id) (Set.contains x.drive_file_id seen)
        (sym (Set.contains-insert g x.drive_file_id seen) ∙ outside)).1);
}

-- The pending inputs but one, in a changed checkpoint.
pub check_inputs-remove :
    (cp cp' : DriveGatewayCheckpoint) (e : String) (m : List (String × PendingDriveInput))
    (seen all : List String)
    → Keeps cp cp' all
    → Within seen all
    → check_inputs cp m all ≡ ok tt
    → check_inputs cp' (Map.remove e m) seen ≡ ok tt
unfolding check_inputs Within Map.remove
check_inputs-remove cp cp' e [] seen all keeps within h = refl
check_inputs-remove cp cp' e ((k, x) ∷ m) seen all keeps within h =
    let c = check_inputs-Checked cp k x m all h in
    let f = x.drive_file_id in
    elim (Bool-cases (k == e)) [
      | inl here ↦ rw here (
          check_inputs-remove cp cp' e m seen (Set.insert f all) (Keeps-insert cp cp' f all keeps)
            (Within-more f seen all within) c.others)
      | inr there ↦
          let rest =
            check_inputs-remove cp cp' e m (Set.insert f seen) (Set.insert f all)
              (Keeps-insert cp cp' f all keeps) (Within-insert f seen all within) c.others in
          rw there (
            Checked-check_inputs cp' k x (Map.remove e m) seen (record {
              key_matches = c.key_matches;
              processed = ap (λ s. not (Set.contains k s)) (sym keeps.events) ∙ c.processed;
              new_file = within f c.new_file;
              checked = keeps.inputs k x c.new_file c.checked;
              others = rest;
            }))
    ]

lookup-new_file :
    (cp : DriveGatewayCheckpoint) (e : String) (p : PendingDriveInput)
    (m : List (String × PendingDriveInput)) (seen : List String)
    → check_inputs cp m seen ≡ ok tt
    → Map.lookup e m ≡ some p
    → Set.contains p.drive_file_id seen ≡ false
unfolding check_inputs Map.lookup
lookup-new_file cp e p [] seen h found = cc
lookup-new_file cp e p ((k, x) ∷ m) seen h found =
    let c = check_inputs-Checked cp k x m seen h in
    elim (Bool-cases (k == e)) [
      | inl here ↦ let is_value : some x ≡ some p = rw here at found in cc (c.new_file, is_value)
      | inr there ↦
          let after =
            lookup-new_file cp e p m (Set.insert x.drive_file_id seen) c.others
              (rw there at found) in
          (or_false (x.drive_file_id == p.drive_file_id) (Set.contains p.drive_file_id seen)
            (sym (Set.contains-insert x.drive_file_id p.drive_file_id seen) ∙ after)).1
    ]

pub differ : (a b : String) → (a == b) ≡ false → (b == a) ≡ false
differ a b h = elim (Bool-cases (b == a)) [
  | inr e ↦ e
  | inl e ↦ cc (h, (==_iff a b).1 (sym (same b a e)))
]

-- What a changed checkpoint has to keep for the pending inputs of the files other than `f`.
pub record KeepsOthers (cp cp' : DriveGatewayCheckpoint) (f : String) : Type 0 where
  pub events : cp.processed_drive_events ≡ cp'.processed_drive_events
  pub inputs :
      (k : String) (x : PendingDriveInput)
      → (f == x.drive_file_id) ≡ false
      → check_input cp (k, x) ≡ ok tt
      → check_input cp' (k, x) ≡ ok tt

KeepsOthers-Keeps :
    (cp cp' : DriveGatewayCheckpoint) (f : String) (seen : List String)
    → KeepsOthers cp cp' f
    → Keeps cp cp' (Set.insert f seen)
KeepsOthers-Keeps cp cp' f seen keeps = record {
  events = keeps.events;
  inputs = λ k x outside. keeps.inputs k x (
      (or_false (f == x.drive_file_id) (Set.contains x.drive_file_id seen)
        (sym (Set.contains-insert f x.drive_file_id seen) ∙ outside)).0);
}

-- The pending inputs but `p`, in a checkpoint that has changed for the file of `p` only.
pub check_inputs-remove_found :
    (cp cp' : DriveGatewayCheckpoint) (e : String) (p : PendingDriveInput)
    (m : List (String × PendingDriveInput)) (seen : List String)
    → KeepsOthers cp cp' p.drive_file_id
    → check_inputs cp m seen ≡ ok tt
    → Map.lookup e m ≡ some p
    → check_inputs cp' (Map.remove e m) seen ≡ ok tt
unfolding check_inputs Within Map.lookup Map.remove
check_inputs-remove_found cp cp' e p [] seen keeps h found = refl
check_inputs-remove_found cp cp' e p ((k, x) ∷ m) seen keeps h found =
    let c = check_inputs-Checked cp k x m seen h in
    let f = x.drive_file_id in
    elim (Bool-cases (k == e)) [
      | inl here ↦
          let is_value : some x ≡ some p = rw here at found in
          let same_file : p.drive_file_id ≡ f = cc is_value in
          rw here (
            check_inputs-remove cp cp' e m seen (Set.insert f seen)
              (KeepsOthers-Keeps cp cp' f seen (subst (KeepsOthers cp cp') same_file keeps))
              (Within-more f seen seen (λ g outside. outside)) c.others)
      | inr there ↦
          let later : Map.lookup e m ≡ some p = rw there at found in
          let rest =
            check_inputs-remove_found cp cp' e p m (Set.insert f seen) keeps c.others later in
          let other_file =
            (or_false (f == p.drive_file_id) (Set.contains p.drive_file_id seen) (
              sym (Set.contains-insert f p.drive_file_id seen)
              ∙ lookup-new_file cp e p m (Set.insert f seen) c.others later)).0 in
          rw there (
            Checked-check_inputs cp' k x (Map.remove e m) seen (record {
              key_matches = c.key_matches;
              processed = ap (λ s. not (Set.contains k s)) (sym keeps.events) ∙ c.processed;
              new_file = c.new_file;
              checked = keeps.inputs k x (differ f p.drive_file_id other_file) c.checked;
              others = rest;
            }))
    ]

pub lookup-check_input :
    (cp : DriveGatewayCheckpoint) (e : String) (p : PendingDriveInput)
    (m : List (String × PendingDriveInput)) (seen : List String)
    → check_inputs cp m seen ≡ ok tt
    → Map.lookup e m ≡ some p
    → check_input cp (e, p) ≡ ok tt
unfolding check_inputs Map.lookup
lookup-check_input cp e p [] seen h found = cc
lookup-check_input cp e p ((k, x) ∷ m) seen h found =
    let c = check_inputs-Checked cp k x m seen h in
    elim (Bool-cases (k == e)) [
      | inl here ↦
          let is_value : some x ≡ some p = rw here at found in
          let is_key = same k e here in cc (c.checked, is_value, is_key)
      | inr there ↦
          lookup-check_input cp e p m (Set.insert x.drive_file_id seen) c.others (rw there at found)
    ]

pub lookup-processed :
    (cp : DriveGatewayCheckpoint) (e : String) (p : PendingDriveInput)
    (m : List (String × PendingDriveInput)) (seen : List String)
    → check_inputs cp m seen ≡ ok tt
    → Map.lookup e m ≡ some p
    → not (Set.contains e cp.processed_drive_events) ≡ false
unfolding check_inputs Map.lookup
lookup-processed cp e p [] seen h found = cc
lookup-processed cp e p ((k, x) ∷ m) seen h found =
    let c = check_inputs-Checked cp k x m seen h in
    elim (Bool-cases (k == e)) [
      | inl here ↦
          ap (λ s. not (Set.contains s cp.processed_drive_events)) (sym (same k e here))
          ∙ c.processed
      | inr there ↦
          lookup-processed cp e p m (Set.insert x.drive_file_id seen) c.others (rw there at found)
    ]
