-- ===== src/DriveGateway/Equality.antt =====
-- The derived equalities of inkbridge-drive-gateway/src/model.rs decide equality.
use inkbridge.Prelude.{
  Bool, true, ◌&&◌, ◌≡◌, refl, arith, eqb, ◌==◌, string_key, Key, ==_iff, eqb_iff, list_key,
  pair_key,
}
use inkbridge.Broker.Model.{side_key, revisions_key}
use inkbridge.DriveGateway.Model.{DeliveredDriveOutput, delivered_eq, PendingDriveInput, input_eq}

pub split_and : (a b : Bool) → (a && b) ≡ true → (a ≡ true) × (b ≡ true)
split_and a b h = ground arith

pub same {ℓ} : {A : Type ℓ} ⦃e : Key A⦄ (a b : A) → (a == b) ≡ true → a ≡ b
same a b = (==_iff a b).0

pub ==_refl {ℓ} : {A : Type ℓ} ⦃e : Key A⦄ (a : A) → (a == a) ≡ true
==_refl a = (==_iff a a).1 refl

pub delivered_eq-eq : (a b : DeliveredDriveOutput) → delivered_eq a b ≡ true → a ≡ b
delivered_eq-eq a b h =
    let (h₁, t₁) = split_and (a.delivery_id == b.delivery_id) _ h in
    let (h₂, t₂) = split_and (a.drive_file_id == b.drive_file_id) _ t₁ in
    let (h₃, t₃) = split_and (eqb a.drive_file_version b.drive_file_version) _ t₂ in
    let (h₄, t₄) = split_and (a.document_id == b.document_id) _ t₃ in
    let (h₅, t₅) = split_and (a.target == b.target) _ t₄ in
    let (h₆, h₇) = split_and (a.content_sha256 == b.content_sha256) _ t₅ in
    λ i. record {
      delivery_id = same a.delivery_id b.delivery_id h₁ i;
      drive_file_id = same a.drive_file_id b.drive_file_id h₂ i;
      drive_file_version = (eqb_iff a.drive_file_version b.drive_file_version).0 h₃ i;
      document_id = same a.document_id b.document_id h₄ i;
      target = same a.target b.target h₅ i;
      content_sha256 = same a.content_sha256 b.content_sha256 h₆ i;
      source_revisions = same a.source_revisions b.source_revisions h₇ i;
    }

pub delivered_eq_refl : (a : DeliveredDriveOutput) → delivered_eq a a ≡ true
delivered_eq_refl a =
    rw
      (
        ==_refl a.delivery_id,
        ==_refl a.drive_file_id,
        (eqb_iff a.drive_file_version a.drive_file_version).1 refl,
        ==_refl a.document_id,
        ==_refl a.target,
        ==_refl a.content_sha256,
        ==_refl a.source_revisions,
      )
      refl

pub input_eq_refl : (a : PendingDriveInput) → input_eq a a ≡ true
input_eq_refl a =
    rw
      (
        ==_refl a.drive_event_id,
        ==_refl a.drive_file_id,
        ==_refl a.gcs_object_path,
        (eqb_iff a.gcs_generation a.gcs_generation).1 refl,
        ==_refl a.document_id,
        ==_refl a.source,
        ==_refl a.content_sha256,
        ==_refl a.previous_frontier,
        ==_refl a.proposed_frontier,
      )
      refl
