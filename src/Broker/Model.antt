-- ===== src/Broker/Model.antt =====
-- inkbridge-broker/src/model.rs, with the types of inkbridge-convert/src/model.rs and
-- inkbridge-convert/src/baseline.rs that it holds. A u32, u64 or usize is a native number, an i64 an
-- integer, and an f64 its 64 bits.
use inkbridge.Prelude.{ℕ, ◌≡◌, ◌↔◌, Bool, true, false, ◌&&◌, List, Option, String, arith, Key, eqb}
use inkbridge.Prelude.Int.{ℤ}

abbrev pub Bytes : Type 0
Bytes = List ℕ

abbrev pub F64 : Type 0
F64 = ℕ

abbrev pub broker_producer : String
broker_producer = "inkbridge-broker"

abbrev pub state_schema_version : ℕ
state_schema_version = 1

abbrev pub event_schema_version : ℕ
event_schema_version = 1

-- inkbridge-convert/src/model.rs
pub record NativeStyle : Type 0 where
  pub layer_num : ℤ
  pub thickness : ℤ
  pub pen_color : ℤ
  pub pen_type : ℤ

pub record Sample : Type 0 where
  pub x : F64
  pub y : F64
  pub pressure : F64

pub record StrokeSnapshot : Type 0 where
  pub source_uuid : String
  pub origin : String
  pub page_index : ℕ
  pub native_style : NativeStyle
  pub samples : List Sample
  pub geometry_fingerprint : String

pub data Operation : Type 0 where
  upsert_stroke :
      (source_uuid : String) (page_index : ℕ) (before : Option StrokeSnapshot)
      (after : StrokeSnapshot)
      → Operation
  delete_stroke : (source_uuid : String) (page_index : ℕ) (before : StrokeSnapshot) → Operation

pub record DocumentIdentity : Type 0 where
  pub source_file_name : String
  pub target_file_names : List String
  pub page_count : ℕ
  pub pdf_sha256 : String

pub record Summary : Type 0 where
  pub upserted : ℕ
  pub deleted : ℕ
  pub unchanged : ℕ
  pub skipped : ℕ

pub record Manifest : Type 0 where
  pub schema_version : ℕ
  pub manifest_id : String
  pub source : String
  pub document : DocumentIdentity
  pub pdf_to_supernote_normalized_y_offset : F64
  pub operations : List Operation
  pub summary : Summary

-- inkbridge-convert/src/baseline.rs
pub record BaselinePage : Type 0 where
  pub page_index : ℕ
  pub strokes : List StrokeSnapshot

-- inkbridge-broker/src/model.rs
pub data DeviceSide : Type 0 where
  boox supernote : DeviceSide

pub data DevicePayloadKind : Type 0 where
  device_view boox_operation_manifest : DevicePayloadKind

unfoldable pub other : DeviceSide → DeviceSide
other boox = supernote
other supernote = boox

abbrev side_eq : DeviceSide → DeviceSide → Bool
side_eq boox boox = true
side_eq supernote supernote = true
side_eq _ _ = false

pub side_iff : (a b : DeviceSide) → (side_eq a b ≡ true) ↔ (a ≡ b)
side_iff a b = ground arith

instance abbrev pub side_key : Key DeviceSide
side_key = record { beq = side_eq; beq_iff = side_iff; lt = λ a b. false }

abbrev kind_eq : DevicePayloadKind → DevicePayloadKind → Bool
kind_eq device_view device_view = true
kind_eq boox_operation_manifest boox_operation_manifest = true
kind_eq _ _ = false

pub kind_iff : (a b : DevicePayloadKind) → (kind_eq a b ≡ true) ↔ (a ≡ b)
kind_iff a b = ground arith

instance abbrev pub kind_key : Key DevicePayloadKind
kind_key = record { beq = kind_eq; beq_iff = kind_iff; lt = λ a b. false }

pub record RevisionPair : Type 0 where
  pub boox_revision : ℕ
  pub supernote_revision : ℕ

abbrev pub no_revisions : RevisionPair
no_revisions = record { boox_revision = 0; supernote_revision = 0 }

-- `RevisionPair::get` and `RevisionPair::set`.
unfoldable pub revision_of : RevisionPair → DeviceSide → ℕ
revision_of r boox = r.boox_revision
revision_of r supernote = r.supernote_revision

unfoldable pub set_revision : RevisionPair → DeviceSide → ℕ → RevisionPair
set_revision r boox n = record r { boox_revision = n }
set_revision r supernote n = record r { supernote_revision = n }

pub revisions_iff :
    (a b : RevisionPair)
    → ((eqb a.boox_revision b.boox_revision && eqb a.supernote_revision b.supernote_revision)
        ≡ true)
      ↔ (a ≡ b)
revisions_iff a b = ground arith

instance abbrev pub revisions_key : Key RevisionPair
revisions_key = record {
  beq = λ a b. eqb a.boox_revision b.boox_revision && eqb a.supernote_revision b.supernote_revision;
  beq_iff = revisions_iff;
  lt = λ a b. false;
}

-- `BaselineRevisions` of inkbridge-convert/src/baseline.rs has the two fields of a `RevisionPair`.
pub record BaselineExport : Type 0 where
  pub source_file_name : Option String
  pub document_id : Option String
  pub based_on : Option RevisionPair
  pub pages : List BaselinePage

pub record BrokerOutputMarker : Type 0 where
  pub producer : String
  pub event_id : String
  pub document_id : String
  pub source_revisions : RevisionPair

pub record StorageEvent : Type 0 where
  pub schema_version : ℕ
  pub event_id : String
  pub document_id : String
  pub source : DeviceSide
  pub object_path : String
  pub source_generation : ℕ
  pub source_revision : ℕ
  pub based_on : RevisionPair
  pub content_sha256 : String
  pub payload_kind : DevicePayloadKind
  pub broker_output : Option BrokerOutputMarker

pub record DeviceRevision : Type 0 where
  pub revision : ℕ
  pub content_sha256 : String
  pub source_generation : ℕ
  pub source_object_path : String
  pub accepted_object_path : String
  pub source_file_name : Option String

pub record Tombstone : Type 0 where
  pub deleted_by : DeviceSide
  pub deleted_at_revision : ℕ
  pub event_id : String

pub record CanonicalStroke : Type 0 where
  pub stroke_id : String
  pub snapshot : StrokeSnapshot
  pub last_modified_by : DeviceSide
  pub source_revisions : RevisionPair
  pub tombstone : Option Tombstone

pub record GeneratedView : Type 0 where
  pub object_path : String
  pub content_sha256 : String
  pub source_revisions : RevisionPair
  pub event_id : String

pub record PreservedInput : Type 0 where
  pub event_id : String
  pub source : DeviceSide
  pub object_path : String
  pub payload_kind : DevicePayloadKind
  pub preserved_path : String
  pub competing_preserved_paths : List String
  pub source_generation : ℕ
  pub source_revision : ℕ
  pub content_sha256 : String
  pub based_on : RevisionPair
  pub current_revisions : RevisionPair

pub data ConflictResolutionStrategy : Type 0 where
  keep_current accept_incoming merge_preserving_current : ConflictResolutionStrategy

pub record ConflictResolutionRecord : Type 0 where
  pub resolution_id : String
  pub conflict_event_id : String
  pub strategy : ConflictResolutionStrategy
  pub superseded : Bool
  pub source : DeviceSide
  pub previous_revisions : RevisionPair
  pub resulting_revisions : RevisionPair
  pub applied_stroke_ids : List String
  pub preserved_current_stroke_ids : List String
  pub marker_path : String

pub record ConflictSummary : Type 0 where
  pub document_id : String
  pub conflict_event_id : String
  pub source : DeviceSide
  pub source_revision : ℕ
  pub based_on : RevisionPair
  pub current_revisions : RevisionPair
  pub state_revision : ℕ
  pub payload_kind : DevicePayloadKind

pub record CanonicalDocumentState : Type 0 where
  pub schema_version : ℕ
  pub document_id : String
  pub original_object_path : String
  pub original_pdf_sha256 : String
  pub original_file_name : String
  pub original_page_count : ℕ
  pub state_revision : ℕ
  pub boox_device : DeviceRevision
  pub supernote_device : DeviceRevision
  pub last_common_revisions : RevisionPair
  pub processed_event_ids : List String
  pub strokes : List (String × CanonicalStroke)
  pub source_generations : List (String × ℕ)
  pub generated_views : List (String × GeneratedView)
  pub conflicts : List PreservedInput
  pub resolved_conflicts : List (String × ConflictResolutionRecord)

unfoldable pub revisions : CanonicalDocumentState → RevisionPair
revisions st = record {
  boox_revision = st.boox_device.revision;
  supernote_revision = st.supernote_device.revision;
}

unfoldable pub device : CanonicalDocumentState → DeviceSide → DeviceRevision
device st boox = st.boox_device
device st supernote = st.supernote_device

-- A write through `device_mut`.
unfoldable pub set_device :
    CanonicalDocumentState → DeviceSide → DeviceRevision → CanonicalDocumentState
set_device st boox d = record st { boox_device = d }
set_device st supernote d = record st { supernote_device = d }

pub data ProcessOutcome : Type 0 where
  applied :
      (document_id event_id destination_path : String) (destination_generation : ℕ)
      (source_revisions : RevisionPair)
      → ProcessOutcome
  duplicate : (document_id event_id : String) → ProcessOutcome
  ignored_broker_output : (document_id event_id : String) → ProcessOutcome
  ignored_stale_source : (document_id event_id : String) → ProcessOutcome
  conflict :
      (document_id event_id preserved_path : String) (current_revisions based_on : RevisionPair)
      → ProcessOutcome
