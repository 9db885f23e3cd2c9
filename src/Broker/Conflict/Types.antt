-- ===== src/Broker/Conflict/Types.antt =====
-- The types of a conflict's resolution: inkbridge-broker/src/model.rs, and the private structs of
-- inkbridge-broker/src/conflict.rs.
use inkbridge.Prelude.{ℕ, ◌≡◌, ◌↔◌, Bool, true, false, List, String, arith, Key}
use inkbridge.Broker.Model.{
  DeviceSide, RevisionPair, Operation, PreservedInput, CanonicalDocumentState,
  ConflictResolutionStrategy, keep_current, accept_incoming, merge_preserving_current,
}
use inkbridge.Broker.Storage.{StoredObject}

abbrev pub resolution_schema_version : ℕ
resolution_schema_version = 1

abbrev strategy_eq : ConflictResolutionStrategy → ConflictResolutionStrategy → Bool
strategy_eq keep_current keep_current = true
strategy_eq accept_incoming accept_incoming = true
strategy_eq merge_preserving_current merge_preserving_current = true
strategy_eq _ _ = false

pub strategy_iff : (a b : ConflictResolutionStrategy) → (strategy_eq a b ≡ true) ↔ (a ≡ b)
strategy_iff a b = ground arith

instance abbrev pub strategy_key : Key ConflictResolutionStrategy
strategy_key = record { beq = strategy_eq; beq_iff = strategy_iff; lt = λ a b. false }

pub data ConflictChangeKind : Type 0 where
  add update delete move : ConflictChangeKind

pub record ConflictStrokeChange : Type 0 where
  pub stroke_id : String
  pub kind : ConflictChangeKind
  pub page_index : ℕ

pub record ConflictAnalysis : Type 0 where
  pub document_id : String
  pub conflict_event_id : String
  pub source : DeviceSide
  pub source_revision : ℕ
  pub based_on : RevisionPair
  pub current_revisions : RevisionPair
  pub state_revision : ℕ
  pub safe_changes : List ConflictStrokeChange
  pub overlapping_changes : List ConflictStrokeChange

pub record ConflictResolutionRequest : Type 0 where
  pub schema_version : ℕ
  pub resolution_id : String
  pub document_id : String
  pub conflict_event_id : String
  pub expected_state_revision : ℕ
  pub expected_current_revisions : RevisionPair
  pub strategy : ConflictResolutionStrategy

pub record GeneratedResolutionOutput : Type 0 where
  pub side : DeviceSide
  pub object_path : String
  pub generation : ℕ

pub data ConflictResolutionOutcome : Type 0 where
  resolved :
      (document_id conflict_event_id resolution_id : String) (strategy : ConflictResolutionStrategy)
      (source_revisions : RevisionPair)
      (applied_stroke_ids preserved_current_stroke_ids : List String)
      (outputs : List GeneratedResolutionOutput)
      → ConflictResolutionOutcome
  superseded :
      (document_id conflict_event_id resolution_id : String) (source_revisions : RevisionPair)
      → ConflictResolutionOutcome
  duplicate :
      (document_id conflict_event_id resolution_id : String) (strategy : ConflictResolutionStrategy)
      → ConflictResolutionOutcome

pub record ConflictContext : Type 0 where
  pub state_object : StoredObject
  pub state : CanonicalDocumentState
  pub conflict : PreservedInput
  pub input : StoredObject

pub record OperationGroup : Type 0 where
  pub change : ConflictStrokeChange
  pub operations : List Operation
  pub safe : Bool
