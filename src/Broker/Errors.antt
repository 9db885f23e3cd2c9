-- ===== src/Broker/Errors.antt =====
-- `BrokerError` of inkbridge-broker/src/broker.rs. A message that the code formats is modelled by the
-- check that failed, a `Reason`; a message that another crate returned is kept.
use inkbridge.Prelude.{String, Option}
use inkbridge.Prelude.Fallible.{Result}
use inkbridge.Broker.Storage.{CommitError}

pub data Reason : Type 0 where
  unreadable_original empty_original blank_file_name document_id_collision : Reason
  event_schema blank_event_field source_hash_mismatch not_newer_than_base : Reason
  revision_overflow not_next_revision : Reason
  manifest_json manifest_schema manifest_page_count manifest_stroke : Reason
  manifest_duplicate_delete manifest_duplicate_upsert manifest_not_current : Reason
  export_document export_base export_page : Reason
  state_document state_schema original_changed original_unreadable original_empty : Reason
  evidence_changed : Reason
  resolution_schema blank_resolution_field resolution_reused already_resolved : Reason
  stale_analysis not_active input_changed alternate_payload : Reason
  earlier_conflict missing_predecessor unsupported_set : Reason
  conflict_json conflict_schema conflict_page_count conflict_stroke : Reason
  conflict_unknown_delete conflict_unknown_update : Reason
  conflict_duplicate_delete conflict_duplicate_upsert : Reason

pub data BrokerError : Type 0 where
  invalid_event : Reason → BrokerError
  missing_object : (path : String) → BrokerError
  corrupt_state : Reason → BrokerError
  corrupt_json : String → BrokerError
  conversion : String → BrokerError
  conversion_refused : Reason → BrokerError
  stale_destination :
      (path : String) (expected_hash : Option String) (actual_hash : Option String) → BrokerError
  conditional_write : CommitError → BrokerError
  storage : String → BrokerError

abbrev pub Fallible : Type 0 → Type 0
Fallible A = Result BrokerError A
