-- ===== src/Broker/Output.antt =====
-- What inkbridge-broker/src/broker.rs writes beside its data: the metadata of its outputs, the state
-- object, and the guard of a destination; and how it recognises its own outputs.
use inkbridge.Prelude.{
  Bool, false, ◌&&◌, Option, none, some, String, List, [], ◌∷◌, ◌++◌, eqb, not, if◌then◌else◌, ◌==◌,
  string_key,
}
use inkbridge.Prelude.Fallible.{ok, err, ◌>>=◌, ◌>>◌, map_err, refuse_if}
use inkbridge.Prelude.Map
use inkbridge.Prelude.Text.{concat, decimal}
use inkbridge.Broker.Model.{
  Bytes, StorageEvent, BrokerOutputMarker, CanonicalDocumentState, broker_producer,
  state_schema_version,
}
use inkbridge.Broker.Json.{migrate_legacy_conflict_payload_kinds}
use inkbridge.Broker.Storage.{
  StoredObject, GenerationPrecondition, does_not_exist, matches, ConditionalWrite,
}
use inkbridge.Broker.Errors.{Fallible, stale_destination, corrupt_json, corrupt_state, state_schema}
use inkbridge.Broker.External.{External}

abbrev pub Metadata : Type 0
Metadata = List (String × String)

abbrev pub generated_by_key : String
generated_by_key = "inkbridge-generated-by"

abbrev pub generated_event_key : String
generated_event_key = "inkbridge-event-id"

abbrev pub generated_document_key : String
generated_document_key = "inkbridge-document-id"

abbrev pub generated_revisions_key : String
generated_revisions_key = "inkbridge-source-revisions"

abbrev pub generated_content_hash_key : String
generated_content_hash_key = "inkbridge-content-sha256"

-- `BTreeMap::from` of an array.
unfoldable pub from_pairs : Metadata → Metadata
unfolding Map.insert
from_pairs [] = []
from_pairs ((k, v) ∷ ps) = Map.insert k v (from_pairs ps)

unfoldable pub output_metadata : BrokerOutputMarker → String → Metadata
unfolding from_pairs
output_metadata marker hash = from_pairs (
    (generated_by_key, marker.producer)
    ∷ (generated_event_key, marker.event_id)
    ∷ (generated_document_key, marker.document_id)
    ∷ (
      generated_revisions_key,
      concat (
          decimal marker.source_revisions.boox_revision
          ∷ ":"
          ∷ decimal marker.source_revisions.supernote_revision
          ∷ []),
    )
    ∷ (generated_content_hash_key, hash)
    ∷ [])

-- `metadata.get(key) == Some(value)`
abbrev pub has_entry : Metadata → String → String → Bool
has_entry metadata key value = elim (Map.lookup key metadata) [ none ↦ false | some v ↦ v == value ]

unfoldable pub is_broker_output : StorageEvent → Metadata → String → Bool
unfolding Map.lookup
is_broker_output event metadata content_sha256 =
    let envelope_matches : Bool = elim event.broker_output [
      | none ↦ false
      | some marker ↦
          marker.producer == broker_producer
          && (marker.document_id == event.document_id
              && has_entry metadata generated_event_key marker.event_id)
    ] in
    let metadata_matches =
      has_entry metadata generated_by_key broker_producer
      && (has_entry metadata generated_document_key event.document_id
          && has_entry metadata generated_content_hash_key content_sha256) in
    metadata_matches && envelope_matches

unfoldable pub add_newline : Bytes → Bytes
add_newline bytes = bytes ++ 10 ∷ []

module _ (ext : External) where
  unfoldable pub destination_precondition :
      CanonicalDocumentState → String → Option StoredObject → Fallible GenerationPrecondition
  unfolding Map.lookup
  destination_precondition state path current = elim (Map.lookup path state.generated_views) [
    | none ↦ elim current [
      | none ↦ ok does_not_exist
      | some object ↦ err (stale_destination path none (some (ext.sha256_hex object.bytes)))
    ]
    | some previous ↦ elim current [
      | none ↦ err (stale_destination path (some previous.content_sha256) none)
      | some object ↦
          if ext.sha256_hex object.bytes == previous.content_sha256
          then ok (matches object.generation)
          else err (
              stale_destination path (some previous.content_sha256)
                (some (ext.sha256_hex object.bytes)))
    ]
  ]

  unfoldable pub state_write :
      String → CanonicalDocumentState → GenerationPrecondition → Fallible ConditionalWrite
  unfolding from_pairs add_newline
  state_write path state precondition = do
    bytes ← map_err corrupt_json (ext.state_to_json state)
    ok (record {
      path = path;
      bytes = add_newline bytes;
      metadata = from_pairs (
          ("inkbridge-kind", "canonical-state") ∷ (generated_document_key, state.document_id) ∷ []);
      precondition = precondition;
    })

  unfoldable pub decode_state : Bytes → Fallible CanonicalDocumentState
  unfolding migrate_legacy_conflict_payload_kinds
  decode_state bytes = do
    value ← map_err corrupt_json (ext.json_from_slice bytes)
    state ← map_err corrupt_json (ext.state_from_json (migrate_legacy_conflict_payload_kinds value))
    refuse_if (not (eqb state.schema_version state_schema_version)) (corrupt_state state_schema)
    ok state
