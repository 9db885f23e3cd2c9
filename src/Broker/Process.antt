-- ===== src/Broker/Process.antt =====
-- `Broker::process` of inkbridge-broker/src/broker.rs: one storage event against the stored canonical
-- state. Its parts are the child modules: `Mark` (`mark_event_only`), `Preserve`
-- (`preserve_conflict`) and `Accept` (the conversion and the commit of an accepted event).
pub mod Mark
pub mod Preserve
pub mod Accept
pub mod Commits
pub mod Accepted
pub mod Outcome
pub mod Once
pub mod Stale
use inkbridge.Prelude.{
  ℕ, ◌+◌, ◌-◌, ◌^◌, Bool, true, false, not, ◌&&◌, ◌||◌, Option, none, some, String, List, [], ◌∷◌,
  any, leb, ltb, eqb, if◌then◌else◌, ◌==◌, string_key,
}
use inkbridge.Prelude.Fallible.{Result, ok, err, ◌>>=◌, ◌>>◌, map_err, ok_or, refuse_if}
use inkbridge.Prelude.Set
use inkbridge.Prelude.Text.{is_blank}
use inkbridge.Broker.Model.{
  Bytes, StorageEvent, CanonicalDocumentState, ProcessOutcome, duplicate, ignored_broker_output,
  ignored_stale_source, PreservedInput, event_schema_version, revisions, revision_of, device,
  revisions_key, side_key,
}
use inkbridge.Broker.Storage.{StoredObject, BrokerStorage}
use inkbridge.Broker.Errors.{
  BrokerError, Fallible, invalid_event, missing_object, corrupt_state, storage, event_schema,
  blank_event_field, state_document, source_hash_mismatch, not_newer_than_base, revision_overflow,
  not_next_revision,
}
use inkbridge.Broker.External.{External}
use inkbridge.Broker.Paths.{state_path}
use inkbridge.Broker.Output.{is_broker_output, decode_state}
use Mark.{mark_event_only, with_outcome}
use Preserve.{preserve_conflict}
use Accept.{accept}

unfoldable pub validate_event : StorageEvent → Fallible (Unit {0})
validate_event event = do
  refuse_if (not (eqb event.schema_version event_schema_version)) (invalid_event event_schema)
  refuse_if (is_blank event.event_id || (is_blank event.document_id || is_blank event.object_path))
      (invalid_event blank_event_field)
  ok tt

-- `current.get(source).checked_add(1)`
abbrev pub checked_next : ℕ → Option ℕ
checked_next n = if ltb (n + 1) (2 ^ 64) then some (n + 1) else none

-- The event jumps ahead of the next revision, but its predecessor is among the preserved conflicts.
unfoldable pub follows_preserved_predecessor :
    CanonicalDocumentState → StorageEvent → (expected_next : ℕ) → Bool
unfolding revision_of
follows_preserved_predecessor state event expected_next =
    let predecessor = event.source_revision - 1 in
    ltb expected_next event.source_revision
    && (eqb (revision_of event.based_on event.source) predecessor
        && any (λ c. c.source == event.source && eqb c.source_revision predecessor) state.conflicts)

abbrev pub is_stale : Option StoredObject → StorageEvent → Bool
is_stale none event = false
is_stale (some latest) event = ltb event.source_generation latest.generation

module _ {S : Type 0} (st : BrokerStorage S) (ext : External) where
  -- The `else` of `let Some(source) = source`.
  unfoldable pub missing_source :
      S → CanonicalDocumentState → ℕ → StorageEvent → Fallible (ProcessOutcome × S)
  missing_source s state generation event = do
    latest ← map_err storage (st.read s event.object_path)
    let marked = mark_event_only st ext s state (state_path event.document_id) generation event
    if is_stale latest event
        then with_outcome marked (ignored_stale_source event.document_id event.event_id)
        else err (missing_object event.object_path)

  -- A revision that the source's device has already reached.
  unfoldable pub old_revision :
      S → CanonicalDocumentState → ℕ → StorageEvent → Bytes → Fallible (ProcessOutcome × S)
  unfolding device
  old_revision s state generation event bytes =
      let marked = mark_event_only st ext s state (state_path event.document_id) generation event in
      if not (event.content_sha256 == (device state event.source).content_sha256)
      then preserve_conflict st ext s state generation event bytes
      else with_outcome marked (ignored_stale_source event.document_id event.event_id)

  -- A revision past that of the source's device.
  unfoldable pub new_revision :
      S → CanonicalDocumentState → ℕ → StorageEvent → Bytes → Fallible (ProcessOutcome × S)
  unfolding revisions revision_of follows_preserved_predecessor
  new_revision s state generation event bytes = do
    let current = revisions state
    expected_next ←
        ok_or (checked_next (revision_of current event.source)) (invalid_event revision_overflow)
    refuse_if
        (not (eqb event.source_revision expected_next)
          && not (follows_preserved_predecessor state event expected_next))
        (invalid_event not_next_revision)
    if not (event.based_on == current)
        then preserve_conflict st ext s state generation event bytes
        else accept st ext s state generation event bytes

  -- From `is_broker_output` on, with the event's hash replaced by that of the source.
  unfoldable pub process_source :
      S → CanonicalDocumentState → ℕ → StorageEvent → StoredObject → Fallible (ProcessOutcome × S)
  unfolding is_broker_output device revision_of
  process_source s state generation event source =
      let marked = mark_event_only st ext s state (state_path event.document_id) generation event in
      if is_broker_output event source.metadata (ext.sha256_hex source.bytes)
      then with_outcome marked (ignored_broker_output event.document_id event.event_id)
      else if leb event.source_revision (revision_of event.based_on event.source)
      then err (invalid_event not_newer_than_base)
      else if leb event.source_revision (device state event.source).revision
      then old_revision s state generation event source.bytes
      else new_revision s state generation event source.bytes

  -- The event, once its document's state is there and has not seen it.
  unfoldable pub process_unseen :
      S → CanonicalDocumentState → ℕ → StorageEvent → Fallible (ProcessOutcome × S)
  process_unseen s state generation event = do
    found ← map_err storage (st.read_generation s event.object_path event.source_generation)
    elim found [
      | none ↦ missing_source s state generation event
      | some source ↦ (do
        let actual_hash = ext.sha256_hex source.bytes
        refuse_if (not (event.content_sha256 == "") && not (actual_hash == event.content_sha256))
            (invalid_event source_hash_mismatch)
        process_source s state generation (record event { content_sha256 = actual_hash }) source)
    ]

  unfoldable pub process : S → StorageEvent → Fallible (ProcessOutcome × S)
  unfolding validate_event decode_state Set.contains
  process s event = do
    validate_event event
    found ← map_err storage (st.read s (state_path event.document_id))
    state_object ← ok_or found (missing_object (state_path event.document_id))
    state ← decode_state ext state_object.bytes
    refuse_if (not (state.document_id == event.document_id)) (corrupt_state state_document)
    if Set.contains event.event_id state.processed_event_ids
        then ok (duplicate event.document_id event.event_id, s)
        else process_unseen s state state_object.generation event
