-- ===== src/Broker/Process/Outcome.antt =====
-- `process` of inkbridge-broker/src/broker.rs as a whole: what a success means.
use inkbridge.Prelude.{
  ℕ, ◌≡◌, true, false, not, ◌⊎◌, ◌&&◌, Option, none, some, String, arith, Bool-cases, inl, inr, eqb,
  leb, ◌==◌, ==_iff, string_key,
}
use inkbridge.Prelude.Fallible.{
  ok, ◌>>◌, map_err, ok_or, refuse_if, >>=-eq-ok, map_err-eq-ok, ok_or-eq-ok,
}
use inkbridge.Prelude.Set
use inkbridge.Broker.Model.{
  Bytes, StorageEvent, CanonicalDocumentState, ProcessOutcome, applied, conflict, duplicate,
  ignored_broker_output, ignored_stale_source, revisions, revision_of, device, revisions_key,
}
use inkbridge.Broker.Storage.{StoredObject, BrokerStorage}
use inkbridge.Broker.Errors.{
  invalid_event, storage, missing_object, corrupt_state, state_document, source_hash_mismatch,
  not_next_revision, revision_overflow,
}
use inkbridge.Broker.External.{External}
use inkbridge.Broker.Output.{is_broker_output, decode_state}
use inkbridge.Broker.Paths.{state_path}
use inkbridge.Broker.Process.Commits.{Effect, Processed, mark_Processed, preserve_Processed}
use inkbridge.Broker.Process.Accepted.{accept-Processed}
use inkbridge.Broker.Process.{
  process, process_unseen, process_source, missing_source, old_revision, new_revision,
  validate_event, checked_next, follows_preserved_predecessor, is_stale,
}

rehashed_Effect :
    (state : CanonicalDocumentState) (event : StorageEvent) (hash : String) (o : ProcessOutcome)
    (next : CanonicalDocumentState)
    → Effect state (record event { content_sha256 = hash }) o next
    → Effect state event o next
rehashed_Effect state event hash (applied d e p g r) next h = h
rehashed_Effect state event hash (duplicate d e) next h = h
rehashed_Effect state event hash (ignored_broker_output d e) next h = h
rehashed_Effect state event hash (ignored_stale_source d e) next h = h
rehashed_Effect state event hash (conflict d e p c b) next h = h

module _ {S : Type 0} (st : BrokerStorage S) (ext : External) (s s' : S)
    (state : CanonicalDocumentState) (generation : ℕ) (o : ProcessOutcome) where
  missing_Processed :
      (event : StorageEvent)
      → missing_source st ext s state generation event ≡ ok (o, s')
      → Processed st ext s s' state generation event o
  unfolding missing_source
  missing_Processed event h =
      let (latest, _, h₁) = >>=-eq-ok (map_err storage (st.read s event.object_path)) _ h in
      elim (Bool-cases (is_stale latest event)) [
        | inl stale ↦
            mark_Processed st ext s s' state generation event o
              (ignored_stale_source event.document_id event.event_id) (λ next same. same)
              (rw stale at h₁)
        | inr present ↦ absurd (ground arith)
      ]

  old_Processed :
      (event : StorageEvent) (bytes : Bytes)
      → old_revision st ext s state generation event bytes ≡ ok (o, s')
      → Processed st ext s s' state generation event o
  unfolding old_revision
  old_Processed event bytes h =
      elim (Bool-cases (event.content_sha256 == (device state event.source).content_sha256)) [
        | inl same ↦
            mark_Processed st ext s s' state generation event o
              (ignored_stale_source event.document_id event.event_id) (λ next kept. kept)
              (rw same at h)
        | inr changed ↦
            preserve_Processed st ext s s' state generation event o bytes (rw changed at h)
      ]

  new_Processed :
      (event : StorageEvent) (bytes : Bytes)
      → new_revision st ext s state generation event bytes ≡ ok (o, s')
      → Processed st ext s s' state generation event o
  unfolding new_revision
  new_Processed event bytes h =
      let (expected, _, h₁) =
        >>=-eq-ok
          (ok_or (checked_next (revision_of (revisions state) event.source))
            (invalid_event revision_overflow))
          _ h in
      let (_, _, h₂) =
        >>=-eq-ok
          (refuse_if
            (not (eqb event.source_revision expected)
              && not (follows_preserved_predecessor state event expected))
            (invalid_event not_next_revision))
          _ h₁ in
      elim (Bool-cases (event.based_on == revisions state)) [
        | inl based ↦
            accept-Processed st ext s s' generation event o state bytes
              ((==_iff event.based_on (revisions state)).0 based) (rw based at h₂)
        | inr diverged ↦
            preserve_Processed st ext s s' state generation event o bytes (rw diverged at h₂)
      ]

  source_Processed :
      (event : StorageEvent) (source : StoredObject)
      → process_source st ext s state generation event source ≡ ok (o, s')
      → Processed st ext s s' state generation event o
  unfolding process_source
  source_Processed event source h =
      elim (Bool-cases (is_broker_output event source.metadata (ext.sha256_hex source.bytes))) [
        | inl own ↦
            mark_Processed st ext s s' state generation event o
              (ignored_broker_output event.document_id event.event_id) (λ next same. same)
              (rw own at h)
        | inr foreign ↦
            elim (Bool-cases
              (leb event.source_revision (revision_of event.based_on event.source))) [
                | inl not_newer ↦ absurd (ground arith)
                | inr newer ↦
                    elim (Bool-cases
                      (leb event.source_revision (device state event.source).revision)) [
                        | inl old ↦ old_Processed event source.bytes (rw (foreign, newer, old) at h)
                        | inr next ↦
                            new_Processed event source.bytes (rw (foreign, newer, next) at h)
                      ]
              ]
      ]

  -- The hash is the source's from here on; what `Processed` says of the event is untouched by it.
  rehashed :
      (event : StorageEvent) (hash : String)
      → Processed st ext s s' state generation (record event { content_sha256 = hash }) o
      → Processed st ext s s' state generation event o
  rehashed event hash p = record {
    next = p.next;
    commit = p.commit;
    recorded = record {
      seen = p.recorded.seen;
      document = p.recorded.document;
      schema = p.recorded.schema;
      counted = p.recorded.counted;
    };
    effect = rehashed_Effect state event hash o p.next p.effect;
  }

  unseen_Processed :
      (event : StorageEvent)
      → process_unseen st ext s state generation event ≡ ok (o, s')
      → Processed st ext s s' state generation event o
  unfolding process_unseen
  unseen_Processed event h =
      let (found, _, h₁) =
        >>=-eq-ok (map_err storage (st.read_generation s event.object_path event.source_generation))
          _ h in
      by_source found h₁
    where
      by_source :
          (found : Option StoredObject)
          → elim found [
            | none ↦ missing_source st ext s state generation event
            | some source ↦ (do
              refuse_if
                  (not (event.content_sha256 == "")
                    && not (ext.sha256_hex source.bytes == event.content_sha256))
                  (invalid_event source_hash_mismatch)
              process_source st ext s state generation
                  (record event { content_sha256 = ext.sha256_hex source.bytes })
                  source)
          ]
            ≡ ok (o, s')
          → Processed st ext s s' state generation event o
      by_source none e = missing_Processed event e
      by_source (some source) e =
          let (_, _, e₁) =
            >>=-eq-ok
              (refuse_if
                (not (event.content_sha256 == "")
                  && not (ext.sha256_hex source.bytes == event.content_sha256))
                (invalid_event source_hash_mismatch))
              _ e in
          rehashed event (ext.sha256_hex source.bytes) (
            source_Processed (record event { content_sha256 = ext.sha256_hex source.bytes }) source
              e₁)

-- The document's state that the storage holds, as `process` reads it.
pub record Loaded {S : Type 0} (st : BrokerStorage S) (ext : External) (s : S)
    (document_id : String) (object : StoredObject) (state : CanonicalDocumentState) : Type 0 where
  pub found : st.read s (state_path document_id) ≡ ok (some object)
  pub decoded : decode_state ext object.bytes ≡ ok state
  pub owned : state.document_id ≡ document_id

-- A success of `process`, told from the state that it read.
pub record Success {S : Type 0} (st : BrokerStorage S) (ext : External) (s s' : S)
    (event : StorageEvent) (o : ProcessOutcome) : Type 0 where
  pub object : StoredObject
  pub state : CanonicalDocumentState
  pub valid : validate_event event ≡ ok tt
  pub loaded : Loaded st ext s event.document_id object state
  pub how :
      ((Set.contains event.event_id state.processed_event_ids ≡ true)
        × (o ≡ duplicate event.document_id event.event_id)
        × (s' ≡ s))
      ⊎ ((Set.contains event.event_id state.processed_event_ids ≡ false)
          × Processed st ext s s' state object.generation event o)

-- When `process` succeeds, it has read the state of the event's document, and either that state has
-- seen the event, the outcome is `duplicate` and the storage is as it was; or it has not, and the
-- storage moves by one commit, guarded by the generation at which the state was read, to a state
-- that has seen the event, counts one revision more, and has changed as the outcome says: an applied
-- event was based on the current revisions and moves its own side alone to its revision, a conflict
-- is recorded and changes no ink, and what is ignored changes neither ink nor conflicts.
pub process-Success :
    {S : Type 0} (st : BrokerStorage S) (ext : External) (s s' : S) (event : StorageEvent)
    (o : ProcessOutcome)
    → process st ext s event ≡ ok (o, s')
    → Success st ext s s' event o
unfolding process
process-Success st ext s s' event o h =
    let (valid, validated, h₁) = >>=-eq-ok (validate_event event) _ h in
    let (found, read_ok, h₂) =
      >>=-eq-ok (map_err storage (st.read s (state_path event.document_id))) _ h₁ in
    let (object, object_ok, h₃) =
      >>=-eq-ok (ok_or found (missing_object (state_path event.document_id))) _ h₂ in
    let (state, decoded, h₄) = >>=-eq-ok (decode_state ext object.bytes) _ h₃ in
    let (_, owned, h₅) =
      >>=-eq-ok
        (refuse_if (not (state.document_id == event.document_id)) (corrupt_state state_document)) _
        h₄ in
    record {
      object = object;
      state = state;
      valid = validated;
      loaded = record {
        found = cc (
          map_err-eq-ok storage (st.read s (state_path event.document_id)) read_ok,
          ok_or-eq-ok found object _ object_ok,
        );
        decoded = decoded;
        owned = same_document state.document_id event.document_id owned;
      };
      how = elim (Bool-cases (Set.contains event.event_id state.processed_event_ids)) [
        | inl seen ↦ inl (seen, ground arith, ground arith)
        | inr unseen ↦
            inr (
              unseen,
              unseen_Processed st ext s s' state object.generation o event (rw unseen at h₅),
            )
      ];
    }
  where
    same_document :
        (a b : String) → refuse_if (not (a == b)) (corrupt_state state_document) ≡ ok tt → a ≡ b
    same_document a b e = ground (arith, ==_iff a b)
