-- ===== src/Broker/Process/Once.antt =====
-- An event is processed at most once.
use inkbridge.Prelude.{ℕ, ◌≡◌, ◌∙◌, subst, true, some, String, inl, inr, ==_iff, string_key}
use inkbridge.Prelude.Fallible.{ok}
use inkbridge.Prelude.Set
use inkbridge.Broker.Model.{StorageEvent, CanonicalDocumentState, ProcessOutcome, duplicate}
use inkbridge.Broker.Storage.{StoredObject, matches, BrokerStorage, CommitLaws}
use inkbridge.Broker.External.{External}
use inkbridge.Broker.Output.{decode_state}
use inkbridge.Broker.Paths.{state_path}
use inkbridge.Broker.Codec.{
  JsonLaws, state_write-Written, decode_state-schema, decode_state-written,
}
use inkbridge.Broker.Process.{process, validate_event}
use inkbridge.Broker.Process.Commits.{StateCommit}
use inkbridge.Broker.Process.Outcome.{Loaded, process-Success}

module _ {S : Type 0} (st : BrokerStorage S) (ext : External) where
  -- An event that the stored state has seen is a duplicate.
  process_seen :
      (s : S) (event : StorageEvent) (object : StoredObject) (state : CanonicalDocumentState)
      → validate_event event ≡ ok tt
      → Loaded st ext s event.document_id object state
      → Set.contains event.event_id state.processed_event_ids ≡ true
      → process st ext s event ≡ ok (duplicate event.document_id event.event_id, s)
  unfolding process
  process_seen s event object state valid loaded seen = rw (
    valid,
    loaded.found,
    loaded.decoded,
    (==_iff state.document_id event.document_id).1 loaded.owned,
    seen,
  )

  -- The state that a commit wrote last is what is read and decoded afterwards.
  pub committed_decodes :
      CommitLaws st
      → JsonLaws ext
      → (s s' : S) (path : String) (generation : ℕ) (next : CanonicalDocumentState)
      → next.schema_version ≡ 1
      → StateCommit st ext s s' path generation next
      → (object : StoredObject) × (st.read s' path ≡ ok (some object))
        × (decode_state ext object.bytes ≡ ok next)
  committed_decodes storage_laws json_laws s s' path generation next schema c =
      let w = state_write-Written ext path next (matches generation) c.write c.wrote in
      let (object, found, bytes) =
        storage_laws.last_applied s s' c.others c.write c.objects c.committed in
      (
        object,
        subst (λ p. st.read s' p ≡ ok (some object)) w.path_same found,
        rw (bytes, w.bytes_same) (decode_state-written ext json_laws next w.json w.encoded schema),
      )

  committed_Loaded :
      CommitLaws st
      → JsonLaws ext
      → (s s' : S) (document_id : String) (generation : ℕ) (next : CanonicalDocumentState)
      → next.schema_version ≡ 1
      → next.document_id ≡ document_id
      → StateCommit st ext s s' (state_path document_id) generation next
      → (object : StoredObject) × Loaded st ext s' document_id object next
  committed_Loaded storage_laws json_laws s s' document_id generation next schema owned c =
      let (object, found, decoded) =
        committed_decodes storage_laws json_laws s s' (state_path document_id) generation next
          schema c in
      (object, record { found = found; decoded = decoded; owned = owned })

  -- On a storage whose commits keep their contract, and with states that read back as they were
  -- written, an event that was processed with success, whatever the outcome, is a duplicate when it
  -- comes again, and leaves the storage as it is.
  pub process_twice :
      CommitLaws st
      → JsonLaws ext
      → (s s' : S) (event : StorageEvent) (o : ProcessOutcome) → process st ext s event ≡ ok (o, s')
      → process st ext s' event ≡ ok (duplicate event.document_id event.event_id, s')
  process_twice storage_laws json_laws s s' event o h =
      let r = process-Success st ext s s' event o h in
      elim r.how [
        | inl (seen, again, same) ↦
            rw same (process_seen s event r.object r.state r.valid r.loaded seen)
        | inr (unseen, p) ↦
            let (object, loaded) =
              committed_Loaded storage_laws json_laws s s' event.document_id r.object.generation
                p.next
                (p.recorded.schema
                  ∙ decode_state-schema ext r.object.bytes r.state r.loaded.decoded)
                (p.recorded.document ∙ r.loaded.owned) p.commit in
            process_seen s' event object p.next r.valid loaded p.recorded.seen
      ]
