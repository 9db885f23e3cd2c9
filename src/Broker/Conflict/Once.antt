-- ===== src/Broker/Conflict/Once.antt =====
-- A resolution is carried out once, on the state that it was asked for, and takes its conflict away.
use inkbridge.Prelude.{
  ◌≡◌, ◌≢◌, refl, ◌∙◌, ap, sym, arith, inl, inr, ◌⊎◌, none, some, String, List, [], ◌∷◌, ==_iff,
  string_key,
}
use inkbridge.Prelude.Fallible.{ok}
use inkbridge.Prelude.Map
use inkbridge.Prelude.Map.{lookup-insert, lookup-insert_self}
use inkbridge.Broker.Model.{CanonicalDocumentState, PreservedInput}
use inkbridge.Broker.Storage.{StoredObject, BrokerStorage, CommitLaws}
use inkbridge.Broker.External.{External}
use inkbridge.Broker.Paths.{state_path}
use inkbridge.Broker.Output.{decode_state}
use inkbridge.Broker.Codec.{JsonLaws}
use inkbridge.Broker.Process.Stale.{behind, live_commit}
use inkbridge.Broker.Conflict.Types.{
  ConflictResolutionRequest, ConflictResolutionOutcome, duplicate, strategy_key,
}
use inkbridge.Broker.Conflict.Resolve.{
  validate_resolution_request, answer_resolved, resolve_decoded, resolve_conflict,
}
use inkbridge.Broker.Conflict.Next.{Stored, resolve_open-Next, next-Stored, success-Stored}
use inkbridge.Broker.Conflict.Context.{find_conflict}
use inkbridge.Broker.Conflict.Settling.{others}
use inkbridge.Broker.Conflict.Result.{Resolution}
use inkbridge.Broker.Model.{revisions}
use inkbridge.Broker.Conflict.Outcome.{Recorded, again, resolve_conflict-Success}

module _ {S : Type 0} (st : BrokerStorage S) (ext : External) where
  decoded_again :
      (s : S) (object : StoredObject) (state : CanonicalDocumentState)
      (request : ConflictResolutionRequest)
      → Recorded request state
      → resolve_decoded st ext s object state request ≡ ok (again request, s)
  unfolding resolve_decoded answer_resolved
  decoded_again s object state request r = rw (
    resolve_decoded,
    r.found,
    (==_iff r.entry.resolution_id request.resolution_id).1 r.named,
    (==_iff r.entry.strategy request.strategy).1 r.strategy,
    r.strategy,
  )

  -- A request whose conflict the same resolution has resolved is a duplicate.
  resolve_known :
      (s : S) (request : ConflictResolutionRequest) (object : StoredObject)
      (state : CanonicalDocumentState)
      → validate_resolution_request request ≡ ok tt
      → st.read s (state_path request.document_id) ≡ ok (some object)
      → decode_state ext object.bytes ≡ ok state
      → Recorded request state
      → resolve_conflict st ext s request ≡ ok (again request, s)
  unfolding resolve_conflict
  resolve_known s request object state valid found decoded r =
      rw (valid, found, decoded) (decoded_again s object state request r)

  -- On a storage whose commits keep their contract, and with states that read back as they were
  -- written, a request for a resolution that was carried out with success, whatever the outcome, is a
  -- duplicate when it comes again, and leaves the storage as it is.
  pub resolve_twice :
      CommitLaws st
      → JsonLaws ext
      → (s s' : S) (request : ConflictResolutionRequest) (o : ConflictResolutionOutcome)
      → resolve_conflict st ext s request ≡ ok (o, s')
      → resolve_conflict st ext s' request
        ≡ ok (
          duplicate request.document_id request.conflict_event_id request.resolution_id
              request.strategy,
          s',
        )
  resolve_twice storage_laws json_laws s s' request o h =
      let r = resolve_conflict-Success st ext s s' request o h in
      elim r.how [
        | inl repeated ↦
            rw (sym repeated.same)
              (resolve_known s request r.object r.state r.valid r.found r.decoded repeated.entry)
        | inr carried ↦
            let n = resolve_open-Next st ext s s' r.object r.state request o carried in
            let kept =
              next-Stored st ext storage_laws json_laws s s' r.object r.state request
                carried.context n r.decoded in
            resolve_known s' request kept.object n.next r.valid kept.found kept.decoded (record {
              entry = n.resolution.entry;
              found =
                  ap (Map.lookup request.conflict_event_id) n.resolution.recorded
                  ∙ lookup-insert_self request.conflict_event_id n.resolution.entry
                      r.state.resolved_conflicts;
              named = n.resolution.named;
              strategy = n.resolution.strategy;
            })
      ]

-- If the document's state has been committed by another since it was read, so that its generation is
-- no longer the one that was read, then resolving a conflict changes nothing of the live storage: it
-- fails, or finds in the snapshot that the request is a duplicate.
pub resolve_conflict-behind :
    {S : Type 0} (st : BrokerStorage S) (ext : External)
    → CommitLaws st
    → (snapshot live : S) (t : S × S) (request : ConflictResolutionRequest)
      (o : ConflictResolutionOutcome) (old new : StoredObject)
    → st.read snapshot (state_path request.document_id) ≡ ok (some old)
    → st.read live (state_path request.document_id) ≡ ok (some new)
    → old.generation ≢ new.generation
    → resolve_conflict (behind st) ext (snapshot, live) request ≡ ok (o, t)
    → (o
        ≡ duplicate request.document_id request.conflict_event_id request.resolution_id
            request.strategy)
      × (t ≡ (snapshot, live))
resolve_conflict-behind st ext laws snapshot live t request o old new was now moved h =
    let r = resolve_conflict-Success (behind st) ext (snapshot, live) t request o h in
    elim r.how [
      | inl repeated ↦ (repeated.outcome, sym repeated.same)
      | inr carried ↦
          let n =
            resolve_open-Next (behind st) ext (snapshot, live) t r.object r.state request o
              carried in
          let (x, found, generation) =
            live_commit st ext laws snapshot live t (state_path request.document_id)
              r.object.generation n.next n.commit in
          absurd (moved (cc (was, r.found, now, found, generation)))
    ]

find-others : (id : String) (cs : List PreservedInput) → find_conflict id (others id cs) ≡ none
unfolding find_conflict
find-others id [] = refl
find-others id (c ∷ cs) = ground (arith, find-others id cs)

-- A resolution that was carried out: of an active conflict of the stored state, which was as the
-- request expected, and with the next state stored afterwards.
pub record Settlement {S : Type 0} (st : BrokerStorage S) (ext : External) (s s' : S)
    (request : ConflictResolutionRequest) : Type 0 where
  pub state : CanonicalDocumentState
  pub before : Stored st ext s request.document_id state
  pub expected_state : state.state_revision ≡ request.expected_state_revision
  pub expected_revisions : revisions state ≡ request.expected_current_revisions
  pub unresolved : Map.lookup request.conflict_event_id state.resolved_conflicts ≡ none
  pub preserved : PreservedInput
  pub active : find_conflict request.conflict_event_id state.conflicts ≡ some preserved
  pub next : CanonicalDocumentState
  pub after : Stored st ext s' request.document_id next
  pub resolution : Resolution state request preserved next
  pub gone : find_conflict request.conflict_event_id next.conflicts ≡ none

-- On a storage whose commits keep their contract, and with states that read back as they were
-- written, a success of `resolve_conflict` is the answer to a request that was carried out before, with
-- the storage as it is; or the stored state was at the revisions that the request expects and the
-- conflict was active in it, and the state that is stored afterwards has the conflict among the resolved
-- ones under the request's id and strategy and no longer among the active ones, keeps the other
-- conflicts in their order, and has the source's device at the revision of the preserved input, unless
-- it was past it, and the other device where it was.
pub resolve_conflict-Settlement :
    {S : Type 0} (st : BrokerStorage S) (ext : External)
    → CommitLaws st
    → JsonLaws ext
    → (s s' : S) (request : ConflictResolutionRequest) (o : ConflictResolutionOutcome)
    → resolve_conflict st ext s request ≡ ok (o, s')
    → ((o ≡ again request) × (s ≡ s')) ⊎ Settlement st ext s s' request
resolve_conflict-Settlement st ext storage_laws json_laws s s' request o h =
    let r = resolve_conflict-Success st ext s s' request o h in
    elim r.how [
      | inl repeated ↦ inl (repeated.outcome, repeated.same)
      | inr carried ↦
          let n = resolve_open-Next st ext s s' r.object r.state request o carried in
          inr (record {
            state = r.state;
            before = success-Stored st ext s s' request o r;
            expected_state = carried.expected_state;
            expected_revisions = carried.expected_revisions;
            unresolved = carried.unrecorded;
            preserved = carried.context.conflict;
            active = carried.loaded.active;
            next = n.next;
            after =
                next-Stored st ext storage_laws json_laws s s' r.object r.state request
                  carried.context n r.decoded;
            resolution = n.resolution;
            gone =
                ap (find_conflict request.conflict_event_id) n.resolution.conflicts
                ∙ find-others request.conflict_event_id r.state.conflicts;
          })
    ]
