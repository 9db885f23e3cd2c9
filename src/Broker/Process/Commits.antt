-- ===== src/Broker/Process/Commits.antt =====
-- Whatever `process` of inkbridge-broker/src/broker.rs does to the storage is one commit, whose last
-- write is the next canonical state, guarded by the generation at which the state was read.
use inkbridge.Prelude.{
  ℕ, ◌≡◌, refl, ◌∙◌, ap, subst, map, true, String, List, [], ◌∷◌, ◌++◌, string_key,
}
use inkbridge.Prelude.Fallible.{ok, map_err, >>=-eq-ok, map_err-eq-ok}
use inkbridge.Prelude.Set
use inkbridge.Prelude.Set.{contains-insert_self}
use inkbridge.Broker.Model.{
  Bytes, StorageEvent, CanonicalDocumentState, ProcessOutcome, boox, supernote, applied, duplicate,
  ignored_broker_output, ignored_stale_source, conflict, PreservedInput, revisions, set_revision,
}
use inkbridge.Broker.Storage.{StoredObject, matches, ConditionalWrite, BrokerStorage}
use inkbridge.Broker.Errors.{conditional_write}
use inkbridge.Broker.External.{External}
use inkbridge.Broker.Output.{state_write}
use inkbridge.Broker.Paths.{state_path}
use inkbridge.Broker.Process.Mark.{next_u64, marked_state, mark_event_only, with_outcome}
use inkbridge.Broker.Process.Preserve.{
  conflicted_state, preserve_conflict, competing_write, incoming_write, preserved_path,
}

-- What every processed event leaves in the next state.
pub record Recorded (state : CanonicalDocumentState) (event : StorageEvent)
    (next : CanonicalDocumentState) : Type 0 where
  pub seen : Set.contains event.event_id next.processed_event_ids ≡ true
  pub document : next.document_id ≡ state.document_id
  pub schema : next.schema_version ≡ state.schema_version
  pub counted : next.state_revision ≡ next_u64 state.state_revision

-- What an input that is set aside leaves alone.
pub record SameInk (state next : CanonicalDocumentState) : Type 0 where
  pub strokes : next.strokes ≡ state.strokes
  pub revisions : revisions next ≡ revisions state

-- What the outcome says of the next state. An applied event was based on the current revisions, and
-- moves its source to its revision and the other side not at all; a conflict is recorded behind the
-- others; what is set aside changes no stroke, no revision and, unless it is a conflict, no conflict.
abbrev pub Effect :
    CanonicalDocumentState → StorageEvent → ProcessOutcome → CanonicalDocumentState → Type 0
Effect state event (applied document_id event_id path generation source_revisions) next =
    (event.based_on ≡ revisions state)
    × (source_revisions ≡ set_revision event.based_on event.source event.source_revision)
    × (revisions next ≡ source_revisions)
    × (next.last_common_revisions ≡ source_revisions)
    × (next.conflicts ≡ state.conflicts)
Effect state event (duplicate document_id event_id) next = ⊥
Effect state event (ignored_broker_output document_id event_id) next =
    SameInk state next × (next.conflicts ≡ state.conflicts)
Effect state event (ignored_stale_source document_id event_id) next =
    SameInk state next × (next.conflicts ≡ state.conflicts)
Effect state event (conflict document_id event_id path current based_on) next =
    SameInk state next
    × ((p : PreservedInput) × (next.conflicts ≡ state.conflicts ++ p ∷ [])
        × (p.event_id ≡ event.event_id)
        × (p.preserved_path ≡ path)
        × (p.source ≡ event.source)
        × (p.source_revision ≡ event.source_revision))

marked-Recorded :
    (state : CanonicalDocumentState) (event : StorageEvent)
    → Recorded state event (marked_state state event)
unfolding marked_state
marked-Recorded state event = record {
  seen = contains-insert_self event.event_id state.processed_event_ids;
  document = refl;
  schema = refl;
  counted = refl;
}

marked-SameInk :
    (state : CanonicalDocumentState) (event : StorageEvent)
    → SameInk state (marked_state state event)
      × ((marked_state state event).conflicts ≡ state.conflicts)
unfolding marked_state revisions
marked-SameInk state event = (record { strokes = refl; revisions = refl }, refl)

module _ (ext : External) (state : CanonicalDocumentState) (event : StorageEvent)
    (competing : List String) where
  conflicted-Recorded : Recorded state event (conflicted_state ext state event competing)
  unfolding conflicted_state
  conflicted-Recorded = record {
    seen = contains-insert_self event.event_id state.processed_event_ids;
    document = refl;
    schema = refl;
    counted = refl;
  }

  conflicted-Effect :
      Effect state event
        (conflict event.document_id event.event_id
          (preserved_path ext event)
          (revisions state)
          event.based_on)
        (conflicted_state ext state event competing)
  unfolding conflicted_state revisions
  conflicted-Effect =
      (record { strokes = refl; revisions = refl }, (_, refl, refl, refl, refl, refl))

module _ {S : Type 0} (st : BrokerStorage S) (ext : External) where
  -- From `s` to `s'` by one commit, whose last write is the state `next` at `path`, on condition
  -- that `path` is at `generation`.
  pub record StateCommit (s s' : S) (path : String) (generation : ℕ) (next : CanonicalDocumentState)
      : Type 0 where
    pub others : List ConditionalWrite
    pub write : ConditionalWrite
    pub objects : List StoredObject
    pub wrote : state_write ext path next (matches generation) ≡ ok write
    pub committed : st.commit s (others ++ write ∷ []) ≡ ok (objects, s')

  mark_commits :
      (s s' : S) (state : CanonicalDocumentState) (path : String) (generation : ℕ)
      (event : StorageEvent)
      → mark_event_only st ext s state path generation event ≡ ok s'
      → StateCommit s s' path generation (marked_state state event)
  unfolding mark_event_only
  mark_commits s s' state path generation event h =
      let (w, wrote, h₁) =
        >>=-eq-ok (state_write ext path (marked_state state event) (matches generation)) _ h in
      let (c, done, h₂) = >>=-eq-ok (map_err conditional_write (st.commit s (w ∷ []))) _ h₁ in
      record {
        others = [];
        write = w;
        objects = c.0;
        wrote = wrote;
        committed = cc (map_err-eq-ok conditional_write (st.commit s (w ∷ [])) done);
      }

  -- One commit of a next state that records the event and does what the outcome says.
  pub record Processed (s s' : S) (state : CanonicalDocumentState) (generation : ℕ)
      (event : StorageEvent) (o : ProcessOutcome) : Type 0 where
    pub next : CanonicalDocumentState
    pub commit : StateCommit s s' (state_path event.document_id) generation next
    pub recorded : Recorded state event next
    pub effect : Effect state event o next

  module _ (s s' : S) (state : CanonicalDocumentState) (generation : ℕ) (event : StorageEvent)
      (o : ProcessOutcome) where
    pub mark_Processed :
        (outcome : ProcessOutcome)
        → ((next : CanonicalDocumentState)
            → SameInk state next × (next.conflicts ≡ state.conflicts)
            → Effect state event outcome next)
        → with_outcome
            (mark_event_only st ext s state (state_path event.document_id) generation event)
            outcome
          ≡ ok (o, s')
        → Processed s s' state generation event o
    mark_Processed outcome effect h =
        let (s₁, done, h₁) =
          >>=-eq-ok (mark_event_only st ext s state (state_path event.document_id) generation event)
            _ h in
        let same : s₁ ≡ s' = cc in
        let named : outcome ≡ o = cc in
        record {
          next = marked_state state event;
          commit =
              mark_commits s s' state (state_path event.document_id) generation event
                (done ∙ ap ok same);
          recorded = marked-Recorded state event;
          effect =
              subst (λ x. Effect state event x (marked_state state event)) named
                (effect (marked_state state event) (marked-SameInk state event));
        }

    pub preserve_Processed :
        (input : Bytes)
        → preserve_conflict st ext s state generation event input ≡ ok (o, s')
        → Processed s s' state generation event o
    unfolding preserve_conflict
    preserve_Processed input h =
        let (boox_writes, _, h₁) = >>=-eq-ok (competing_write st ext s state event boox) _ h in
        let (supernote_writes, _, h₂) =
          >>=-eq-ok (competing_write st ext s state event supernote) _ h₁ in
        let competing = boox_writes ++ supernote_writes in
        let next = conflicted_state ext state event (map (λ w. w.path) competing) in
        let (w, wrote, h₃) =
          >>=-eq-ok (state_write ext (state_path event.document_id) next (matches generation)) _
            h₂ in
        let batch = (incoming_write ext event input ∷ competing) ++ w ∷ [] in
        let (c, done, h₄) = >>=-eq-ok (map_err conditional_write (st.commit s batch)) _ h₃ in
        let named : conflict event.document_id event.event_id (preserved_path ext event)
              (revisions state) event.based_on
            ≡ o =
          cc in
        record {
          next = next;
          commit = record {
            others = incoming_write ext event input ∷ competing;
            write = w;
            objects = c.0;
            wrote = wrote;
            committed = cc (map_err-eq-ok conditional_write (st.commit s batch) done);
          };
          recorded = conflicted-Recorded ext state event (map (λ w. w.path) competing);
          effect =
              subst (λ x. Effect state event x next) named
                (conflicted-Effect ext state event (map (λ w. w.path) competing));
        }
