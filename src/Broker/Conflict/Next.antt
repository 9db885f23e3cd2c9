-- ===== src/Broker/Conflict/Next.antt =====
-- The state that a resolution of inkbridge-broker/src/conflict.rs commits, and that is read afterwards.
use inkbridge.Prelude.{◌≡◌, ◌∙◌, ap, subst, inl, inr, some, String, List, string_key}
use inkbridge.Prelude.Fallible.{ok}
use inkbridge.Broker.Model.{Manifest, CanonicalDocumentState, revisions_key}
use inkbridge.Broker.Storage.{StoredObject, BrokerStorage}
use inkbridge.Broker.External.{External}
use inkbridge.Broker.Paths.{state_path}
use inkbridge.Broker.Output.{decode_state}
use inkbridge.Broker.Apply.{Strokes}
use inkbridge.Broker.Process.Commits.{StateCommit}
use inkbridge.Broker.Conflict.Types.{
  OperationGroup, ConflictContext, ConflictResolutionRequest, ConflictResolutionOutcome,
  strategy_key,
}
use inkbridge.Broker.Conflict.Classify.{classify_operations, select_operations}
use inkbridge.Broker.Conflict.Settling.{applied_ink, settled_state-Settled, views_only}
use inkbridge.Broker.Conflict.Settle.{with_record, without_conflict, superseded_record}
use inkbridge.Broker.Conflict.Loading.{LoadedFrom}
use inkbridge.Broker.Conflict.Inversion.{
  Superseded, Applied, chosen_settled, superseded_state, resolved_state,
}
use inkbridge.Broker.Codec.{JsonLaws, decode_state-schema}
use inkbridge.Broker.Storage.{CommitLaws}
use inkbridge.Broker.Process.Once.{committed_decodes}
use inkbridge.Broker.Conflict.Result.{Resolution, superseded-Resolution, resolved-Resolution}
use inkbridge.Broker.Conflict.Outcome.{Carried, Success}

module _ {S : Type 0} (st : BrokerStorage S) (ext : External) where
  -- The strokes of the next state: those of the state, if the conflict was superseded, and else what
  -- the selected operations make of them.
  pub data Ink (state : CanonicalDocumentState) (context : ConflictContext)
      (request : ConflictResolutionRequest) (strokes : Strokes) : Type 0 where
    as_before : strokes ≡ state.strokes → Ink state context request strokes
    selected :
        (proposed : Manifest) (groups : List OperationGroup)
        → classify_operations context.state context.conflict proposed.operations ≡ ok groups
        → strokes
          ≡ applied_ink ext context request proposed (select_operations groups request.strategy)
        → Ink state context request strokes

  -- The next state of a request that was carried out now.
  pub record Next (s s' : S) (object : StoredObject) (state : CanonicalDocumentState)
      (request : ConflictResolutionRequest) (context : ConflictContext) : Type 0 where
    pub next : CanonicalDocumentState
    pub commit : StateCommit st ext s s' (state_path request.document_id) object.generation next
    pub resolution : Resolution state request context.conflict next
    pub ink : Ink state context request next.strokes

  module _ (s s' : S) (object : StoredObject) (state : CanonicalDocumentState)
      (request : ConflictResolutionRequest) (o : ConflictResolutionOutcome)
      (context : ConflictContext)
      (loaded : LoadedFrom object state request.conflict_event_id context) where
    supersede_conflict-Next :
        Superseded st ext s s' context request o → Next s s' object state request context
    unfolding without_conflict with_record superseded_record
    supersede_conflict-Next old =
        let at_object = ap (λ x. x.generation) loaded.object_same in
        record {
          next = superseded_state ext context request;
          commit =
              subst
                (λ g.
                  StateCommit st ext s s' (state_path request.document_id) g
                    (superseded_state ext context request))
                at_object old.commit;
          resolution = superseded-Resolution ext object state request context loaded old.older;
          ink = as_before (ap (λ x. x.strokes) loaded.state_same);
        }

    resolve_active-Next :
        Applied st ext s s' context request o → Next s s' object state request context
    unfolding with_record
    resolve_active-Next new =
        let at_object = ap (λ x. x.generation) loaded.object_same in
        let chosen = new.choice in
        let settled = chosen_settled ext context request chosen in
        let selection = select_operations chosen.groups request.strategy in
        let next = resolved_state ext context request settled selection chosen.files in
        let g = settled_state-Settled ext context request chosen.proposed selection in
        record {
          next = next;
          commit =
              subst (λ g. StateCommit st ext s s' (state_path request.document_id) g next) at_object
                new.committed.commit;
          resolution =
              resolved-Resolution ext object state request context loaded settled chosen.proposed
                selection chosen.files new.not_older g;
          ink =
              selected chosen.proposed chosen.groups chosen.classified
                (ap (λ x. x.strokes) (views_only ext request settled chosen.files) ∙ g.strokes);
        }

  pub resolve_open-Next :
      (s s' : S) (object : StoredObject) (state : CanonicalDocumentState)
      (request : ConflictResolutionRequest) (o : ConflictResolutionOutcome)
      (carried : Carried st ext s s' object state request o)
      → Next s s' object state request carried.context
  resolve_open-Next s s' object state request o carried = elim carried.how [
    | inl old ↦
        supersede_conflict-Next s s' object state request o carried.context carried.loaded old
    | inr new ↦ resolve_active-Next s s' object state request o carried.context carried.loaded new
  ]

  -- The stored state of a document.
  pub record Stored (s : S) (document_id : String) (state : CanonicalDocumentState) : Type 0 where
    pub object : StoredObject
    pub found : st.read s (state_path document_id) ≡ ok (some object)
    pub decoded : decode_state ext object.bytes ≡ ok state

  -- Reading is a function.
  pub stored_once :
      (s : S) (document_id : String) (a b : CanonicalDocumentState)
      → Stored s document_id a
      → Stored s document_id b
      → a ≡ b
  stored_once s document_id a b x y =
      let e : some x.object ≡ some y.object = cc (x.found, y.found) in
      let same : x.object ≡ y.object = cc e in
      cc (x.decoded, y.decoded, ap (λ q. decode_state ext q.bytes) same)

  pub success-Stored :
      (s s' : S) (request : ConflictResolutionRequest) (o : ConflictResolutionOutcome)
      (r : Success st ext s s' request o)
      → Stored s request.document_id r.state
  success-Stored s s' request o r = record {
    object = r.object;
    found = r.found;
    decoded = r.decoded;
  }

  -- The next state is what is stored.
  pub next-Stored :
      CommitLaws st
      → JsonLaws ext
      → (s s' : S) (object : StoredObject) (state : CanonicalDocumentState)
        (request : ConflictResolutionRequest) (context : ConflictContext)
        (n : Next s s' object state request context)
      → decode_state ext object.bytes ≡ ok state
      → Stored s' request.document_id n.next
  next-Stored storage_laws json_laws s s' object state request context n decoded =
      let (object', found, decoded') =
        committed_decodes st ext storage_laws json_laws s s' (state_path request.document_id)
          object.generation n.next
          (n.resolution.schema ∙ decode_state-schema ext object.bytes state decoded) n.commit in
      record { object = object'; found = found; decoded = decoded' }
