-- ===== src/Broker/Conflict/Outcome.antt =====
-- What a success of `Broker::resolve_conflict` in inkbridge-broker/src/conflict.rs leaves in the state.
use inkbridge.Prelude.{
  Bool, true, false, not, ◌||◌, ◌≡◌, ◌∙◌, ap, eqb_iff, arith, ◌⊎◌, inl, inr, none, some, eqb, ◌==◌,
  ==_iff, Bool-cases, Option-cases, string_key,
}
use inkbridge.Prelude.Fallible.{
  ok, map_err, ok_or, refuse_if, >>=-eq-ok, map_err-eq-ok, ok_or-eq-ok,
}
use inkbridge.Prelude.Map
use inkbridge.Broker.Model.{
  CanonicalDocumentState, ConflictResolutionRecord, revisions, revisions_key,
}
use inkbridge.Broker.Storage.{StoredObject, BrokerStorage}
use inkbridge.Broker.Errors.{Fallible, storage, missing_object, invalid_event, stale_analysis}
use inkbridge.Broker.External.{External}
use inkbridge.Broker.Paths.{state_path}
use inkbridge.Broker.Output.{decode_state}
use inkbridge.Broker.Conflict.Types.{
  ConflictContext, ConflictResolutionRequest, ConflictResolutionOutcome, duplicate, strategy_key,
}
use inkbridge.Broker.Conflict.Context.{missing_state, load_context_from_state}
use inkbridge.Broker.Conflict.Resolve.{
  validate_resolution_request, answer_resolved, resolve_open, resolve_decoded, resolve_conflict,
}
use inkbridge.Broker.Conflict.Loading.{LoadedFrom, load_context-LoadedFrom}
use inkbridge.Broker.Conflict.Inversion.{refused_not, Superseded, Applied, resolve_context-cases}

-- The outcome of a request that was carried out before.
abbrev pub again : ConflictResolutionRequest → ConflictResolutionOutcome
again request =
    duplicate request.document_id request.conflict_event_id request.resolution_id request.strategy

-- A record of the request's conflict, by the same resolution.
pub record Recorded (request : ConflictResolutionRequest) (state : CanonicalDocumentState)
    : Type 0 where
  pub entry : ConflictResolutionRecord
  pub found : Map.lookup request.conflict_event_id state.resolved_conflicts ≡ some entry
  pub named : entry.resolution_id ≡ request.resolution_id
  pub strategy : entry.strategy ≡ request.strategy

both_hold : (a b : Bool) → (not a || not b) ≡ false → (a ≡ true) × (b ≡ true)
both_hold a b h = ground arith

same_pair :
    {A B : Type 0} (a b : A) (s t : B)
    → ◌≡◌ {A = Fallible (A × B)} (ok (a, s)) (ok (b, t))
    → (b ≡ a) × (s ≡ t)
same_pair a b s t h = (cc h, cc h)

module _ {S : Type 0} (st : BrokerStorage S) (ext : External) where
  -- A request that was carried out before.
  pub record Repeated (s s' : S) (state : CanonicalDocumentState)
      (request : ConflictResolutionRequest) (o : ConflictResolutionOutcome) : Type 0 where
    pub entry : Recorded request state
    pub outcome : o ≡ again request
    pub same : s ≡ s'

  -- A request that was carried out now.
  pub record Carried (s s' : S) (object : StoredObject) (state : CanonicalDocumentState)
      (request : ConflictResolutionRequest) (o : ConflictResolutionOutcome) : Type 0 where
    pub unrecorded : Map.lookup request.conflict_event_id state.resolved_conflicts ≡ none
    pub expected_state : state.state_revision ≡ request.expected_state_revision
    pub expected_revisions : revisions state ≡ request.expected_current_revisions
    pub context : ConflictContext
    pub reads : load_context_from_state st ext s object state request.conflict_event_id ≡ ok context
    pub loaded : LoadedFrom object state request.conflict_event_id context
    pub how : Superseded st ext s s' context request o ⊎ Applied st ext s s' context request o

  -- A success of `resolve_conflict`, told from the state that it read.
  pub record Success (s s' : S) (request : ConflictResolutionRequest)
      (o : ConflictResolutionOutcome) : Type 0 where
    pub object : StoredObject
    pub state : CanonicalDocumentState
    pub valid : validate_resolution_request request ≡ ok tt
    pub found : st.read s (state_path request.document_id) ≡ ok (some object)
    pub decoded : decode_state ext object.bytes ≡ ok state
    pub how : Repeated s s' state request o ⊎ Carried s s' object state request o

  answer-again :
      (entry : ConflictResolutionRecord) (request : ConflictResolutionRequest)
      (o : ConflictResolutionOutcome)
      → answer_resolved entry request ≡ ok o
      → (entry.resolution_id ≡ request.resolution_id)
        × (entry.strategy ≡ request.strategy)
        × (o ≡ again request)
  unfolding answer_resolved
  answer-again entry request o h =
      let named = ==_iff entry.resolution_id request.resolution_id in
      let chosen = ==_iff entry.strategy request.strategy in
      elim (Bool-cases (entry.resolution_id == request.resolution_id)) [
        | inl a ↦ elim (Bool-cases (entry.strategy == request.strategy)) [
          | inl b ↦ (named.0 a, chosen.0 b, ground (arith, a, b, chosen.0 b))
          | inr b ↦ absurd (ground (arith, a, b))
        ]
        | inr a ↦ absurd (ground (arith, a))
      ]

  open-Carried :
      (s s' : S) (object : StoredObject) (state : CanonicalDocumentState)
      (request : ConflictResolutionRequest) (o : ConflictResolutionOutcome)
      → Map.lookup request.conflict_event_id state.resolved_conflicts ≡ none
      → resolve_open st ext s object state request ≡ ok (o, s')
      → Carried s s' object state request o
  unfolding resolve_open
  open-Carried s s' object state request o unrecorded h =
      let stale =
        not (eqb state.state_revision request.expected_state_revision)
        || not (revisions state == request.expected_current_revisions) in
      let (_, current, h₁) = >>=-eq-ok (refuse_if stale (invalid_event stale_analysis)) _ h in
      let (context, loaded, h₂) =
        >>=-eq-ok (load_context_from_state st ext s object state request.conflict_event_id) _ h₁ in
      let both =
        both_hold (eqb state.state_revision request.expected_state_revision)
          (revisions state == request.expected_current_revisions)
          (refused_not stale (invalid_event stale_analysis) current) in
      record {
        unrecorded = unrecorded;
        expected_state = (eqb_iff state.state_revision request.expected_state_revision).0 both.0;
        expected_revisions = (==_iff (revisions state) request.expected_current_revisions).0 both.1;
        context = context;
        reads = loaded;
        loaded =
            load_context-LoadedFrom st ext s object state request.conflict_event_id context loaded;
        how = resolve_context-cases st ext s s' context request o h₂;
      }

  decoded_cases :
      (s s' : S) (object : StoredObject) (state : CanonicalDocumentState)
      (request : ConflictResolutionRequest) (o : ConflictResolutionOutcome)
      → resolve_decoded st ext s object state request ≡ ok (o, s')
      → Repeated s s' state request o ⊎ Carried s s' object state request o
  unfolding resolve_decoded
  decoded_cases s s' object state request o h =
      elim (Option-cases (Map.lookup request.conflict_event_id state.resolved_conflicts)) [
        | inl unrecorded ↦ inr (
            open-Carried s s' object state request o unrecorded
              (rw (resolve_decoded, unrecorded) at h))
        | inr (entry, found) ↦
            let (outcome, answered, h₁) =
              >>=-eq-ok (answer_resolved entry request) _ (rw (resolve_decoded, found) at h) in
            let got = same_pair outcome o s s' h₁ in
            let (named, strategy, same) = answer-again entry request outcome answered in
            inl (record {
              entry = record { entry = entry; found = found; named = named; strategy = strategy };
              outcome = got.0 ∙ same;
              same = got.1;
            })
      ]

  pub resolve_conflict-Success :
      (s s' : S) (request : ConflictResolutionRequest) (o : ConflictResolutionOutcome)
      → resolve_conflict st ext s request ≡ ok (o, s')
      → Success s s' request o
  unfolding resolve_conflict
  resolve_conflict-Success s s' request o h =
      let path = state_path request.document_id in
      let missing = missing_object (missing_state request.document_id) in
      let (_, valid, h₁) = >>=-eq-ok (validate_resolution_request request) _ h in
      let (read, read_ok, h₂) = >>=-eq-ok (map_err storage (st.read s path)) _ h₁ in
      let (object, there, h₃) = >>=-eq-ok (ok_or read missing) _ h₂ in
      let (state, decoded, h₄) = >>=-eq-ok (decode_state ext object.bytes) _ h₃ in
      record {
        object = object;
        state = state;
        valid = valid;
        found =
            map_err-eq-ok storage (st.read s path) read_ok
            ∙ ap ok (ok_or-eq-ok read object missing there);
        decoded = decoded;
        how = decoded_cases s s' object state request o h₄;
      }
