-- ===== src/Broker/Conflict/Announced.antt =====
-- `inspect_conflict` of inkbridge-broker/src/conflict.rs tells beforehand what a merge does.
use inkbridge.Prelude.{
  ◌≡◌, refl, ◌∙◌, ap, subst, sym, not, String, List, [], ◌∷◌, map, keep, Bool-cases, inl, inr,
}
use inkbridge.Prelude.Fallible.{ok, map_err, ok_or, >>=-eq-ok, map_err-eq-ok, ok_or-eq-ok}
use inkbridge.Broker.Model.{
  revisions, Manifest, RevisionPair, CanonicalDocumentState, ConflictResolutionStrategy,
  merge_preserving_current,
}
use inkbridge.Broker.Storage.{StoredObject, BrokerStorage}
use inkbridge.Broker.Errors.{Fallible, storage, missing_object}
use inkbridge.Broker.External.{External}
use inkbridge.Broker.Output.{decode_state}
use inkbridge.Broker.Paths.{state_path}
use inkbridge.Broker.Conflict.Types.{
  ConflictContext, ConflictStrokeChange, ConflictAnalysis, ConflictResolutionRequest,
  GeneratedResolutionOutput, resolved, OperationGroup,
}
use inkbridge.Broker.Conflict.Classify.{classify_operations, select_operations}
use inkbridge.Broker.Conflict.Proposed.{proposed_conflict_manifest}
use inkbridge.Broker.Conflict.Context.{
  missing_state, analysis_from_groups, load_context_from_state, load_context, inspect_conflict,
}
use inkbridge.Broker.Conflict.Settle.{generated_outputs}
use inkbridge.Broker.Conflict.Inversion.{chosen_settled}
use inkbridge.Broker.Conflict.Resolve.{resolve_conflict}
use inkbridge.Broker.Conflict.Outcome.{resolve_conflict-Success}
use inkbridge.Broker.Conflict.Next.{Stored, stored_once, success-Stored}

abbrev pub stroke_ids : List ConflictStrokeChange → List String
stroke_ids changes = map (λ change. change.stroke_id) changes

applied-safe :
    (gs : List OperationGroup)
    → (select_operations gs merge_preserving_current).applied
      ≡ stroke_ids (map (λ g. g.change) (keep (λ g. g.safe) gs))
unfolding select_operations
applied-safe [] = refl
applied-safe (g ∷ gs) = elim (Bool-cases g.safe) [
  | inl safe ↦ rw safe (ap (◌∷◌ g.change.stroke_id) (applied-safe gs))
  | inr overlaps ↦ rw overlaps (applied-safe gs)
]

preserved-overlapping :
    (gs : List OperationGroup)
    → (select_operations gs merge_preserving_current).preserved
      ≡ stroke_ids (map (λ g. g.change) (keep (λ g. not g.safe) gs))
unfolding select_operations
preserved-overlapping [] = refl
preserved-overlapping (g ∷ gs) = elim (Bool-cases g.safe) [
  | inl safe ↦ rw safe (preserved-overlapping gs)
  | inr overlaps ↦ rw overlaps (ap (◌∷◌ g.change.stroke_id) (preserved-overlapping gs))
]

ok_same : {A : Type 0} (a b : A) → ◌≡◌ {A = Fallible A} (ok a) (ok b) → a ≡ b
ok_same a b h = cc h

resolved_parts :
    (d d' e e' r r' : String) (s s' : ConflictResolutionStrategy) (v v' : RevisionPair)
    (applied applied' preserved preserved' : List String)
    (outputs outputs' : List GeneratedResolutionOutput)
    → resolved d e r s v applied preserved outputs
      ≡ resolved d' e' r' s' v' applied' preserved' outputs'
    → (applied ≡ applied') × (preserved ≡ preserved')
resolved_parts d d' e e' r r' s s' v v' applied applied' preserved preserved' outputs outputs' h =
    (cc h, cc h)

-- One context has one list of groups.
same_groups :
    (ext : External) (x y : ConflictContext) (m n : Manifest) (gs hs : List OperationGroup)
    → x ≡ y
    → proposed_conflict_manifest ext x.state x.conflict x.input.bytes ≡ ok m
    → proposed_conflict_manifest ext y.state y.conflict y.input.bytes ≡ ok n
    → classify_operations x.state x.conflict m.operations ≡ ok gs
    → classify_operations y.state y.conflict n.operations ≡ ok hs
    → gs ≡ hs
same_groups ext x y m n gs hs e p q g h =
    let p' : proposed_conflict_manifest ext y.state y.conflict y.input.bytes ≡ ok m =
      subst (λ z. proposed_conflict_manifest ext z.state z.conflict z.input.bytes ≡ ok m) e p in
    let mn : m ≡ n = ok_same m n (sym p' ∙ q) in
    let g' : classify_operations y.state y.conflict n.operations ≡ ok gs =
      subst (λ z. classify_operations z.state z.conflict n.operations ≡ ok gs) e
        (subst (λ k. classify_operations x.state x.conflict k.operations ≡ ok gs) mn g) in
    ok_same gs hs (sym g' ∙ h)

module _ {S : Type 0} (st : BrokerStorage S) (ext : External) where
  -- What an inspection was made of.
  record Inspected (s : S) (document_id id : String) (analysis : ConflictAnalysis) : Type 0 where
    pub state : CanonicalDocumentState
    pub stored : Stored st ext s document_id state
    pub context : ConflictContext
    pub reads : load_context_from_state st ext s stored.object state id ≡ ok context
    pub groups : List OperationGroup
    pub proposed : Manifest
    pub proposes :
        proposed_conflict_manifest ext context.state context.conflict context.input.bytes
        ≡ ok proposed
    pub classified :
        classify_operations context.state context.conflict proposed.operations ≡ ok groups
    pub analysed : analysis ≡ analysis_from_groups context groups

  inspect-Inspected :
      (s : S) (document_id id : String) (analysis : ConflictAnalysis)
      → inspect_conflict st ext s document_id id ≡ ok analysis
      → Inspected s document_id id analysis
  unfolding inspect_conflict load_context
  inspect-Inspected s document_id id analysis h =
      let path = state_path document_id in
      let missing = missing_object (missing_state document_id) in
      let (context, loaded, h₁) = >>=-eq-ok (load_context st ext s document_id id) _ h in
      let (manifest, proposes, h₂) =
        >>=-eq-ok
          (proposed_conflict_manifest ext context.state context.conflict context.input.bytes) _
          h₁ in
      let (groups, classified, h₃) =
        >>=-eq-ok (classify_operations context.state context.conflict manifest.operations) _ h₂ in
      let (read, read_ok, l₁) = >>=-eq-ok (map_err storage (st.read s path)) _ loaded in
      let (object, there, l₂) = >>=-eq-ok (ok_or read missing) _ l₁ in
      let (state, decoded, l₃) = >>=-eq-ok (decode_state ext object.bytes) _ l₂ in
      record {
        state = state;
        stored = record {
          object = object;
          found =
              map_err-eq-ok storage (st.read s path) read_ok
              ∙ ap ok (ok_or-eq-ok read object missing there);
          decoded = decoded;
        };
        context = context;
        reads = l₃;
        groups = groups;
        proposed = manifest;
        proposes = proposes;
        classified = classified;
        analysed = sym (ok_same (analysis_from_groups context groups) analysis h₃);
      }

  same_context :
      (s : S) (object object' : StoredObject) (state state' : CanonicalDocumentState) (id : String)
      (x y : ConflictContext)
      → object ≡ object'
      → state ≡ state'
      → load_context_from_state st ext s object state id ≡ ok x
      → load_context_from_state st ext s object' state' id ≡ ok y
      → x ≡ y
  same_context s object object' state state' id x y e f p q = ok_same x y (
      sym p
      ∙ ap (λ o. load_context_from_state st ext s o state id) e
      ∙ ap (λ t. load_context_from_state st ext s object' t id) f
      ∙ q)

  -- If an inspection of a conflict and then, on the same storage, a request to merge it succeed, and
  -- the merge is carried out with the outcome `resolved`, then the strokes that it reports as applied
  -- are those of the safe changes that the inspection listed, and the strokes that it reports as
  -- preserved are those of the overlapping changes, in their order; and the state revision that the
  -- request expects is the one that the inspection reported.
  pub inspect_announces_merge :
      (s s' : S) (request : ConflictResolutionRequest) (analysis : ConflictAnalysis)
      (document_id event_id resolution_id : String) (strategy : ConflictResolutionStrategy)
      (source_revisions : RevisionPair) (applied preserved : List String)
      (outputs : List GeneratedResolutionOutput)
      → inspect_conflict st ext s request.document_id request.conflict_event_id ≡ ok analysis
      → request.strategy ≡ merge_preserving_current
      → resolve_conflict st ext s request
        ≡ ok (
          resolved document_id event_id resolution_id strategy source_revisions applied preserved
              outputs,
          s',
        )
      → (applied ≡ stroke_ids analysis.safe_changes)
        × (preserved ≡ stroke_ids analysis.overlapping_changes)
        × (request.expected_state_revision ≡ analysis.state_revision)
  unfolding analysis_from_groups
  inspect_announces_merge s s' request analysis document_id event_id resolution_id strategy
        source_revisions applied preserved outputs seen merge h =
      let i = inspect-Inspected s request.document_id request.conflict_event_id analysis seen in
      let r = resolve_conflict-Success st ext s s' request _ h in
      let objects : r.object ≡ i.stored.object = cc (r.found, i.stored.found) in
      let states : r.state ≡ i.state =
        stored_once st ext s request.document_id r.state i.state
          (success-Stored st ext s s' request _ r) i.stored in
      elim r.how [
        | inl repeated ↦ absurd (cc repeated.outcome)
        | inr carried ↦ elim carried.how [
          | inl old ↦ absurd (cc old.outcome)
          | inr new ↦
              let contexts : carried.context ≡ i.context =
                same_context s r.object i.stored.object r.state i.state request.conflict_event_id
                  carried.context i.context objects states carried.reads i.reads in
              let groups : new.choice.groups ≡ i.groups =
                same_groups ext carried.context i.context new.choice.proposed i.proposed
                  new.choice.groups i.groups contexts new.choice.proposes i.proposes
                  new.choice.classified i.classified in
              let chosen =
                resolved_parts document_id request.document_id event_id request.conflict_event_id
                  resolution_id request.resolution_id strategy request.strategy source_revisions
                  (revisions (chosen_settled ext carried.context request new.choice)) applied
                  (select_operations new.choice.groups request.strategy).applied preserved
                  (select_operations new.choice.groups request.strategy).preserved outputs
                  (generated_outputs new.choice.files new.committed.objects)
                  new.committed.outcome in
              let selections : select_operations new.choice.groups request.strategy
                  ≡ select_operations i.groups merge_preserving_current =
                ap (select_operations new.choice.groups) merge
                ∙ ap (λ gs. select_operations gs merge_preserving_current) groups in
              (
                chosen.0
                    ∙ ap (λ x. x.applied) selections
                    ∙ applied-safe i.groups
                    ∙ ap (λ a. stroke_ids a.safe_changes) (sym i.analysed),
                chosen.1
                    ∙ ap (λ x. x.preserved) selections
                    ∙ preserved-overlapping i.groups
                    ∙ ap (λ a. stroke_ids a.overlapping_changes) (sym i.analysed),
                sym carried.expected_state
                    ∙ sym (ap (λ x. x.state_revision) carried.loaded.state_same)
                    ∙ ap (λ x. x.state.state_revision) contexts
                    ∙ ap (λ a. a.state_revision) (sym i.analysed),
              )
        ]
      ]
