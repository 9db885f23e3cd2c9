-- ===== src/Broker/Conflict/Merge.antt =====
-- What a merge of inkbridge-broker/src/conflict.rs leaves alone: the strokes that were deleted or
-- changed since the incoming input's base.
use inkbridge.Prelude.{
  ◌≡◌, refl, ◌∙◌, ap, subst, Bool, true, false, ◌||◌, some, String, List, [], ◌∷◌, All, arith,
  Bool-cases, Option-cases, inl, inr, is_some, ◌==◌, ==_iff, string_key,
}
use inkbridge.Prelude.Fallible.{ok}
use inkbridge.Prelude.Map
use inkbridge.Broker.Model.{
  Manifest, CanonicalStroke, CanonicalDocumentState, PreservedInput, RevisionPair,
  merge_preserving_current,
}
use inkbridge.Broker.Storage.{StoredObject, BrokerStorage, CommitLaws}
use inkbridge.Broker.External.{External}
use inkbridge.Broker.Apply.{Strokes}
use inkbridge.Broker.Codec.{JsonLaws}
use inkbridge.Broker.Conflict.Types.{
  ConflictChangeKind, ConflictContext, ConflictResolutionRequest, ConflictResolutionOutcome,
  OperationGroup,
}
use inkbridge.Broker.Conflict.Classify.{
  changed_after, unchanged_since_baseline, is_safe, classify_operations, group_operations,
  select_operations,
}
use inkbridge.Broker.Conflict.Context.{find_conflict}
use inkbridge.Broker.Conflict.Groups.{Judged, group_for, classify-entries}
use inkbridge.Broker.Conflict.Selected.{takes_group, lookup-applied_ink}
use inkbridge.Broker.Conflict.Settling.{applied_ink}
use inkbridge.Broker.Conflict.Resolve.{resolve_conflict}
use inkbridge.Broker.Conflict.Outcome.{resolve_conflict-Success}
use inkbridge.Broker.Conflict.Next.{
  Ink, as_before, selected, Stored, stored_once, resolve_open-Next, success-Stored, next-Stored,
}
use inkbridge.Broker.Conflict.Loading.{LoadedFrom}

-- Deleted, or changed on either device since the base.
abbrev pub changed_since : CanonicalStroke → RevisionPair → Bool
changed_since stroke based_on =
    is_some stroke.tombstone || changed_after stroke.source_revisions based_on

changed_not_unchanged :
    (kind : ConflictChangeKind) (stroke : CanonicalStroke) (based_on : RevisionPair)
    → changed_since stroke based_on ≡ true
    → unchanged_since_baseline kind (some stroke) based_on ≡ false
unfolding unchanged_since_baseline
changed_not_unchanged kind stroke based_on h = ground (arith, h)

-- Such a stroke's group is not safe.
changed_unsafe :
    (state : CanonicalDocumentState) (c : PreservedInput) (g : OperationGroup)
    (stroke : CanonicalStroke)
    → Map.lookup g.change.stroke_id state.strokes ≡ some stroke
    → changed_since stroke c.based_on ≡ true
    → Judged state c g
    → g.safe ≡ false
unfolding is_safe
changed_unsafe state c g stroke there changed judged =
    judged ∙ rw (there, changed_not_unchanged g.change.kind stroke c.based_on changed) refl

group_for-Judged :
    (state : CanonicalDocumentState) (c : PreservedInput) (k : String) (g : OperationGroup)
    (gs : List OperationGroup)
    → All (Judged state c) gs
    → group_for k gs ≡ some g
    → (g.change.stroke_id ≡ k) × Judged state c g
group_for-Judged state c k g [] h found = absurd (cc found)
group_for-Judged state c k g (x ∷ gs) (first, rest) found =
    elim (Bool-cases (x.change.stroke_id == k)) [
      | inl same ↦
          let e : some x ≡ some g = rw same at found in
          let this : x ≡ g = cc e in
          subst (λ y. (y.change.stroke_id ≡ k) × Judged state c y) this
            ((==_iff x.change.stroke_id k).0 same, first)
      | inr differs ↦ group_for-Judged state c k g gs rest (rw differs at found)
    ]

-- A merge takes no group of such a stroke.
merge_leaves :
    (state : CanonicalDocumentState) (c : PreservedInput) (proposed : Manifest)
    (groups : List OperationGroup) (k : String) (stroke : CanonicalStroke)
    → classify_operations state c proposed.operations ≡ ok groups
    → Map.lookup k state.strokes ≡ some stroke
    → changed_since stroke c.based_on ≡ true
    → takes_group merge_preserving_current (group_for k groups) ≡ false
unfolding classify_operations
merge_leaves state c proposed groups k stroke h there changed =
    let (_, judged) = classify-entries state c (group_operations proposed.operations []) groups h in
    elim (Option-cases (group_for k groups)) [
      | inl absent ↦ rw absent refl
      | inr (g, found) ↦
          let (key, mine) = group_for-Judged state c k g groups judged found in
          rw found (
            changed_unsafe state c g stroke (ap (λ j. Map.lookup j state.strokes) key ∙ there)
              changed mine)
    ]

merged_keeps :
    (ext : External) (context : ConflictContext) (request : ConflictResolutionRequest)
    (proposed : Manifest) (groups : List OperationGroup) (k : String) (stroke : CanonicalStroke)
    → classify_operations context.state context.conflict proposed.operations ≡ ok groups
    → request.strategy ≡ merge_preserving_current
    → Map.lookup k context.state.strokes ≡ some stroke
    → changed_since stroke context.conflict.based_on ≡ true
    → Map.lookup k
        (applied_ink ext context request proposed (select_operations groups request.strategy))
      ≡ some stroke
merged_keeps ext context request proposed groups k stroke h merge there changed =
    let left : takes_group request.strategy (group_for k groups) ≡ false =
      ap (λ s. takes_group s (group_for k groups)) merge
      ∙ merge_leaves context.state context.conflict proposed groups k stroke h there changed in
    lookup-applied_ink ext context request proposed groups k h ∙ rw left there

inked :
    {S : Type 0} (st : BrokerStorage S) (ext : External) (object : StoredObject)
    (state : CanonicalDocumentState) (request : ConflictResolutionRequest)
    (context : ConflictContext) (c : PreservedInput) (k : String) (stroke : CanonicalStroke)
    (strokes : Strokes)
    → LoadedFrom object state request.conflict_event_id context
    → find_conflict request.conflict_event_id state.conflicts ≡ some c
    → request.strategy ≡ merge_preserving_current
    → Map.lookup k state.strokes ≡ some stroke
    → changed_since stroke c.based_on ≡ true
    → Ink st ext state context request strokes
    → Map.lookup k strokes ≡ some stroke
inked st ext object state request context c k stroke strokes l found merge there changed
      (as_before e) =
    ap (Map.lookup k) e ∙ there
inked st ext object state request context c k stroke strokes l found merge there changed
      (selected proposed groups h e) =
    let e₁ : some context.conflict ≡ some c = cc (l.active, found) in
    let same : context.conflict ≡ c = cc e₁ in
    let before : Map.lookup k context.state.strokes ≡ some stroke =
      ap (λ x. Map.lookup k x.strokes) l.state_same ∙ there in
    ap (Map.lookup k) e
    ∙ merged_keeps ext context request proposed groups k stroke h merge before
        (ap (λ x. changed_since stroke x.based_on) same ∙ changed)

-- On a storage whose commits keep their contract, and with states that read back as they were
-- written, a request to merge that succeeds leaves every canonical stroke as it was, in the state that
-- is read afterwards, that was deleted or that either device has changed since the revisions on which
-- the incoming input is based.
pub merge_keeps_changed :
    {S : Type 0} (st : BrokerStorage S) (ext : External)
    → CommitLaws st
    → JsonLaws ext
    → (s s' : S) (request : ConflictResolutionRequest) (o : ConflictResolutionOutcome)
      (state : CanonicalDocumentState) (c : PreservedInput) (k : String) (stroke : CanonicalStroke)
    → Stored st ext s request.document_id state
    → find_conflict request.conflict_event_id state.conflicts ≡ some c
    → request.strategy ≡ merge_preserving_current
    → Map.lookup k state.strokes ≡ some stroke
    → changed_since stroke c.based_on ≡ true
    → resolve_conflict st ext s request ≡ ok (o, s')
    → (next : CanonicalDocumentState) × Stored st ext s' request.document_id next
      × (Map.lookup k next.strokes ≡ some stroke)
merge_keeps_changed st ext storage_laws json_laws s s' request o state c k stroke stored found merge
      there changed h =
    let r = resolve_conflict-Success st ext s s' request o h in
    let same =
      stored_once st ext s request.document_id r.state state
        (success-Stored st ext s s' request o r) stored in
    elim r.how [
      | inl repeated ↦ (
        state,
        subst (λ t. Stored st ext t request.document_id state) repeated.same stored,
        there,
      )
      | inr carried ↦
          let n = resolve_open-Next st ext s s' r.object r.state request o carried in
          (
            n.next,
            next-Stored st ext storage_laws json_laws s s' r.object r.state request carried.context
                n r.decoded,
            inked st ext r.object state request carried.context c k stroke n.next.strokes
                (subst (λ q. LoadedFrom r.object q request.conflict_event_id carried.context) same
                  carried.loaded)
                found merge there changed
                (subst (λ q. Ink st ext q carried.context request n.next.strokes) same n.ink),
          )
    ]
