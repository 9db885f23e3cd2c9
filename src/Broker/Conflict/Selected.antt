-- ===== src/Broker/Conflict/Selected.antt =====
-- What a resolution of inkbridge-broker/src/conflict.rs does to each stroke: all of the proposed
-- operations on it, or none.
use inkbridge.Prelude.{
  ◌≡◌, refl, ◌∙◌, ap, sym, subst, Bool, true, false, Option, none, some, String, List, [], ◌∷◌,
  ◌++◌, map, All, arith, Bool-cases, Option-cases, inl, inr, if◌then◌else◌, ◌==◌, ==_iff,
  string_key,
}
use inkbridge.Prelude.Fallible.{ok}
use inkbridge.Prelude.Map
use inkbridge.Prelude.Sorted.{Sorted}
use inkbridge.Broker.Model.{
  Operation, upsert_stroke, delete_stroke, Manifest, CanonicalDocumentState, PreservedInput,
  StorageEvent, ConflictResolutionStrategy, keep_current, revisions,
}
use inkbridge.Broker.External.{External}
use inkbridge.Broker.Apply.{apply_manifest}
use inkbridge.Broker.Apply.Operations.{last_upsert, first_delete, lookup-apply_manifest}
use inkbridge.Broker.Validate.{refresh_manifest_id}
use inkbridge.Broker.Conflict.Types.{
  ConflictContext, ConflictResolutionRequest, OperationGroup, strategy_key,
}
use inkbridge.Broker.Conflict.Classify.{
  operation_id, group_operations, classify_operations, takes, Selection, select_operations,
}
use inkbridge.Broker.Conflict.Groups.{
  Grouped, on, found_or, touches-id, group_of, group-Sorted, entry_of, Owned, on-append,
  classify-entries, group_for, selected_on,
}
use inkbridge.Broker.Conflict.Settle.{effective_event, selected_manifest}
use inkbridge.Broker.Conflict.Settling.{applied_ink}

abbrev Owns : String × List Operation → Type 0
Owns e = (k : String) → on k e.1 ≡ (if e.0 == k then e.1 else [])

module _ {V : Type 0} (Q : String × V → Type 0) where
  All-insert :
      (k : String) (v : V) (m : List (String × V)) → Q (k, v) → All Q m → All Q (Map.insert k v m)
  unfolding Map.insert
  All-insert k v [] q h = (q, tt)
  All-insert k v ((j, w) ∷ m) q (first, rest) = elim (Bool-cases (j == k)) [
    | inl same ↦ rw same (q, rest)
    | inr differs ↦ rw differs (elim (Bool-cases (string_key.lt k j)) [
      | inl before ↦ rw before (q, (first, rest))
      | inr after ↦ rw after (first, All-insert k v m q rest)
    ])
  ]

  All-lookup :
      (k : String) (v : V) (m : List (String × V)) → All Q m → Map.lookup k m ≡ some v → Q (k, v)
  unfolding Map.lookup
  All-lookup k v [] h found = absurd (cc found)
  All-lookup k v ((j, w) ∷ m) (first, rest) found = elim (Bool-cases (j == k)) [
    | inl same ↦
        let e : some w ≡ some v = rw (Map.lookup, same) at found in
        let value : w ≡ v = cc e in
        let key : j ≡ k = (==_iff j k).0 same in
        subst (λ i. Q (i, v)) key (subst (λ x. Q (j, x)) value first)
    | inr differs ↦ All-lookup k v m rest (rw (Map.lookup, differs) at found)
  ]

if_same : (b : Bool) → ◌≡◌ {A = List Operation} [] (if b then [] else [])
if_same b = ground arith

before_owned :
    (id : String) (grouped : Grouped)
    → All Owns grouped
    → Owns (id, found_or (Map.lookup id grouped))
before_owned id grouped h k = elim (Option-cases (Map.lookup id grouped)) [
  | inl nothing ↦ rw nothing (if_same (id == k))
  | inr (ops, there) ↦ rw there (All-lookup Owns id ops grouped h there k)
]

-- What was grouped before under the operation's stroke, and the operation.
owned_here :
    (op : Operation) (grouped : Grouped)
    → All Owns grouped
    → Owns (operation_id op, found_or (Map.lookup (operation_id op) grouped) ++ op ∷ [])
owned_here op grouped h k =
    let id = operation_id op in
    let before = found_or (Map.lookup id grouped) in
    let added = on-append k before (op ∷ []) in
    elim (Bool-cases (id == k)) [
      | inl same ↦
          let kept : on k before ≡ before = before_owned id grouped h k ∙ rw same refl in
          let this : on k (op ∷ []) ≡ op ∷ [] = rw (touches-id k op, same) refl in
          rw same (added ∙ ap (λ x. x ++ on k (op ∷ [])) kept ∙ ap (◌++◌ before) this)
      | inr differs ↦
          let gone : on k before ≡ [] = before_owned id grouped h k ∙ rw differs refl in
          let this : on k (op ∷ []) ≡ [] = rw (touches-id k op, differs) refl in
          rw differs (added ∙ ap (λ x. x ++ on k (op ∷ [])) gone ∙ this)
    ]

group-Owns :
    (ops : List Operation) (grouped : Grouped)
    → All Owns grouped
    → All Owns (group_operations ops grouped)
unfolding group_operations
group-Owns [] grouped h = h
group-Owns (op ∷ ops) grouped h =
    let id = operation_id op in
    let here = found_or (Map.lookup id grouped) ++ op ∷ [] in
    group-Owns ops (Map.insert id here grouped)
      (All-insert Owns id here grouped (owned_here op grouped h) h)

entries-Owned : (gs : List OperationGroup) → All Owns (map entry_of gs) → All Owned gs
entries-Owned [] h = tt
entries-Owned (g ∷ gs) (first, rest) = (first, entries-Owned gs rest)

group_for-operations :
    (k : String) (gs : List OperationGroup)
    → found_or (Map.lookup k (map entry_of gs))
      ≡ elim (group_for k gs) [ none ↦ [] | some g ↦ g.operations ]
unfolding Map.lookup
group_for-operations k [] = refl
group_for-operations k (g ∷ gs) = elim (Bool-cases (g.change.stroke_id == k)) [
  | inl same ↦ rw same refl
  | inr differs ↦ rw differs (group_for-operations k gs)
]

-- Whether a strategy takes the group of a stroke.
abbrev pub takes_group : ConflictResolutionStrategy → Option OperationGroup → Bool
takes_group s none = false
takes_group s (some g) = takes s g

-- Of the operations on a stroke a strategy selects all, in their order, or none.
pub select-classified :
    (state : CanonicalDocumentState) (c : PreservedInput) (ops : List Operation)
    (groups : List OperationGroup) (s : ConflictResolutionStrategy) (k : String)
    → classify_operations state c ops ≡ ok groups
    → on k (select_operations groups s).operations
      ≡ (if takes_group s (group_for k groups) then on k ops else [])
unfolding classify_operations
select-classified state c ops groups s k h =
    let grouped = group_operations ops [] in
    let (entries, judged) = classify-entries state c grouped groups h in
    let owned = entries-Owned groups (subst (All Owns) (sym entries) (group-Owns ops [] tt)) in
    let selected =
      selected_on s k groups (subst Sorted (sym entries) (group-Sorted ops [] tt)) owned in
    let whole : on k ops ≡ elim (group_for k groups) [ none ↦ [] | some g ↦ g.operations ] =
      sym (group_of k ops [])
      ∙ ap (λ m. found_or (Map.lookup k m)) (sym entries)
      ∙ group_for-operations k groups in
    elim (Option-cases (group_for k groups)) [
      | inl absent ↦ rw absent (rw absent at selected)
      | inr (g, there) ↦
          let all_of_it : on k ops ≡ g.operations = rw there at whole in
          rw there ((rw there at selected) ∙ ap (λ x. if takes s g then x else []) (sym all_of_it))
    ]

last_upsert-on : (k : String) (ops : List Operation) → last_upsert k ops ≡ last_upsert k (on k ops)
last_upsert-on k [] = refl
last_upsert-on k (upsert_stroke id page before after ∷ ops) = ground (arith, last_upsert-on k ops)
last_upsert-on k (delete_stroke id page before ∷ ops) = ground (arith, last_upsert-on k ops)

first_delete-on :
    (k : String) (ops : List Operation) → first_delete k ops ≡ first_delete k (on k ops)
first_delete-on k [] = refl
first_delete-on k (upsert_stroke id page before after ∷ ops) = ground (arith, first_delete-on k ops)
first_delete-on k (delete_stroke id page before ∷ ops) = ground (arith, first_delete-on k ops)

-- A stroke after a manifest is told by the operations on it.
same_on :
    (state : CanonicalDocumentState) (m n : Manifest) (event : StorageEvent) (k : String)
    → on k m.operations ≡ on k n.operations
    → Map.lookup k (apply_manifest state m event).strokes
      ≡ Map.lookup k (apply_manifest state n event).strokes
same_on state m n event k e =
    let upserts : last_upsert k m.operations ≡ last_upsert k n.operations =
      last_upsert-on k m.operations ∙ ap (last_upsert k) e ∙ sym (last_upsert-on k n.operations) in
    let deletes : first_delete k m.operations ≡ first_delete k n.operations =
      first_delete-on k m.operations
      ∙ ap (first_delete k) e
      ∙ sym (first_delete-on k n.operations) in
    lookup-apply_manifest state m event k
    ∙ rw (upserts, deletes) (sym (lookup-apply_manifest state n event k))

none_on :
    (state : CanonicalDocumentState) (m : Manifest) (event : StorageEvent) (k : String)
    → on k m.operations ≡ []
    → Map.lookup k (apply_manifest state m event).strokes ≡ Map.lookup k state.strokes
none_on state m event k e =
    let upserts : last_upsert k m.operations ≡ none =
      last_upsert-on k m.operations ∙ ap (last_upsert k) e in
    let deletes : first_delete k m.operations ≡ none =
      first_delete-on k m.operations ∙ ap (first_delete k) e in
    lookup-apply_manifest state m event k ∙ rw (upserts, deletes) refl

-- The operations that a resolution applies are those that it selected.
operations-selected :
    (ext : External) (m : Manifest) (selection : Selection)
    → (selected_manifest ext m selection).operations ≡ selection.operations
unfolding selected_manifest refresh_manifest_id
operations-selected ext m selection = refl

keeps_all :
    (s : ConflictResolutionStrategy) (o : Option OperationGroup)
    → (s == keep_current) ≡ true
    → takes_group s o ≡ false
keeps_all s none h = refl
keeps_all s (some g) h = ground (arith, h)

-- A resolution treats the proposed operations on a stroke as one: the stroke is as the whole proposed
-- manifest would leave it, if the strategy takes its group, and as it was, if not.
pub lookup-applied_ink :
    (ext : External) (context : ConflictContext) (request : ConflictResolutionRequest)
    (proposed : Manifest) (groups : List OperationGroup) (k : String)
    → classify_operations context.state context.conflict proposed.operations ≡ ok groups
    → Map.lookup k
        (applied_ink ext context request proposed (select_operations groups request.strategy))
      ≡ Map.lookup k (
          if takes_group request.strategy (group_for k groups)
          then (apply_manifest context.state proposed
              (effective_event context.conflict request (revisions context.state))).strokes
          else context.state.strokes)
lookup-applied_ink ext context request proposed groups k h =
    let s = request.strategy in
    let event = effective_event context.conflict request (revisions context.state) in
    let chosen = selected_manifest ext proposed (select_operations groups s) in
    let here : on k chosen.operations
        ≡ (if takes_group s (group_for k groups) then on k proposed.operations else []) =
      ap (on k) (operations-selected ext proposed (select_operations groups s))
      ∙ select-classified context.state context.conflict proposed.operations groups s k h in
    elim (Bool-cases (s == keep_current)) [
      | inl kept ↦ rw (kept, keeps_all s (group_for k groups) kept) refl
      | inr changed ↦ rw changed (elim (Bool-cases (takes_group s (group_for k groups))) [
        | inl take ↦ rw take (same_on context.state chosen proposed event k (rw take at here))
        | inr leave ↦ rw leave (none_on context.state chosen event k (rw leave at here))
      ])
    ]
