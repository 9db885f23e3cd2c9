-- ===== src/Broker/Conflict/Groups.antt =====
-- What `classify_operations` and `select_operations` of inkbridge-broker/src/conflict.rs do with the
-- operations on one stroke: they stay together, in their order, and are taken or left as one group.
use inkbridge.Prelude.{
  ◌≡◌, refl, ◌∙◌, ap, sym, subst, Option, none, some, String, List, [], ◌∷◌, ◌++◌, map, keep, All,
  arith, ℕ, Bool-cases, Option-cases, inl, inr, if◌then◌else◌, ◌==◌, ==_iff, string_key,
}
use inkbridge.Broker.Errors.{Fallible, conversion_refused, unsupported_set}
use inkbridge.Prelude.Fallible.{ok, err, >>=-eq-ok}
use inkbridge.Prelude.Map
use inkbridge.Prelude.Map.{lookup-insert}
use inkbridge.Prelude.Order.{text_order}
use inkbridge.Prelude.Sorted.{Above, Sorted, lookup-Above, insert-Sorted}
use inkbridge.Broker.Model.{
  Operation, upsert_stroke, delete_stroke, CanonicalDocumentState, PreservedInput,
  ConflictResolutionStrategy,
}
use inkbridge.Broker.Validate.Sets.{touches}
use inkbridge.Broker.Conflict.Types.{ConflictChangeKind, OperationGroup, ConflictStrokeChange}
use inkbridge.Broker.Conflict.Classify.{
  operation_id, find_delete, find_upsert, change_of, describe_change, is_safe, group_operations,
  classify_groups, takes, select_operations,
}

abbrev pub Grouped : Type 0
Grouped = List (String × List Operation)

-- Of a list of operations, those on one stroke.
abbrev pub on : String → List Operation → List Operation
on k ops = keep (touches k) ops

abbrev pub found_or : Option (List Operation) → List Operation
found_or none = []
found_or (some ops) = ops

pub touches-id : (k : String) (op : Operation) → touches k op ≡ (operation_id op == k)
unfolding operation_id
touches-id k (upsert_stroke id page before after) = refl
touches-id k (delete_stroke id page before) = refl

append_assoc {ℓ} : {A : Type ℓ} (xs ys zs : List A) → (xs ++ ys) ++ zs ≡ xs ++ (ys ++ zs)
append_assoc [] ys zs = refl
append_assoc (x ∷ xs) ys zs = ap (◌∷◌ x) (append_assoc xs ys zs)

append_nil {ℓ} : {A : Type ℓ} (xs : List A) → xs ++ [] ≡ xs
append_nil [] = refl
append_nil (x ∷ xs) = ap (◌∷◌ x) (append_nil xs)

-- The group of a stroke is what was grouped before and its operations, in their order.
pub group_of :
    (k : String) (ops : List Operation) (grouped : Grouped)
    → found_or (Map.lookup k (group_operations ops grouped))
      ≡ found_or (Map.lookup k grouped) ++ on k ops
unfolding group_operations
group_of k [] grouped = sym (append_nil (found_or (Map.lookup k grouped)))
group_of k (op ∷ ops) grouped =
    let id = operation_id op in
    let here = elim (Map.lookup id grouped) [ none ↦ [] | some found ↦ found ] ++ op ∷ [] in
    let step = group_of k ops (Map.insert id here grouped) in
    let looked = lookup-insert id k here grouped in
    let before = λ (o : Option (List Operation)). found_or o ++ on k ops in
    elim (Bool-cases (id == k)) [
      | inl same ↦
          let inserted : Map.lookup k (Map.insert id here grouped) ≡ some here =
            looked ∙ rw same refl in
          step
          ∙ ap before inserted
          ∙ append_assoc (found_or (Map.lookup id grouped)) (op ∷ []) (on k ops)
          ∙ ap (λ j. found_or (Map.lookup j grouped) ++ op ∷ on k ops) ((==_iff id k).0 same)
          ∙ rw (touches-id k op, same) refl
      | inr differs ↦
          let kept : Map.lookup k (Map.insert id here grouped) ≡ Map.lookup k grouped =
            looked ∙ rw differs refl in
          step ∙ ap before kept ∙ rw (touches-id k op, differs) refl
    ]

pub group-Sorted :
    (ops : List Operation) (grouped : Grouped)
    → Sorted grouped
    → Sorted (group_operations ops grouped)
unfolding group_operations
group-Sorted [] grouped h = h
group-Sorted (op ∷ ops) grouped h =
    let id = operation_id op in
    let here = elim (Map.lookup id grouped) [ none ↦ [] | some found ↦ found ] ++ op ∷ [] in
    group-Sorted ops (Map.insert id here grouped) (insert-Sorted text_order id here grouped h)

abbrev pub entry_of : OperationGroup → String × List Operation
entry_of group = (group.change.stroke_id, group.operations)

described-none :
    (id : String) {change : ConflictStrokeChange}
    → ◌≡◌ {A = Fallible ConflictStrokeChange} (err (conversion_refused unsupported_set)) (ok change)
    → ⊥
described-none id h = cc h

described-same :
    (id : String) (kind : ConflictChangeKind) (page : ℕ) (change : ConflictStrokeChange)
    → ◌≡◌ {A = Fallible ConflictStrokeChange}
        (ok (record { stroke_id = id; kind = kind; page_index = page }))
        (ok change)
    → change.stroke_id ≡ id
described-same id kind page change h =
    let e : record { stroke_id = id; kind = kind; page_index = page } ≡ change = cc h in
    ap (λ x. x.stroke_id) (sym e)

describe-id :
    (id : String) (ops : List Operation) (change : ConflictStrokeChange)
    → describe_change id ops ≡ ok change
    → change.stroke_id ≡ id
unfolding describe_change
describe-id id ops change h = elim (Option-cases (change_of (find_delete ops) (find_upsert ops))) [
  | inl unsupported ↦ absurd (described-none id (rw (describe_change, unsupported) at h))
  | inr (described, e) ↦
      described-same id described.0 described.1 change (rw (describe_change, e) at h)
]

-- Each group is that of the entry, with its safety.
abbrev pub Judged : CanonicalDocumentState → PreservedInput → OperationGroup → Type 0
Judged state c g = g.safe ≡ is_safe state c g.change g.operations

-- The groups are the entries, in their order.
pub classify-entries :
    (state : CanonicalDocumentState) (c : PreservedInput) (grouped : Grouped)
    (groups : List OperationGroup)
    → classify_groups state c grouped ≡ ok groups
    → (map entry_of groups ≡ grouped) × All (Judged state c) groups
unfolding classify_groups
classify-entries state c [] groups h =
    let e : [] ≡ groups = cc h in
    subst (λ gs. (map entry_of gs ≡ []) × All (Judged state c) gs) e (refl, tt)
classify-entries state c ((id, ops) ∷ grouped) groups h =
    let (change, described, h₁) = >>=-eq-ok (describe_change id ops) _ h in
    let (rest, classified, h₂) = >>=-eq-ok (classify_groups state c grouped) _ h₁ in
    let g : OperationGroup = record {
      change = change;
      operations = ops;
      safe = is_safe state c change ops;
    } in
    let e : g ∷ rest ≡ groups = cc h₂ in
    let (entries, judged) = classify-entries state c grouped rest classified in
    subst (λ gs. (map entry_of gs ≡ (id, ops) ∷ grouped) × All (Judged state c) gs) e
      (rw (describe-id id ops change described, entries) refl, (refl, judged))

-- A group for a stroke, the first if there were several.
abbrev pub group_for : String → List OperationGroup → Option OperationGroup
group_for k [] = none
group_for k (g ∷ gs) = if g.change.stroke_id == k then some g else group_for k gs

-- The operations that a strategy takes of a group.
abbrev pub taken : ConflictResolutionStrategy → Option OperationGroup → List Operation
taken s none = []
taken s (some g) = if takes s g then g.operations else []

-- A group whose operations are all on its stroke.
abbrev pub Owned : OperationGroup → Type 0
Owned g = (k : String) → on k g.operations ≡ (if g.change.stroke_id == k then g.operations else [])

pub on-append : (k : String) (xs ys : List Operation) → on k (xs ++ ys) ≡ on k xs ++ on k ys
on-append k [] ys = refl
on-append k (x ∷ xs) ys = elim (Bool-cases (touches k x)) [
  | inl e ↦ rw e (ap (◌∷◌ x) (on-append k xs ys))
  | inr e ↦ rw e (on-append k xs ys)
]

group_for-entries :
    (k : String) (gs : List OperationGroup)
    → Map.lookup k (map entry_of gs) ≡ none
    → group_for k gs ≡ none
unfolding Map.lookup
group_for-entries k [] h = refl
group_for-entries k (g ∷ gs) h = ground (arith, group_for-entries k gs)

pub selected_on :
    (s : ConflictResolutionStrategy) (k : String) (gs : List OperationGroup)
    → Sorted (map entry_of gs)
    → All Owned gs
    → on k (select_operations gs s).operations ≡ taken s (group_for k gs)
unfolding select_operations
selected_on s k [] sorted owned = refl
selected_on s k (g ∷ gs) (above, sorted) (mine, owned) =
    let rest = selected_on s k gs sorted owned in
    let absent : g.change.stroke_id ≡ k → group_for k gs ≡ none = λ e. group_for-entries k gs (
      lookup-Above text_order k (map entry_of gs)
        (subst (λ j. Above j (map entry_of gs)) e above)) in
    let both = on-append k g.operations (select_operations gs s).operations in
    let tail = on k (select_operations gs s).operations in
    elim (Bool-cases (g.change.stroke_id == k)) [
      | inl same ↦
          let none_left : tail ≡ [] =
            rest ∙ ap (taken s) (absent ((==_iff g.change.stroke_id k).0 same)) in
          let whole : on k g.operations ≡ g.operations = mine k ∙ rw same refl in
          elim (Bool-cases (takes s g)) [
            | inl take ↦
                rw (take, same, take)
                  (both
                    ∙ ap (λ x. x ++ tail) whole
                    ∙ ap (◌++◌ g.operations) none_left
                    ∙ append_nil g.operations)
            | inr leave ↦ rw (leave, same, leave) none_left
          ]
      | inr differs ↦
          let nothing : on k g.operations ≡ [] = mine k ∙ rw differs refl in
          elim (Bool-cases (takes s g)) [
            | inl take ↦ rw (take, differs) (both ∙ ap (λ x. x ++ tail) nothing ∙ rest)
            | inr leave ↦ rw (leave, differs) rest
          ]
    ]
