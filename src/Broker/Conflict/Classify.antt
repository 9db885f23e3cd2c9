-- ===== src/Broker/Conflict/Classify.antt =====
-- How inkbridge-broker/src/conflict.rs sorts the operations of a preserved input by stroke, and which
-- of them it takes: `classify_operations`, `select_operations` and what they call.
use inkbridge.Prelude.{
  ℕ, Bool, true, false, not, ◌&&◌, ◌||◌, Option, none, some, String, List, [], ◌∷◌, ◌++◌, any, all,
  ltb, leb, eqb, is_some, if◌then◌else◌, ◌==◌, string_key,
}
use inkbridge.Prelude.Fallible.{ok, err, ◌>>=◌}
use inkbridge.Prelude.Map
use inkbridge.Prelude.Set
use inkbridge.Broker.Model.{
  StrokeSnapshot, Operation, upsert_stroke, delete_stroke, Summary, RevisionPair, revision_of,
  CanonicalStroke, CanonicalDocumentState, PreservedInput, ConflictResolutionStrategy, keep_current,
  accept_incoming, merge_preserving_current, ConflictResolutionRecord, side_key,
}
use inkbridge.Broker.Errors.{Fallible, unsupported_set, conversion_refused}
use inkbridge.Broker.Validate.{count_upserts}
use inkbridge.Broker.Validate.Float.{snapshot_eq, style_eq, samples_eq}
use inkbridge.Broker.Conflict.Types.{
  ConflictChangeKind, add, update, delete, move, ConflictStrokeChange, OperationGroup,
}

unfoldable pub operation_id : Operation → String
operation_id (upsert_stroke id page before after) = id
operation_id (delete_stroke id page before) = id

abbrev pub is_upsert : Operation → Bool
is_upsert (upsert_stroke id page before after) = true
is_upsert (delete_stroke id page before) = false

unfoldable pub count_deletes : List Operation → ℕ
count_deletes [] = 0
count_deletes (upsert_stroke id page before after ∷ ops) = count_deletes ops
count_deletes (delete_stroke id page before ∷ ops) = ℕ.suc (count_deletes ops)

unfoldable pub manifest_summary : List Operation → (skipped : ℕ) → Summary
unfolding count_upserts count_deletes
manifest_summary operations skipped = record {
  upserted = count_upserts operations;
  deleted = count_deletes operations;
  unchanged = 0;
  skipped = skipped;
}

unfoldable pub changed_after : (revisions baseline : RevisionPair) → Bool
changed_after revisions baseline =
    ltb baseline.boox_revision revisions.boox_revision
    || ltb baseline.supernote_revision revisions.supernote_revision

-- The first delete and the first upsert, by `find_map`.
unfoldable pub find_delete : List Operation → Option StrokeSnapshot
find_delete [] = none
find_delete (delete_stroke id page before ∷ ops) = some before
find_delete (upsert_stroke id page before after ∷ ops) = find_delete ops

unfoldable pub find_upsert : List Operation → Option (Option StrokeSnapshot × StrokeSnapshot)
find_upsert [] = none
find_upsert (upsert_stroke id page before after ∷ ops) = some (before, after)
find_upsert (delete_stroke id page before ∷ ops) = find_upsert ops

-- The `match (delete, upsert)`.
unfoldable pub change_of :
    Option StrokeSnapshot
    → Option (Option StrokeSnapshot × StrokeSnapshot)
    → Option (ConflictChangeKind × ℕ)
change_of (some before) (some (none, after)) =
    if not (eqb before.page_index after.page_index) then some (move, after.page_index) else none
change_of none (some (none, after)) = some (add, after.page_index)
change_of none (some (some before, after)) =
    if style_eq before.native_style after.native_style
      && (not (eqb before.page_index after.page_index)
          || not (samples_eq before.samples after.samples))
    then some (move, after.page_index)
    else some (update, after.page_index)
change_of (some before) none = some (delete, before.page_index)
change_of (some before) (some (some old, after)) = none
change_of none none = none

unfoldable pub describe_change : String → List Operation → Fallible ConflictStrokeChange
unfolding find_delete find_upsert change_of
describe_change stroke_id operations =
    elim (change_of (find_delete operations) (find_upsert operations)) [
      | none ↦ err (conversion_refused unsupported_set)
      | some (kind, page_index) ↦
          ok (record { stroke_id = stroke_id; kind = kind; page_index = page_index })
    ]

-- The stroke's revision on the conflict's side is none, or no later than `revision`.
abbrev pub no_later : Option CanonicalStroke → PreservedInput → (revision : ℕ) → Bool
no_later none c revision = true
no_later (some stroke) c revision = leb (revision_of stroke.source_revisions c.source) revision

-- The closure of `any` in `inherited_rejected_change`.
unfoldable pub rejected_by :
    Option CanonicalStroke → PreservedInput → String → ConflictResolutionRecord → Bool
unfolding revision_of Set.contains
rejected_by canonical c stroke_id r =
    r.source == c.source
    && (leb (revision_of r.resulting_revisions c.source) (revision_of c.based_on c.source)
        && (no_later canonical c (revision_of r.resulting_revisions c.source)
            && Set.contains stroke_id r.preserved_current_stroke_ids))

unfoldable pub inherited_rejected_change : CanonicalDocumentState → PreservedInput → String → Bool
unfolding rejected_by Map.lookup
inherited_rejected_change state c stroke_id =
    any (λ r. rejected_by (Map.lookup stroke_id state.strokes) c stroke_id r.1)
      state.resolved_conflicts

abbrev pub is_addition : Operation → Bool
is_addition (upsert_stroke id page none after) = true
is_addition (upsert_stroke id page (some before) after) = false
is_addition (delete_stroke id page before) = false

abbrev pub deletes_current : StrokeSnapshot → Operation → Bool
deletes_current current (delete_stroke id page before) = snapshot_eq before current
deletes_current current (upsert_stroke id page before after) = false

abbrev pub matches_current : List Operation → StrokeSnapshot → Operation → Bool
matches_current operations current (delete_stroke id page before) = snapshot_eq before current
matches_current operations current (upsert_stroke id page (some before) after) =
    snapshot_eq before current
matches_current operations current (upsert_stroke id page none after) =
    any (deletes_current current) operations

unfoldable pub operations_match_current : List Operation → Option StrokeSnapshot → Bool
unfolding snapshot_eq
operations_match_current operations none = all is_addition operations
operations_match_current operations (some current) =
    all (matches_current operations current) operations

-- `unchanged_since_baseline`
unfoldable pub unchanged_since_baseline :
    ConflictChangeKind → Option CanonicalStroke → RevisionPair → Bool
unfolding changed_after
unchanged_since_baseline add canonical based_on = not (is_some canonical)
unchanged_since_baseline kind none based_on = false
unchanged_since_baseline kind (some stroke) based_on =
    not (is_some stroke.tombstone) && not (changed_after stroke.source_revisions based_on)

abbrev pub snapshot_of : Option CanonicalStroke → Option StrokeSnapshot
snapshot_of none = none
snapshot_of (some stroke) = some stroke.snapshot

-- `safe` of one group.
unfoldable pub is_safe :
    CanonicalDocumentState → PreservedInput → ConflictStrokeChange → List Operation → Bool
unfolding unchanged_since_baseline inherited_rejected_change operations_match_current Map.lookup
is_safe state c change operations =
    let canonical = Map.lookup change.stroke_id state.strokes in
    unchanged_since_baseline change.kind canonical c.based_on
    && (not (inherited_rejected_change state c change.stroke_id)
        && operations_match_current operations (snapshot_of canonical))

-- The loop that fills `grouped`.
unfoldable pub group_operations :
    List Operation → List (String × List Operation) → List (String × List Operation)
unfolding operation_id Map.insert Map.lookup
group_operations [] grouped = grouped
group_operations (op ∷ ops) grouped = group_operations ops (
    Map.insert (operation_id op)
      (elim (Map.lookup (operation_id op) grouped) [ none ↦ [] | some found ↦ found ] ++ op ∷ [])
      grouped)

-- The closure of `map`, on every entry, up to the first error.
unfoldable pub classify_groups :
    CanonicalDocumentState
    → PreservedInput
    → List (String × List Operation)
    → Fallible (List OperationGroup)
unfolding describe_change is_safe
classify_groups state c [] = ok []
classify_groups state c ((stroke_id, operations) ∷ grouped) =
    describe_change stroke_id operations >>= λ change. classify_groups state c grouped >>= λ groups.
    ok (
      record { change = change; operations = operations; safe = is_safe state c change operations }
      ∷ groups)

unfoldable pub classify_operations :
    CanonicalDocumentState → PreservedInput → List Operation → Fallible (List OperationGroup)
unfolding group_operations classify_groups
classify_operations state c operations = classify_groups state c (group_operations operations [])

abbrev pub takes : ConflictResolutionStrategy → OperationGroup → Bool
takes keep_current group = false
takes accept_incoming group = true
takes merge_preserving_current group = group.safe

pub record Selection : Type 0 where
  pub operations : List Operation
  pub applied : List String
  pub preserved : List String

unfoldable pub select_operations : List OperationGroup → ConflictResolutionStrategy → Selection
select_operations [] strategy = record { operations = []; applied = []; preserved = [] }
select_operations (group ∷ groups) strategy =
    let rest = select_operations groups strategy in
    if takes strategy group
    then record rest {
      operations = group.operations ++ rest.operations;
      applied = group.change.stroke_id ∷ rest.applied;
    }
    else record rest { preserved = group.change.stroke_id ∷ rest.preserved }
