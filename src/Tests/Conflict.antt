-- ===== src/Tests/Conflict.antt =====
-- `resolve_conflict` on a Supernote export that was made before the BOOX changed a stroke: a merge adds
-- the new stroke and keeps the changed one.
use inkbridge.Prelude.{
  ◌≢◌, arith, ◌⊎◌, ◌≡◌, refl, sym, ap, true, some, List, [], ◌∷◌, if◌then◌else◌, ◌==◌, string_key,
}
use inkbridge.Prelude.Fallible.{ok, err}
use inkbridge.Prelude.Map
use inkbridge.Prelude.Text.{decimal, concat, is_blank, strip_suffix}
use inkbridge.Broker.Model.{
  RevisionPair, BaselineExport, CanonicalDocumentState, PreservedInput, supernote, boox, revisions,
  device_view, merge_preserving_current,
}
use inkbridge.Broker.Json.{number}
use inkbridge.Broker.Storage.Memory.{
  MemoryStorage, memory_storage, new, put_unchecked, read, read_generation, commit,
}
use inkbridge.Broker.External.{External}
use inkbridge.Broker.Codec.{JsonLaws}
use inkbridge.Broker.Storage.{does_not_exist, StoredObject}
use inkbridge.Broker.Process.Stale.{behind}
use inkbridge.Broker.Paths.{supernote_manifest_path, state_path, boox_view_path}
use inkbridge.Broker.Conflict.Types.{
  ConflictAnalysis, add, delete, ConflictContext, ConflictResolutionRequest,
  ConflictResolutionOutcome, OperationGroup, resolved, duplicate,
}
use inkbridge.Broker.Conflict.Classify.{
  changed_after, Selection, classify_operations, select_operations,
}
use inkbridge.Broker.Conflict.Proposed.{export_manifest}
use inkbridge.Broker.Conflict.Settle.{
  OutputFile, settled_state, with_output_views, with_record, resolution_record,
}
use inkbridge.Broker.Storage.Atomic.{memory_storage-CommitLaws}
use inkbridge.Broker.Apply.{apply_manifest}
use inkbridge.Prelude.Text.{take_chars, utf8}
use inkbridge.Broker.Conflict.Context.{find_conflict, inspect_conflict}
use inkbridge.Broker.Conflict.Settle.{effective_event}
use inkbridge.Broker.Conflict.Settling.{applied_ink}
use inkbridge.Broker.Conflict.Groups.{group_for}
use inkbridge.Broker.Conflict.Selected.{takes_group, lookup-applied_ink}
use inkbridge.Broker.Conflict.Merge.{changed_since, merge_keeps_changed}
use inkbridge.Broker.Conflict.Announced.{stroke_ids, inspect_announces_merge}
use inkbridge.Broker.Conflict.Once.{
  Settlement, resolve_twice, resolve_conflict-behind, resolve_conflict-Settlement,
}
use inkbridge.Broker.Conflict.Outcome.{again}
use inkbridge.Broker.Conflict.Next.{Stored}
use inkbridge.Broker.Conflict.Resolve.{resolve_conflict}
use inkbridge.Tests.Fixtures.{
  edit, outside, initial, export, old_stroke, state_discrete, encode, encode_one,
}

abbrev nothing_seen : RevisionPair
nothing_seen = record { boox_revision = 0; supernote_revision = 0 }

abbrev incoming : PreservedInput
incoming = record {
  event_id = "e2";
  source = supernote;
  object_path = "Supernote/doc.json";
  payload_kind = device_view;
  preserved_path = "Conflicts/doc/e2/incoming.json";
  competing_preserved_paths = [];
  source_generation = 3;
  source_revision = 1;
  content_sha256 = "2";
  based_on = nothing_seen;
  current_revisions = record { boox_revision = 1; supernote_revision = 0 };
}

abbrev conflicted : CanonicalDocumentState
conflicted = record initial { conflicts = incoming ∷ [] }

-- The export of the first page with the stroke s2 only.
abbrev old_export : BaselineExport
old_export = record export { based_on = some nothing_seen }

abbrev request : ConflictResolutionRequest
request = record {
  schema_version = 1;
  resolution_id = "r1";
  document_id = "doc";
  conflict_event_id = "e2";
  expected_state_revision = 1;
  expected_current_revisions = record { boox_revision = 1; supernote_revision = 0 };
  strategy = merge_preserving_current;
}

abbrev reader : External
reader = record outside {
  parse_baseline_bytes = λ bytes name. ok old_export;
  build_manifest = λ state pages pdf. ok edit;
}

unfoldable groups : List OperationGroup
unfolding classify_operations export_manifest concat decimal
groups =
    elim (classify_operations conflicted incoming
      (export_manifest reader conflicted old_export).operations) [ ok gs ↦ gs | err e ↦ [] ]

abbrev context : ConflictContext
context = record {
  state_object = record { bytes = 0 ∷ 10 ∷ []; generation = 2; metadata = [] };
  state = conflicted;
  conflict = incoming;
  input = record { bytes = 5 ∷ 5 ∷ []; generation = 3; metadata = [] };
}

abbrev selection : Selection
selection = select_operations groups merge_preserving_current

abbrev settled : CanonicalDocumentState
settled =
    settled_state reader context request (export_manifest reader conflicted old_export) selection

abbrev files : List OutputFile
files =
    record {
      side = boox;
      object_path = "BOOX_Folder/doc/notes.pdf";
      content = 7 ∷ 7 ∷ 7 ∷ 7 ∷ [];
      precondition = does_not_exist;
    }
    ∷ record {
      side = supernote;
      object_path = supernote_manifest_path reader "doc" "r1";
      content = 10 ∷ [];
      precondition = does_not_exist;
    }
    ∷ []

-- The state that the merge leads to.
unfoldable merged : CanonicalDocumentState
unfolding groups select_operations settled_state with_output_views with_record resolution_record
    concat decimal
merged =
    with_record (with_output_views reader settled request files)
      (resolution_record reader context request (revisions settled) selection)

-- The reader, with a JSON for the two states.
abbrev settler : External
settler = record reader {
  state_to_json = λ state. encode (state_discrete state merged);
  state_from_json = λ v. elim v [
    | number n ↦ if n == "0" then ok conflicted else ok merged
    | _ ↦ err "not a state"
  ];
}

settler-JsonLaws : JsonLaws settler
unfolding decimal
settler-JsonLaws = record {
  value = λ state. number "1";
  parses = λ state json h. rw ((encode_one (state_discrete state merged) json h).0) refl;
  reads_back = λ state json h. ap ok (sym ((encode_one (state_discrete state merged) json h).1));
  writes_kinds = λ state. tt;
}

-- The original, the state and the preserved export, at the generations 1, 2 and 3.
unfoldable stored : MemoryStorage
unfolding put_unchecked
stored =
    let m = (put_unchecked new "Originals/doc/original.pdf" (1 ∷ 2 ∷ 3 ∷ []) []).0 in
    let m = (put_unchecked m "Canonical/doc/state.json" (0 ∷ 10 ∷ []) []).0 in
    (put_unchecked m "Conflicts/doc/e2/incoming.json" (5 ∷ 5 ∷ []) []).0

abbrev no_answer : ConflictResolutionOutcome × MemoryStorage
no_answer = (duplicate "" "" "" merge_preserving_current, new)

unfoldable result : ConflictResolutionOutcome × MemoryStorage
unfolding groups merged stored resolve_conflict boox_view_path state_path concat decimal is_blank
    strip_suffix read read_generation commit state_discrete
result = elim (resolve_conflict memory_storage settler stored request) [
  | ok r ↦ r
  | err e ↦ no_answer
]

abbrev outcome : ConflictResolutionOutcome
outcome =
    resolved "doc" "e2" "r1" merge_preserving_current
      (record { boox_revision = 1; supernote_revision = 1 }) ("s2" ∷ []) ("s1" ∷ [])
      (record { side = boox; object_path = "BOOX_Folder/doc/notes.pdf"; generation = 4 }
        ∷ record {
          side = supernote;
          object_path = "Supernote_Folder/doc/incoming/r1-2.operations.json";
          generation = 5;
        }
        ∷ [])

merges : resolve_conflict memory_storage settler stored request ≡ ok (outcome, result.1)
unfolding result groups merged stored resolve_conflict boox_view_path state_path concat decimal
    is_blank strip_suffix read read_generation commit state_discrete take_chars utf8
merges = refl

resolve_twice_example :
    resolve_conflict memory_storage settler result.1 request
    ≡ ok (duplicate "doc" "e2" "r1" merge_preserving_current, result.1)
resolve_twice_example =
    resolve_twice memory_storage settler memory_storage-CommitLaws settler-JsonLaws stored result.1
      request outcome merges

resolve_conflict-Settlement_example :
    ((outcome ≡ again request) × (stored ≡ result.1))
    ⊎ Settlement memory_storage settler stored result.1 request
resolve_conflict-Settlement_example =
    resolve_conflict-Settlement memory_storage settler memory_storage-CommitLaws settler-JsonLaws
      stored result.1 request outcome merges

-- The state that is stored, and the analysis of its conflict.
before : Stored memory_storage settler stored "doc" conflicted
unfolding result groups merged stored resolve_conflict boox_view_path state_path concat decimal
    is_blank strip_suffix read read_generation commit state_discrete take_chars utf8
before = record {
  object = record { bytes = 0 ∷ 10 ∷ []; generation = 2; metadata = [] };
  found = refl;
  decoded = refl;
}

active : find_conflict "e2" conflicted.conflicts ≡ some incoming
unfolding find_conflict
active = refl

stroke_there : Map.lookup "s1" conflicted.strokes ≡ some old_stroke
unfolding Map.lookup
stroke_there = refl

stroke_changed : changed_since old_stroke incoming.based_on ≡ true
unfolding changed_after
stroke_changed = refl

merge_keeps_changed_example :
    (next : CanonicalDocumentState) × Stored memory_storage settler result.1 "doc" next
    × (Map.lookup "s1" next.strokes ≡ some old_stroke)
merge_keeps_changed_example =
    merge_keeps_changed memory_storage settler memory_storage-CommitLaws settler-JsonLaws stored
      result.1 request outcome conflicted incoming "s1" old_stroke before active refl stroke_there
      stroke_changed merges

abbrev analysis : ConflictAnalysis
analysis = record {
  document_id = "doc";
  conflict_event_id = "e2";
  source = supernote;
  source_revision = 1;
  based_on = nothing_seen;
  current_revisions = record { boox_revision = 1; supernote_revision = 0 };
  state_revision = 1;
  safe_changes = record { stroke_id = "s2"; kind = add; page_index = 0 } ∷ [];
  overlapping_changes = record { stroke_id = "s1"; kind = delete; page_index = 0 } ∷ [];
}

inspects : inspect_conflict memory_storage settler stored "doc" "e2" ≡ ok analysis
unfolding result groups merged stored resolve_conflict boox_view_path state_path concat decimal
    is_blank strip_suffix read read_generation commit state_discrete take_chars utf8
    inspect_conflict
inspects = refl

inspect_announces_merge_example :
    ("s2" ∷ [] ≡ stroke_ids analysis.safe_changes)
    × ("s1" ∷ [] ≡ stroke_ids analysis.overlapping_changes)
    × (request.expected_state_revision ≡ analysis.state_revision)
inspect_announces_merge_example =
    inspect_announces_merge memory_storage settler stored result.1 request analysis "doc" "e2" "r1"
      merge_preserving_current _ ("s2" ∷ []) ("s1" ∷ []) _ inspects refl merges

classifies :
    classify_operations conflicted incoming
      (export_manifest reader conflicted old_export).operations
    ≡ ok groups
unfolding result groups merged stored resolve_conflict boox_view_path state_path concat decimal
    is_blank strip_suffix read read_generation commit state_discrete take_chars utf8
    classify_operations export_manifest
classifies = refl

lookup-applied_ink_example :
    Map.lookup "s2" (
      applied_ink reader context request
        (export_manifest reader conflicted old_export)
        (select_operations groups request.strategy))
    ≡ Map.lookup "s2" (
        if takes_group request.strategy (group_for "s2" groups)
        then (apply_manifest context.state
            (export_manifest reader conflicted old_export)
            (effective_event context.conflict request (revisions context.state))).strokes
        else context.state.strokes)
lookup-applied_ink_example =
    lookup-applied_ink reader context request (export_manifest reader conflicted old_export) groups
      "s2" classifies

-- Another has written the state after the snapshot `result.1` was read.
unfoldable later : MemoryStorage
unfolding put_unchecked result groups merged stored resolve_conflict boox_view_path state_path
    concat decimal is_blank strip_suffix read read_generation commit state_discrete take_chars utf8
later = (put_unchecked result.1 "Canonical/doc/state.json" (1 ∷ 10 ∷ []) []).0

unfoldable state_in : MemoryStorage → StoredObject
unfolding read
state_in m = elim (memory_storage.read m "Canonical/doc/state.json") [
  | ok (some o) ↦ o
  | _ ↦ record { bytes = []; generation = 0; metadata = [] }
]

read_snapshot : memory_storage.read result.1 (state_path "doc") ≡ ok (some (state_in result.1))
unfolding state_in result groups merged stored resolve_conflict boox_view_path state_path concat
    decimal is_blank strip_suffix read read_generation commit state_discrete take_chars utf8
read_snapshot = refl

read_later : memory_storage.read later (state_path "doc") ≡ ok (some (state_in later))
unfolding later put_unchecked state_in result groups merged stored resolve_conflict boox_view_path
    state_path concat decimal is_blank strip_suffix read read_generation commit state_discrete
    take_chars utf8
read_later = refl

generations_differ : (state_in result.1).generation ≢ (state_in later).generation
unfolding later put_unchecked state_in result groups merged stored resolve_conflict boox_view_path
    state_path concat decimal is_blank strip_suffix read read_generation commit state_discrete
    take_chars utf8
generations_differ = omega arith

asked_behind :
    resolve_conflict (behind memory_storage) settler (result.1, later) request
    ≡ ok (duplicate "doc" "e2" "r1" merge_preserving_current, (result.1, later))
unfolding later put_unchecked state_in result groups merged stored resolve_conflict boox_view_path
    state_path concat decimal is_blank strip_suffix read read_generation commit state_discrete
    take_chars utf8
asked_behind = refl

resolve_conflict-behind_example :
    (duplicate "doc" "e2" "r1" merge_preserving_current
      ≡ duplicate "doc" "e2" "r1" merge_preserving_current)
    × (◌≡◌ {A = MemoryStorage × MemoryStorage} (result.1, later) (result.1, later))
resolve_conflict-behind_example =
    resolve_conflict-behind memory_storage settler memory_storage-CommitLaws result.1 later
      (result.1, later) request (duplicate "doc" "e2" "r1" merge_preserving_current)
      (state_in result.1) (state_in later) read_snapshot read_later generations_differ asked_behind
