-- ===== src/Broker/Conflict/Proposed.antt =====
-- The manifest that a preserved input proposes: `proposed_conflict_manifest` of
-- inkbridge-broker/src/conflict.rs, with the validation of a preserved BOOX operation manifest and the
-- comparison of a preserved Supernote export with the canonical strokes.
use inkbridge.Prelude.{
  ℕ, Bool, true, false, not, ◌&&◌, ◌||◌, Option, none, some, String, List, [], ◌∷◌, ◌++◌, eqb,
  is_some, if◌then◌else◌, ◌==◌, string_key, nat_key,
}
use inkbridge.Prelude.Fallible.{ok, ◌>>=◌, ◌>>◌, map_err, refuse_if}
use inkbridge.Prelude.Map
use inkbridge.Prelude.Set
use inkbridge.Prelude.Text.{is_blank}
use inkbridge.Broker.Model.{
  Bytes, StrokeSnapshot, Operation, upsert_stroke, delete_stroke, Manifest, BaselineExport, boox,
  supernote, device_view, boox_operation_manifest, StorageEvent, event_schema_version,
  CanonicalDocumentState, PreservedInput,
}
use inkbridge.Broker.Errors.{
  Fallible, invalid_event, conversion, conflict_json, conflict_schema, conflict_page_count,
  conflict_stroke, conflict_unknown_delete, conflict_unknown_update, conflict_duplicate_delete,
  conflict_duplicate_upsert,
}
use inkbridge.Broker.External.{External}
use inkbridge.Broker.Apply.{Strokes, validate_supernote_export, page_indices, page_strokes}
use inkbridge.Broker.Validate.{
  normalize_supernote_pen_color, normalize_before, refresh_manifest_id, bad_snapshot, target_name,
}
use inkbridge.Broker.Validate.Float.{snapshot_eq}
use inkbridge.Broker.Conflict.Classify.{operation_id, manifest_summary}

unfoldable pub conflict_event : PreservedInput → (document_id : String) → StorageEvent
conflict_event c document_id = record {
  schema_version = event_schema_version;
  event_id = c.event_id;
  document_id = document_id;
  source = c.source;
  object_path = c.preserved_path;
  source_generation = c.source_generation;
  source_revision = c.source_revision;
  based_on = c.based_on;
  content_sha256 = c.content_sha256;
  payload_kind = c.payload_kind;
  broker_output = none;
}

-- The pair in `operation_kinds`: whether a delete and an upsert of the stroke were seen.
abbrev pub kinds_of : Option (Bool × Bool) → Bool × Bool
kinds_of none = (false, false)
kinds_of (some kinds) = kinds

abbrev pub Kinds : Type 0
Kinds = List (String × (Bool × Bool))

-- The strokes of the affected pages that are active, by their ids.
unfoldable pub active_on :
    List ℕ → Strokes → List (String × StrokeSnapshot) → List (String × StrokeSnapshot)
unfolding Set.contains Map.insert
active_on pages [] active = active
active_on pages ((k, c) ∷ strokes) active = active_on pages strokes (
    if not (is_some c.tombstone) && Set.contains c.snapshot.page_index pages
    then Map.insert c.stroke_id c.snapshot active
    else active)

-- What the loop over the exported strokes has gathered.
pub record Compared : Type 0 where
  pub active : List (String × StrokeSnapshot)
  pub operations : List Operation
  pub unchanged : ℕ

unfoldable pub compare_stroke : Compared → StrokeSnapshot → Compared
unfolding Map.lookup Map.remove snapshot_eq
compare_stroke found snapshot =
    let id = snapshot.source_uuid in
    let rest = record found { active = Map.remove id found.active } in
    elim (Map.lookup id found.active) [
      | some before ↦
          if snapshot_eq before snapshot
          then record rest { unchanged = ℕ.suc found.unchanged }
          else record rest {
            operations =
                found.operations
                ++ upsert_stroke id snapshot.page_index (some before) snapshot ∷ [];
          }
      | none ↦ record rest {
        operations = found.operations ++ upsert_stroke id snapshot.page_index none snapshot ∷ [];
      }
    ]

unfoldable pub compare_strokes : List StrokeSnapshot → Compared → Compared
unfolding compare_stroke
compare_strokes [] found = found
compare_strokes (snapshot ∷ snapshots) found =
    compare_strokes snapshots (compare_stroke found snapshot)

-- The deletes of what is left in `active`.
unfoldable pub deletes_of : List (String × StrokeSnapshot) → List Operation
deletes_of [] = []
deletes_of ((source_uuid, before) ∷ active) =
    delete_stroke source_uuid before.page_index before ∷ deletes_of active

-- The stable `sort_by` on the ids.
unfoldable pub insert_operation : Operation → List Operation → List Operation
unfolding operation_id
insert_operation op [] = op ∷ []
insert_operation op (next ∷ ops) =
    if string_key.lt (operation_id next) (operation_id op)
    then next ∷ insert_operation op ops
    else op ∷ next ∷ ops

unfoldable pub sort_operations : List Operation → List Operation
unfolding insert_operation
sort_operations [] = []
sort_operations (op ∷ ops) = insert_operation op (sort_operations ops)

unfoldable pub compare_export : CanonicalDocumentState → BaselineExport → Compared
unfolding active_on compare_strokes deletes_of sort_operations page_indices page_strokes
    Set.from_list
compare_export state export =
    let affected_pages = Set.from_list (page_indices export.pages) in
    let active = active_on affected_pages state.strokes [] in
    let found =
      compare_strokes (page_strokes export.pages)
        (record { active = active; operations = []; unchanged = 0 }) in
    record found { operations = sort_operations (found.operations ++ deletes_of found.active) }

abbrev pub or_else : Option String → String → String
or_else none name = name
or_else (some found) name = found

module _ (ext : External) where
  unfoldable pub validate_conflict_snapshot :
      (page_count : ℕ) → String → (page_index : ℕ) → StrokeSnapshot → Fallible (Unit {0})
  unfolding bad_snapshot
  validate_conflict_snapshot page_count source_uuid page_index snapshot =
      refuse_if (bad_snapshot ext page_count source_uuid page_index snapshot)
        (invalid_event conflict_stroke)

  abbrev pub validate_conflict_before :
      (page_count : ℕ) → String → (page_index : ℕ) → Option StrokeSnapshot → Fallible (Unit {0})
  validate_conflict_before page_count source_uuid page_index none = ok tt
  validate_conflict_before page_count source_uuid page_index (some before) =
      validate_conflict_snapshot page_count source_uuid page_index before

  -- The loop over the operations, which normalises them and refuses a second delete or upsert.
  unfoldable pub check_conflict_operations :
      CanonicalDocumentState → (page_count : ℕ) → List Operation → Kinds → Fallible (List Operation)
  unfolding validate_conflict_snapshot normalize_supernote_pen_color Map.lookup Map.insert
  check_conflict_operations state page_count [] kinds = ok []
  check_conflict_operations state page_count (delete_stroke id page before ∷ ops) kinds =
      let seen = kinds_of (Map.lookup id kinds) in
      let rest =
        check_conflict_operations state page_count ops (Map.insert id (true, seen.1) kinds) in
      do
        refuse_if (not (is_some (Map.lookup id state.strokes)))
            (invalid_event conflict_unknown_delete)
        validate_conflict_snapshot page_count id page before
        refuse_if seen.0 (invalid_event conflict_duplicate_delete)
        checked ← rest
        ok (delete_stroke id page (normalize_supernote_pen_color ext before) ∷ checked)
  check_conflict_operations state page_count (upsert_stroke id page before after ∷ ops) kinds =
      let seen = kinds_of (Map.lookup id kinds) in
      let rest =
        check_conflict_operations state page_count ops (Map.insert id (seen.0, true) kinds) in
      do
        refuse_if (is_some before && not (is_some (Map.lookup id state.strokes)))
            (invalid_event conflict_unknown_update)
        validate_conflict_before page_count id page before
        validate_conflict_snapshot page_count id page after
        refuse_if seen.1 (invalid_event conflict_duplicate_upsert)
        checked ← rest
        ok (
            upsert_stroke id page (normalize_before ext before)
              (normalize_supernote_pen_color ext after)
            ∷ checked)

  -- From the page count to the end.
  unfoldable pub check_conflict_manifest : CanonicalDocumentState → Manifest → Fallible Manifest
  unfolding check_conflict_operations manifest_summary refresh_manifest_id
  check_conflict_manifest state manifest = do
    refuse_if
        (not (eqb state.original_page_count 0)
          && not (eqb manifest.document.page_count state.original_page_count))
        (invalid_event conflict_page_count)
    operations ← check_conflict_operations state manifest.document.page_count manifest.operations []
    ok (
        refresh_manifest_id ext (record manifest {
          operations = operations;
          pdf_to_supernote_normalized_y_offset = ext.normalized_y_offset;
          document = record manifest.document { target_file_names = target_name ext state ∷ [] };
          summary = manifest_summary operations 0;
        }))

  unfoldable pub validate_conflict_boox_manifest :
      CanonicalDocumentState → Bytes → Fallible Manifest
  unfolding check_conflict_manifest
  validate_conflict_boox_manifest state bytes = do
    manifest ← map_err (λ e. invalid_event conflict_json) (ext.manifest_from_slice bytes)
    refuse_if
        (not (eqb manifest.schema_version 1)
          || (is_blank manifest.manifest_id
              || (not (manifest.source == "boox-neoreader-embedded-pdf")
                  || (is_blank manifest.document.source_file_name
                      || is_blank manifest.document.pdf_sha256))))
        (invalid_event conflict_schema)
    check_conflict_manifest state manifest

  unfoldable pub export_manifest : CanonicalDocumentState → BaselineExport → Manifest
  unfolding compare_export manifest_summary refresh_manifest_id
  export_manifest state export =
      let found = compare_export state export in
      refresh_manifest_id ext (record {
        schema_version = 1;
        manifest_id = "pending";
        source = "supernote-native-conflict-export";
        document = record {
          source_file_name =
              or_else export.source_file_name
                (or_else state.supernote_device.source_file_name state.original_file_name);
          target_file_names = state.original_file_name ∷ [];
          page_count = state.original_page_count;
          pdf_sha256 = state.original_pdf_sha256;
        };
        pdf_to_supernote_normalized_y_offset = 0;
        operations = found.operations;
        summary = record (manifest_summary found.operations 0) { unchanged = found.unchanged };
      })

  unfoldable pub supernote_export_manifest :
      CanonicalDocumentState → StorageEvent → Bytes → Fallible Manifest
  unfolding validate_supernote_export export_manifest
  supernote_export_manifest state event bytes = do
    export ← map_err conversion (ext.parse_baseline_bytes bytes "conflict-supernote.json")
    validate_supernote_export state event export
    ok (export_manifest state export)

  unfoldable pub proposed_conflict_manifest :
      CanonicalDocumentState → PreservedInput → Bytes → Fallible Manifest
  unfolding conflict_event validate_conflict_boox_manifest supernote_export_manifest
  proposed_conflict_manifest state c input =
      let event = conflict_event c state.document_id in
      elim c.source [
        | boox ↦ elim c.payload_kind [
          | device_view ↦ ext.boox_to_supernote state event input
          | boox_operation_manifest ↦ validate_conflict_boox_manifest state input
        ]
        | supernote ↦ supernote_export_manifest state event input
      ]
