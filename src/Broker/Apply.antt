-- ===== src/Broker/Apply.antt =====
-- How an accepted input changes the canonical strokes: `apply_manifest`, `apply_supernote_export` and
-- `validate_supernote_export` of inkbridge-broker/src/broker.rs.
pub mod Operations
pub mod Pages
use inkbridge.Prelude.{
  ℕ, Bool, true, false, not, ◌&&◌, ◌||◌, Option, none, some, String, List, [], ◌∷◌, ◌++◌, map, any,
  leb, eqb, is_some, if◌then◌else◌, ◌==◌, string_key, nat_key,
}
use inkbridge.Prelude.Fallible.{Result, ok, err, ◌>>=◌, ◌>>◌, map_err, refuse_if}
use inkbridge.Prelude.Map
use inkbridge.Prelude.Set
use inkbridge.Broker.Model.{
  Bytes, StrokeSnapshot, Operation, upsert_stroke, delete_stroke, Manifest, BaselinePage,
  BaselineExport, RevisionPair, set_revision, StorageEvent, CanonicalStroke, Tombstone,
  CanonicalDocumentState, revisions_key,
}
use inkbridge.Broker.Errors.{
  BrokerError, Fallible, invalid_event, conversion, export_document, export_base, export_page,
}
use inkbridge.Broker.External.{External}

abbrev pub Strokes : Type 0
Strokes = List (String × CanonicalStroke)

-- `event.based_on` with the source side at the event's revision.
unfoldable pub event_revisions : StorageEvent → RevisionPair
unfolding set_revision
event_revisions event = set_revision event.based_on event.source event.source_revision

abbrev pub active_stroke : StorageEvent → String → StrokeSnapshot → CanonicalStroke
active_stroke event id snapshot = record {
  stroke_id = id;
  snapshot = snapshot;
  last_modified_by = event.source;
  source_revisions = event_revisions event;
  tombstone = none;
}

-- The three assignments that delete a canonical stroke.
abbrev pub bury : StorageEvent → CanonicalStroke → CanonicalStroke
bury event canonical = record canonical {
  last_modified_by = event.source;
  source_revisions = event_revisions event;
  tombstone = some (record {
    deleted_by = event.source;
    deleted_at_revision = event.source_revision;
    event_id = event.event_id;
  });
}

unfoldable pub upserted : List Operation → List String
upserted [] = []
upserted (upsert_stroke id page before after ∷ ops) = id ∷ upserted ops
upserted (delete_stroke id page before ∷ ops) = upserted ops

-- `entry(id).or_insert_with(..)`: the stroke that is there, or a new one.
abbrev pub entry_or :
    StorageEvent → String → StrokeSnapshot → Option CanonicalStroke → CanonicalStroke
entry_or event id before none = active_stroke event id before
entry_or event id before (some canonical) = canonical

unfoldable pub delete_pass : StorageEvent → List String → List Operation → Strokes → Strokes
unfolding Map.insert Map.lookup Set.contains
delete_pass event ids [] strokes = strokes
delete_pass event ids (upsert_stroke id page before after ∷ ops) strokes =
    delete_pass event ids ops strokes
delete_pass event ids (delete_stroke id page before ∷ ops) strokes = delete_pass event ids ops (
    if Set.contains id ids
    then strokes
    else Map.insert id (bury event (entry_or event id before (Map.lookup id strokes))) strokes)

unfoldable pub upsert_pass : StorageEvent → List Operation → Strokes → Strokes
unfolding Map.insert
upsert_pass event [] strokes = strokes
upsert_pass event (upsert_stroke id page before after ∷ ops) strokes =
    upsert_pass event ops (Map.insert id (active_stroke event id after) strokes)
upsert_pass event (delete_stroke id page before ∷ ops) strokes = upsert_pass event ops strokes

unfoldable pub apply_manifest :
    CanonicalDocumentState → Manifest → StorageEvent → CanonicalDocumentState
unfolding delete_pass upsert_pass upserted event_revisions Set.from_list
apply_manifest state manifest event =
    let ids = Set.from_list (upserted manifest.operations) in
    record state {
      strokes =
          upsert_pass event manifest.operations
            (delete_pass event ids manifest.operations state.strokes);
    }

unfoldable pub validate_supernote_export :
    CanonicalDocumentState → StorageEvent → BaselineExport → Fallible (Unit {0})
validate_supernote_export state event export = do
  refuse_if (elim export.document_id [ none ↦ false | some id ↦ not (id == state.document_id) ])
      (invalid_event export_document)
  refuse_if
      (elim export.based_on [ none ↦ false | some based_on ↦ not (based_on == event.based_on) ])
      (invalid_event export_base)
  refuse_if (any (λ page. leb state.original_page_count page.page_index) export.pages)
      (invalid_event export_page)
  ok tt

unfoldable pub page_indices : List BaselinePage → List ℕ
page_indices [] = []
page_indices (p ∷ ps) = p.page_index ∷ page_indices ps

unfoldable pub page_strokes : List BaselinePage → List StrokeSnapshot
page_strokes [] = []
page_strokes (p ∷ ps) = p.strokes ++ page_strokes ps

-- The strokes of the exported pages that the export no longer has are deleted.
unfoldable pub bury_missing : StorageEvent → List ℕ → List String → Strokes → Strokes
unfolding Set.contains
bury_missing event pages ids [] = []
bury_missing event pages ids ((k, c) ∷ strokes) =
    (
      k,
      if Set.contains c.snapshot.page_index pages
            && (not (is_some c.tombstone) && not (Set.contains c.stroke_id ids))
          then bury event c
          else c,
    )
    ∷ bury_missing event pages ids strokes

unfoldable pub insert_all : StorageEvent → List StrokeSnapshot → Strokes → Strokes
unfolding Map.insert
insert_all event [] strokes = strokes
insert_all event (s ∷ ss) strokes =
    insert_all event ss (Map.insert s.source_uuid (active_stroke event s.source_uuid s) strokes)

abbrev pub name_supernote : CanonicalDocumentState → Option String → CanonicalDocumentState
name_supernote state none = state
name_supernote state (some name) = record state {
  supernote_device = record state.supernote_device { source_file_name = some name };
}

-- The rest of `apply_supernote_export`, after the export has been parsed and validated.
unfoldable pub apply_export :
    CanonicalDocumentState → StorageEvent → BaselineExport → CanonicalDocumentState
unfolding bury_missing insert_all page_indices page_strokes event_revisions Set.from_list
apply_export state event export =
    let state' = name_supernote state export.source_file_name in
    let incoming = page_strokes export.pages in
    let affected_pages = Set.from_list (page_indices export.pages) in
    let incoming_ids = Set.from_list (map (λ s. s.source_uuid) incoming) in
    record state' {
      strokes =
          insert_all event incoming (bury_missing event affected_pages incoming_ids state'.strokes);
    }

unfoldable pub apply_supernote_export :
    External → CanonicalDocumentState → StorageEvent → Bytes → Fallible CanonicalDocumentState
unfolding validate_supernote_export apply_export
apply_supernote_export ext state event bytes = do
  export ← map_err conversion (ext.parse_baseline_bytes bytes event.object_path)
  validate_supernote_export state event export
  ok (apply_export state event export)
