-- ===== src/Broker/Apply/Pages.antt =====
-- `apply_supernote_export` of inkbridge-broker/src/broker.rs, stroke by stroke.
use inkbridge.Prelude.{
  ℕ, ◌≡◌, refl, not, ◌&&◌, Option, none, some, String, List, [], ◌∷◌, map, arith, is_some,
  if◌then◌else◌, ◌==◌, ==_iff, string_key, nat_key,
}
use inkbridge.Prelude.Map
use inkbridge.Prelude.Map.{lookup-insert}
use inkbridge.Prelude.Set
use inkbridge.Prelude.Set.{contains-from_list}
use inkbridge.Broker.Model.{
  StrokeSnapshot, BaselineExport, StorageEvent, CanonicalStroke, CanonicalDocumentState,
}
use inkbridge.Broker.Apply
use inkbridge.Broker.Apply.{
  Strokes, active_stroke, bury, bury_missing, insert_all, page_indices, page_strokes, apply_export,
}

-- The last exported geometry of a stroke.
abbrev pub last_stroke : String → List StrokeSnapshot → Option StrokeSnapshot
last_stroke k [] = none
last_stroke k (s ∷ ss) = elim (last_stroke k ss) [
  | some later ↦ some later
  | none ↦ if s.source_uuid == k then some s else none
]

abbrev pub ids_of : List StrokeSnapshot → List String
ids_of = map (λ s. s.source_uuid)

-- What becomes of a stroke that the export does not have.
abbrev pub left_out :
    StorageEvent → List ℕ → List String → Option CanonicalStroke → Option CanonicalStroke
left_out event pages ids none = none
left_out event pages ids (some c) = some (
    if Set.contains c.snapshot.page_index pages
      && (not (is_some c.tombstone) && not (Set.contains c.stroke_id ids))
    then bury event c
    else c)

abbrev pub or_exported :
    StorageEvent → String → Option StrokeSnapshot → Option CanonicalStroke → Option CanonicalStroke
or_exported event k (some s) old = some (active_stroke event k s)
or_exported event k none old = old

lookup-bury_missing :
    (event : StorageEvent) (pages : List ℕ) (ids : List String) (strokes : Strokes) (k : String)
    → Map.lookup k (bury_missing event pages ids strokes)
      ≡ left_out event pages ids (Map.lookup k strokes)
unfolding bury_missing Map.lookup
lookup-bury_missing event pages ids [] k = refl
lookup-bury_missing event pages ids ((j, c) ∷ strokes) k =
    ground (arith, lookup-bury_missing event pages ids strokes k)

lookup-insert_all :
    (event : StorageEvent) (ss : List StrokeSnapshot) (strokes : Strokes) (k : String)
    → Map.lookup k (insert_all event ss strokes)
      ≡ or_exported event k (last_stroke k ss) (Map.lookup k strokes)
unfolding insert_all
lookup-insert_all event [] strokes k = refl
lookup-insert_all event (s ∷ ss) strokes k = ground (
  arith,
  lookup-insert_all event ss
      (Map.insert s.source_uuid (active_stroke event s.source_uuid s) strokes) k,
  lookup-insert s.source_uuid k (active_stroke event s.source_uuid s) strokes,
  ==_iff s.source_uuid k,
)

name_keeps_strokes :
    (state : CanonicalDocumentState) (name : Option String)
    → (Apply.name_supernote state name).strokes ≡ state.strokes
name_keeps_strokes state none = refl
name_keeps_strokes state (some name) = refl

left_out_raw :
    (event : StorageEvent) (pages : List ℕ) (ids : List String) (old : Option CanonicalStroke)
    → left_out event (Set.from_list pages) (Set.from_list ids) old ≡ left_out event pages ids old
left_out_raw event pages ids none = refl
left_out_raw event pages ids (some c) =
    rw (contains-from_list c.snapshot.page_index pages, contains-from_list c.stroke_id ids)

-- After an export is applied, a stroke that it holds is active with its last exported geometry; an
-- active stroke of an exported page that it does not hold carries the tombstone of the event; every
-- other stroke, those of the other pages among them, is as it was.
pub lookup-apply_export :
    (state : CanonicalDocumentState) (event : StorageEvent) (export : BaselineExport) (k : String)
    → Map.lookup k (apply_export state event export).strokes
      ≡ or_exported event k (last_stroke k (page_strokes export.pages)) (
          left_out event
            (page_indices export.pages)
            (ids_of (page_strokes export.pages))
            (Map.lookup k state.strokes))
unfolding apply_export
lookup-apply_export state event export k =
    rw (lookup-insert_all, lookup-bury_missing, left_out_raw, name_keeps_strokes)
