-- ===== src/Broker/Apply/Operations.antt =====
-- `apply_manifest` of inkbridge-broker/src/broker.rs, stroke by stroke.
use inkbridge.Prelude.{
  ◌≡◌, refl, Option, none, some, String, List, [], ◌∷◌, arith, is_some, if◌then◌else◌, ◌==◌, ==_iff,
  string_key,
}
use inkbridge.Prelude.Map
use inkbridge.Prelude.Map.{lookup-insert}
use inkbridge.Prelude.Set
use inkbridge.Prelude.Set.{contains-from_list}
use inkbridge.Broker.Model.{
  StrokeSnapshot, Operation, upsert_stroke, delete_stroke, Manifest, StorageEvent, CanonicalStroke,
  CanonicalDocumentState,
}
use inkbridge.Broker.Apply.{
  Strokes, active_stroke, bury, upserted, entry_or, delete_pass, upsert_pass, apply_manifest,
}

-- The geometry of the last upsert of a stroke, and what its first delete says was there.
abbrev pub last_upsert : String → List Operation → Option StrokeSnapshot
last_upsert k [] = none
last_upsert k (upsert_stroke id page before after ∷ ops) = elim (last_upsert k ops) [
  | some later ↦ some later
  | none ↦ if id == k then some after else none
]
last_upsert k (delete_stroke id page before ∷ ops) = last_upsert k ops

abbrev pub first_delete : String → List Operation → Option StrokeSnapshot
first_delete k [] = none
first_delete k (upsert_stroke id page before after ∷ ops) = first_delete k ops
first_delete k (delete_stroke id page before ∷ ops) =
    if id == k then some before else first_delete k ops

contains-upserted :
    (k : String) (ops : List Operation)
    → Set.contains k (upserted ops) ≡ is_some (last_upsert k ops)
unfolding Set.contains upserted
contains-upserted k [] = refl
contains-upserted k (upsert_stroke id page before after ∷ ops) =
    ground (arith, contains-upserted k ops)
contains-upserted k (delete_stroke id page before ∷ ops) = contains-upserted k ops

abbrev pub or_upserted :
    StorageEvent → String → Option StrokeSnapshot → Option CanonicalStroke → Option CanonicalStroke
or_upserted event k (some after) old = some (active_stroke event k after)
or_upserted event k none old = old

abbrev pub or_deleted :
    StorageEvent → String → Option StrokeSnapshot → Option CanonicalStroke → Option CanonicalStroke
or_deleted event k (some before) old = some (bury event (entry_or event k before old))
or_deleted event k none old = old

lookup-upsert_pass :
    (event : StorageEvent) (ops : List Operation) (strokes : Strokes) (k : String)
    → Map.lookup k (upsert_pass event ops strokes)
      ≡ or_upserted event k (last_upsert k ops) (Map.lookup k strokes)
unfolding upsert_pass
lookup-upsert_pass event [] strokes k = refl
lookup-upsert_pass event (upsert_stroke id page before after ∷ ops) strokes k = ground (
  arith,
  lookup-upsert_pass event ops (Map.insert id (active_stroke event id after) strokes) k,
  lookup-insert id k (active_stroke event id after) strokes,
  ==_iff id k,
)
lookup-upsert_pass event (delete_stroke id page before ∷ ops) strokes k =
    lookup-upsert_pass event ops strokes k

lookup-delete_pass :
    (event : StorageEvent) (ids : List String) (ops : List Operation) (strokes : Strokes)
    (k : String)
    → Map.lookup k (delete_pass event ids ops strokes) ≡ (
        if Set.contains k ids
        then Map.lookup k strokes
        else or_deleted event k (first_delete k ops) (Map.lookup k strokes))
unfolding delete_pass
lookup-delete_pass event ids [] strokes k = ground arith
lookup-delete_pass event ids (upsert_stroke id page before after ∷ ops) strokes k =
    lookup-delete_pass event ids ops strokes k
lookup-delete_pass event ids (delete_stroke id page before ∷ ops) strokes k =
    let buried = bury event (entry_or event id before (Map.lookup id strokes)) in
    ground (
      arith,
      lookup-delete_pass event ids ops strokes k,
      lookup-delete_pass event ids ops (Map.insert id buried strokes) k,
      lookup-insert id k buried strokes,
      ==_iff id k,
    )

-- After a manifest is applied, a stroke that it upserts is active with the geometry of its last
-- upsert, wherever its deletes stand; a stroke that it only deletes carries the tombstone of the
-- event, and keeps its canonical geometry if it had any; every other stroke is as it was.
pub lookup-apply_manifest :
    (state : CanonicalDocumentState) (manifest : Manifest) (event : StorageEvent) (k : String)
    → Map.lookup k (apply_manifest state manifest event).strokes
      ≡ or_upserted event k
          (last_upsert k manifest.operations)
          (or_deleted event k (first_delete k manifest.operations) (Map.lookup k state.strokes))
unfolding apply_manifest
lookup-apply_manifest state manifest event k =
    let ops = manifest.operations in
    let ids = Set.from_list (upserted ops) in
    ground (
      arith,
      lookup-upsert_pass event ops (delete_pass event ids ops state.strokes) k,
      lookup-delete_pass event ids ops state.strokes k,
      contains-from_list k (upserted ops),
      contains-upserted k ops,
    )
