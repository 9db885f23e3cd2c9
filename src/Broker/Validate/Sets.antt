-- ===== src/Broker/Validate/Sets.antt =====
-- What the loops of `validate_boox_manifest` establish for one stroke: its delete and its upsert are
-- gathered from the whole manifest, and are a valid set for the canonical stroke.
use inkbridge.Prelude.{
  ◌≡◌, refl, Bool, true, false, ◌||◌, any, map, Option, none, some, String, List, [], ◌∷◌, arith,
  is_some, if◌then◌else◌, ◌==◌, ==_iff, string_key,
}
use inkbridge.Prelude.Fallible.{ok}
use inkbridge.Prelude.Map
use inkbridge.Prelude.Map.{lookup-insert}
use inkbridge.Broker.Model.{
  StrokeSnapshot, Operation, upsert_stroke, delete_stroke, CanonicalDocumentState,
}
use inkbridge.Broker.External.{External}
use inkbridge.Broker.Validate.{
  CompactOperationSet, OperationIndex, entry_of, index_operations, active_of, valid_operation_set,
  project, check_sets, normalize_operation, restore_operation,
}

-- The operations on one stroke, on top of what was gathered before.
abbrev pub gathered :
    String → List Operation → Option CompactOperationSet → Option CompactOperationSet
gathered k [] old = old
gathered k (delete_stroke id page before ∷ ops) old =
    gathered k ops (if id == k then some (record (entry_of old) { delete = some before }) else old)
gathered k (upsert_stroke id page before after ∷ ops) old =
    gathered k ops
      (if id == k then some (record (entry_of old) { upsert = some (before, after) }) else old)

abbrev pub touches : String → Operation → Bool
touches k (upsert_stroke id page before after) = id == k
touches k (delete_stroke id page before) = id == k

pub lookup-index_operations :
    (k : String) (ops : List Operation) (index result : OperationIndex)
    → index_operations ops index ≡ ok result
    → Map.lookup k result ≡ gathered k ops (Map.lookup k index)
unfolding index_operations
lookup-index_operations k [] index result h = ground arith
lookup-index_operations k (delete_stroke id page before ∷ ops) index result h =
    let entry = entry_of (Map.lookup id index) in
    let index' = Map.insert id (record entry { delete = some before }) index in
    ground (
      arith,
      lookup-index_operations k ops index' result,
      lookup-insert id k (record entry { delete = some before }) index,
      ==_iff id k,
    )
lookup-index_operations k (upsert_stroke id page before after ∷ ops) index result h =
    let entry = entry_of (Map.lookup id index) in
    let index' = Map.insert id (record entry { upsert = some (before, after) }) index in
    ground (
      arith,
      lookup-index_operations k ops index' result,
      lookup-insert id k (record entry { upsert = some (before, after) }) index,
      ==_iff id k,
    )

-- Something is gathered of a stroke that an operation touches.
pub touched-gathered :
    (k : String) (ops : List Operation) (old : Option CompactOperationSet)
    → is_some (gathered k ops old) ≡ (is_some old || any (touches k) ops)
touched-gathered k [] old = ground arith
touched-gathered k (delete_stroke id page before ∷ ops) old = ground (
  arith,
  touched-gathered k ops
      (if id == k then some (record (entry_of old) { delete = some before }) else old),
)
touched-gathered k (upsert_stroke id page before after ∷ ops) old = ground (
  arith,
  touched-gathered k ops
      (if id == k then some (record (entry_of old) { upsert = some (before, after) }) else old),
)

module _ (ext : External) (state : CanonicalDocumentState) where
  pub check_sets-valid :
      (k : String) (index : OperationIndex) (projected result : List (String × StrokeSnapshot))
      (set : CompactOperationSet)
      → check_sets ext state index projected ≡ ok result
      → Map.lookup k index ≡ some set
      → valid_operation_set ext set
          (active_of (Map.lookup k state.strokes))
          (is_some (Map.lookup k state.strokes))
        ≡ true
  unfolding check_sets Map.lookup
  check_sets-valid k [] projected result set h found = cc
  check_sets-valid k ((id, s) ∷ index) projected result set h found = ground (
    arith,
    check_sets-valid k index (project ext id s (active_of (Map.lookup id state.strokes)) projected)
        result set,
    ==_iff id k,
  )

  -- No set is valid for a stroke that carries a tombstone.
  pub buried-invalid : (set : CompactOperationSet) → valid_operation_set ext set none true ≡ false
  unfolding valid_operation_set
  buried-invalid set = ground arith

  touches-normalize :
      (k : String) (op : Operation) → touches k (normalize_operation ext op) ≡ touches k op
  unfolding normalize_operation
  touches-normalize k (upsert_stroke id page before after) = refl
  touches-normalize k (delete_stroke id page before) = refl

  touches-restore :
      (k : String) (projected : List (String × StrokeSnapshot)) (op : Operation)
      → touches k (restore_operation ext state projected op) ≡ touches k op
  unfolding restore_operation
  touches-restore k projected (upsert_stroke id page before after) = refl
  touches-restore k projected (delete_stroke id page before) = refl

  -- The restoration of the upserts keeps the strokes that the manifest touches.
  pub touched-restored :
      (k : String) (projected : List (String × StrokeSnapshot)) (ops : List Operation)
      → any (touches k) (map (restore_operation ext state projected) ops) ≡ any (touches k) ops
  touched-restored k projected [] = refl
  touched-restored k projected (op ∷ ops) =
      rw (touches-restore k projected op, touched-restored k projected ops)

  -- So does the normalisation.
  pub touched-normalized :
      (k : String) (ops : List Operation)
      → any (touches k) (map (normalize_operation ext) ops) ≡ any (touches k) ops
  touched-normalized k [] = refl
  touched-normalized k (op ∷ ops) = rw (touches-normalize k op, touched-normalized k ops)
