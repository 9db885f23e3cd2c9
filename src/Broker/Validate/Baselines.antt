-- ===== src/Broker/Validate/Baselines.antt =====
-- What `validate_boox_manifest` restores on an upsert: the snapshot that the manifest saw before it, if
-- the PDF view of the canonical stroke matches that snapshot.
use inkbridge.Prelude.{
  ◌≡◌, refl, sym, ap, subst, ◌∙◌, map, Option, none, some, String, List, [], ◌∷◌, arith, is_some,
  if◌then◌else◌, ◌==◌, ==_iff, Bool-cases, Option-cases, inl, inr, string_key,
}
use inkbridge.Prelude.Fallible.{ok}
use inkbridge.Prelude.Map
use inkbridge.Prelude.Map.{lookup-insert}
use inkbridge.Prelude.Order.{text_order}
use inkbridge.Prelude.Sorted.{Sorted, insert-Sorted, lookup-Above}
use inkbridge.Broker.Model.{
  StrokeSnapshot, Operation, upsert_stroke, delete_stroke, CanonicalStroke, CanonicalDocumentState,
}
use inkbridge.Broker.Errors.{Fallible}
use inkbridge.Broker.External.{External}
use inkbridge.Broker.Validate.{
  CompactOperationSet, OperationIndex, entry_of, index_operations, active_of, valid_operation_set,
  project, check_sets, normalize_supernote_pen_color, restore_operation,
}
use inkbridge.Broker.Validate.Sets.{gathered, lookup-index_operations}

ok_same : (a b : OperationIndex) → ◌≡◌ {A = Fallible OperationIndex} (ok a) (ok b) → a ≡ b
ok_same a b h = cc h

found_same :
    (a b : List (String × StrokeSnapshot))
    → ◌≡◌ {A = Fallible (List (String × StrokeSnapshot))} (ok a) (ok b)
    → a ≡ b
found_same a b h = cc h

pub index_operations-Sorted :
    (ops : List Operation) (index result : OperationIndex)
    → index_operations ops index ≡ ok result
    → Sorted index
    → Sorted result
unfolding index_operations
index_operations-Sorted [] index result h sorted = subst Sorted (ok_same index result h) sorted
index_operations-Sorted (delete_stroke id page before ∷ ops) index result h sorted =
    let entry = entry_of (Map.lookup id index) in
    elim (Bool-cases (is_some entry.delete)) [
      | inl twice ↦ cc (rw (index_operations, twice) at h)
      | inr once ↦
          index_operations-Sorted ops (Map.insert id (record entry { delete = some before }) index)
            result (rw (index_operations, once) at h)
            (insert-Sorted text_order id (record entry { delete = some before }) index sorted)
    ]
index_operations-Sorted (upsert_stroke id page before after ∷ ops) index result h sorted =
    let entry = entry_of (Map.lookup id index) in
    elim (Bool-cases (is_some entry.upsert)) [
      | inl twice ↦ cc (rw (index_operations, twice) at h)
      | inr once ↦
          index_operations-Sorted ops
            (Map.insert id (record entry { upsert = some (before, after) }) index) result
            (rw (index_operations, once) at h)
            (insert-Sorted text_order id (record entry { upsert = some (before, after) }) index
              sorted)
    ]

-- The snapshot that the operations saw before they changed the stroke.
abbrev pub seen_before : CompactOperationSet → Option StrokeSnapshot
seen_before set = elim set.delete [
  | some deleted ↦ some deleted
  | none ↦ elim set.upsert [ none ↦ none | some (before, after) ↦ before ]
]

module _ (ext : External) where
  -- The same, where the view of the canonical stroke matches it.
  abbrev pub matched :
      Option CanonicalStroke
      → Option StrokeSnapshot
      → (old : Option StrokeSnapshot) → Option StrokeSnapshot
  matched none seen old = old
  matched (some c) none old = old
  matched (some c) (some observed) old =
      if ext.boox_pdf_view_matches (normalize_supernote_pen_color ext c.snapshot) observed
      then some observed
      else old

  -- Nothing is seen of a stroke without operations.
  abbrev pub chosen :
      Option CanonicalStroke
      → Option CompactOperationSet
      → (old : Option StrokeSnapshot) → Option StrokeSnapshot
  chosen active none old = old
  chosen active (some set) old = matched active (seen_before set) old

  lookup-project :
      (id k : String) (set : CompactOperationSet) (active : Option CanonicalStroke)
      (projected : List (String × StrokeSnapshot))
      → Map.lookup k (project ext id set active projected) ≡ (
          if id == k
          then matched active (seen_before set) (Map.lookup k projected)
          else Map.lookup k projected)
  unfolding project
  lookup-project id k set none projected = ground arith
  lookup-project id k set (some c) projected = elim (Option-cases (seen_before set)) [
    | inl unseen ↦ rw (project, unseen) (ground arith)
    | inr (observed, seen) ↦
        elim (Bool-cases
          (ext.boox_pdf_view_matches (normalize_supernote_pen_color ext c.snapshot) observed)) [
            | inl e ↦ rw (project, seen, e) (lookup-insert id k observed projected)
            | inr e ↦ rw (project, seen, e) (ground arith)
          ]
  ]

  module _ (state : CanonicalDocumentState) where
    lookup-check_sets :
        (k : String) (index : OperationIndex) (projected result : List (String × StrokeSnapshot))
        → check_sets ext state index projected ≡ ok result
        → Sorted index
        → Map.lookup k result
          ≡ chosen
              (active_of (Map.lookup k state.strokes))
              (Map.lookup k index)
              (Map.lookup k projected)
    unfolding check_sets Map.lookup
    lookup-check_sets k [] projected result h sorted =
        ap (Map.lookup k) (sym (found_same projected result h))
    lookup-check_sets k ((id, set) ∷ index) projected result h (above, sorted) =
        let found = Map.lookup id state.strokes in
        let next = project ext id set (active_of found) projected in
        elim (Bool-cases (valid_operation_set ext set (active_of found) (is_some found))) [
          | inr invalid ↦ cc (rw (check_sets, invalid) at h)
          | inl valid ↦
              let rest =
                lookup-check_sets k index next result (rw (check_sets, valid) at h) sorted in
              let here = lookup-project id k set (active_of found) projected in
              elim (Bool-cases (id == k)) [
                | inr differs ↦ rw differs (
                    rest
                    ∙ ap (chosen (active_of (Map.lookup k state.strokes)) (Map.lookup k index))
                        (here ∙ rw differs refl))
                | inl e ↦
                    let same_key = (==_iff id k).0 e in
                    let gone : Map.lookup k index ≡ none =
                      subst (λ j. Map.lookup j index ≡ none) same_key
                        (lookup-Above text_order id index above) in
                    rw e (
                      rest
                      ∙ rw gone (
                          here
                          ∙ rw e (
                              ap
                                (λ j.
                                  matched (active_of (Map.lookup j state.strokes)) (seen_before set)
                                    (Map.lookup k projected))
                                same_key)))
              ]
        ]

    -- The matched snapshot that the operations saw of a stroke.
    abbrev pub baseline : List Operation → String → Option StrokeSnapshot
    baseline ops k = chosen (active_of (Map.lookup k state.strokes)) (gathered k ops none) none

    -- An upsert of a stroke with a baseline, with the native metadata that the PDF has lost.
    abbrev pub restored : List Operation → Operation → Operation
    restored ops (delete_stroke id page before) = delete_stroke id page before
    restored ops (upsert_stroke id page before after) =
        upsert_stroke id page before (elim (baseline ops id) [
          | none ↦ after
          | some observed ↦ elim (active_of (Map.lookup id state.strokes)) [
            | none ↦ after
            | some c ↦
                ext.restore_native_metadata (normalize_supernote_pen_color ext c.snapshot) observed
                  after
          ]
        ])

    module _ (ops : List Operation) (index : OperationIndex)
        (projected : List (String × StrokeSnapshot)) (indexed : index_operations ops [] ≡ ok index)
        (checked : check_sets ext state index [] ≡ ok projected) where
      lookup-baseline : (k : String) → Map.lookup k projected ≡ baseline ops k
      unfolding Map.lookup
      lookup-baseline k =
          lookup-check_sets k index [] projected checked
            (index_operations-Sorted ops [] index indexed tt)
          ∙ rw (lookup-index_operations k ops [] index indexed) refl

      restore-restored :
          (op : Operation) → restore_operation ext state projected op ≡ restored ops op
      unfolding restore_operation
      restore-restored (delete_stroke id page before) = refl
      restore-restored (upsert_stroke id page before after) =
          rw (restore_operation, lookup-baseline id) refl

      pub map-restored :
          (todo : List Operation)
          → map (restore_operation ext state projected) todo ≡ map (restored ops) todo
      map-restored [] = refl
      map-restored (op ∷ todo) = λ i. restore-restored op i ∷ map-restored todo i
