-- ===== src/Broker/Validate.antt =====
-- `Broker::validate_boox_manifest` of inkbridge-broker/src/broker.rs and what it calls there: the
-- checks and the normalisation of a compact operation manifest against the canonical strokes.
pub mod Float
pub mod Sets
pub mod Accepted
pub mod Snapshots
pub mod Baselines
pub mod Checked
use inkbridge.Prelude.{
  ℕ, ◌^◌, ◌-◌, Bool, true, false, not, ◌&&◌, ◌||◌, Option, none, some, String, List, [], ◌∷◌, ◌++◌,
  map, any, keep, length, leb, ltb, eqb, is_some, if◌then◌else◌, ◌==◌, string_key,
}
use inkbridge.Prelude.Int.{ℤ, pos, negsuc}
use inkbridge.Prelude.Fallible.{Result, ok, err, ◌>>=◌, ◌>>◌, map_err, refuse_if}
use inkbridge.Prelude.Map
use inkbridge.Prelude.Text.{concat, decimal, is_blank, utf8, take_chars}
use inkbridge.Broker.Model.{
  Bytes, NativeStyle, Sample, StrokeSnapshot, Operation, upsert_stroke, delete_stroke, Manifest,
  CanonicalStroke, CanonicalDocumentState,
}
use inkbridge.Broker.Errors.{
  Fallible, invalid_event, manifest_json, manifest_schema, manifest_page_count, manifest_stroke,
  manifest_duplicate_delete, manifest_duplicate_upsert, manifest_not_current,
}
use inkbridge.Broker.External.{External}
use Float.{is_finite, in_unit, in_pressure_range, snapshot_eq, int_eq}

-- `(low..=i32::MAX).contains(&v)` for a low bound that is not negative.
abbrev pub in_native_range : ℕ → ℤ → Bool
in_native_range low (pos n) = leb low n && leb n (2 ^ 31 - 1)
in_native_range low (negsuc n) = false

unfoldable pub valid_supernote_native_style : NativeStyle → Bool
valid_supernote_native_style style =
    in_native_range 0 style.layer_num
    && (in_native_range 1 style.thickness && in_native_range 0 style.pen_type)

abbrev pub bad_sample : Sample → Bool
bad_sample s =
    not (is_finite s.x)
    || (not (is_finite s.y)
        || (not (is_finite s.pressure)
            || (not (in_unit s.x) || (not (in_unit s.y) || not (in_pressure_range s.pressure)))))

-- The style with the pen colours that a Supernote persists.
abbrev pub normal_color : ℤ → ℤ
normal_color color = if int_eq color (pos 0) then pos 0 else pos 0x9d

-- The delete and the upsert of one stroke.
pub record CompactOperationSet : Type 0 where
  pub delete : Option StrokeSnapshot
  pub upsert : Option (Option StrokeSnapshot × StrokeSnapshot)

abbrev pub no_operations : CompactOperationSet
no_operations = record { delete = none; upsert = none }

abbrev pub OperationIndex : Type 0
OperationIndex = List (String × CompactOperationSet)

abbrev pub entry_of : Option CompactOperationSet → CompactOperationSet
entry_of none = no_operations
entry_of (some set) = set

-- The loop that fills `operation_index` and refuses a second delete or upsert of a stroke.
unfoldable pub index_operations : List Operation → OperationIndex → Fallible OperationIndex
unfolding Map.lookup Map.insert
index_operations [] index = ok index
index_operations (delete_stroke id page before ∷ ops) index =
    let entry = entry_of (Map.lookup id index) in
    let rest = index_operations ops (Map.insert id (record entry { delete = some before }) index) in
    if is_some entry.delete then err (invalid_event manifest_duplicate_delete) else rest
index_operations (upsert_stroke id page before after ∷ ops) index =
    let entry = entry_of (Map.lookup id index) in
    let rest =
      index_operations ops (Map.insert id (record entry { upsert = some (before, after) }) index) in
    if is_some entry.upsert then err (invalid_event manifest_duplicate_upsert) else rest

unfoldable pub count_upserts : List Operation → ℕ
count_upserts [] = 0
count_upserts (upsert_stroke id page before after ∷ ops) = ℕ.suc (count_upserts ops)
count_upserts (delete_stroke id page before ∷ ops) = count_upserts ops

-- The stroke, if it is there without a tombstone.
abbrev pub active_of : Option CanonicalStroke → Option CanonicalStroke
active_of none = none
active_of (some c) = if is_some c.tombstone then none else some c

module _ (ext : External) where
  unfoldable pub normalize_supernote_pen_color : StrokeSnapshot → StrokeSnapshot
  normalize_supernote_pen_color s =
      let normalized = normal_color s.native_style.pen_color in
      let style = record s.native_style { pen_color = normalized } in
      if int_eq s.native_style.pen_color normalized then s else record s {
        native_style = style;
        geometry_fingerprint = ext.geometry_fingerprint style s.samples;
      }

  unfoldable pub refresh_manifest_id : Manifest → Manifest
  unfolding count_upserts
  refresh_manifest_id m =
      let total = length m.operations in
      let upserts = count_upserts m.operations in
      let seed = concat (
        m.document.pdf_sha256
        ∷ "|"
        ∷ decimal total
        ∷ "|"
        ∷ decimal upserts
        ∷ "|"
        ∷ decimal (total - upserts)
        ∷ "|"
        ∷ ext.format_offset m.pdf_to_supernote_normalized_y_offset
        ∷ []) in
      record m {
        manifest_id = concat ("inkbridge-" ∷ take_chars 20 (ext.sha256_hex (utf8 seed)) ∷ []);
      }

  -- The condition under which one snapshot of an operation is refused.
  unfoldable pub bad_snapshot : ℕ → String → ℕ → StrokeSnapshot → Bool
  unfolding valid_supernote_native_style
  bad_snapshot page_count source_uuid page_index s =
      is_blank source_uuid
      || (not (source_uuid == s.source_uuid)
          || (not (eqb page_index s.page_index)
              || (leb page_count page_index
                  || (ltb (length s.samples) 2
                      || (not (valid_supernote_native_style s.native_style)
                          || (any bad_sample s.samples
                              || not (
                                  s.geometry_fingerprint
                                  == ext.geometry_fingerprint s.native_style s.samples)))))))

  unfoldable pub bad_operation : ℕ → Operation → Bool
  unfolding bad_snapshot
  bad_operation page_count (upsert_stroke id page before after) =
      elim before [ none ↦ false | some b ↦ bad_snapshot page_count id page b ]
      || bad_snapshot page_count id page after
  bad_operation page_count (delete_stroke id page before) = bad_snapshot page_count id page before

  abbrev pub normalize_before : Option StrokeSnapshot → Option StrokeSnapshot
  normalize_before none = none
  normalize_before (some b) = some (normalize_supernote_pen_color b)

  unfoldable pub normalize_operation : Operation → Operation
  unfolding normalize_supernote_pen_color
  normalize_operation (upsert_stroke id page before after) =
      upsert_stroke id page (normalize_before before) (normalize_supernote_pen_color after)
  normalize_operation (delete_stroke id page before) =
      delete_stroke id page (normalize_supernote_pen_color before)

  -- `matches_canonical`, against the normalised canonical snapshot.
  unfoldable pub matches_canonical : CanonicalStroke → StrokeSnapshot → Bool
  unfolding normalize_supernote_pen_color snapshot_eq
  matches_canonical c observed =
      let canonical = normalize_supernote_pen_color c.snapshot in
      snapshot_eq canonical observed || ext.boox_pdf_view_matches canonical observed

  -- The `match (delete, upsert, active)`; `known` says whether the stroke is there at all.
  unfoldable pub valid_operation_set :
      CompactOperationSet → Option CanonicalStroke → (known : Bool) → Bool
  unfolding matches_canonical
  valid_operation_set set active known = elim set.delete [
    | none ↦ elim set.upsert [
      | none ↦ false
      | some (before, after) ↦ elim before [
        | none ↦ elim active [ none ↦ not known | some c ↦ false ]
        | some b ↦ elim active [
          | none ↦ false
          | some c ↦ matches_canonical c b && eqb after.page_index c.snapshot.page_index
        ]
      ]
    ]
    | some deleted ↦ elim active [
      | none ↦ false
      | some c ↦ elim set.upsert [
        | none ↦ matches_canonical c deleted
        | some (before, after) ↦ elim before [
          | none ↦ matches_canonical c deleted && not (eqb after.page_index c.snapshot.page_index)
          | some b ↦ false
        ]
      ]
    ]
  ]

  -- `delete.or_else(|| upsert.and_then(|(before, _)| before.as_ref()))`
  abbrev pub observed_before : CompactOperationSet → Option StrokeSnapshot
  observed_before set = elim set.delete [
    | some deleted ↦ some deleted
    | none ↦ elim set.upsert [ none ↦ none | some (before, after) ↦ before ]
  ]

  -- What one entry adds to `projected_baselines`.
  unfoldable pub project :
      String
      → CompactOperationSet
      → Option CanonicalStroke
      → List (String × StrokeSnapshot)
      → List (String × StrokeSnapshot)
  unfolding normalize_supernote_pen_color Map.insert
  project id set none projected = projected
  project id set (some c) projected = elim (observed_before set) [
    | none ↦ projected
    | some observed ↦
        if ext.boox_pdf_view_matches (normalize_supernote_pen_color c.snapshot) observed
        then Map.insert id observed projected
        else projected
  ]

  -- The loop over `operation_index`.
  unfoldable pub check_sets :
      CanonicalDocumentState
      → OperationIndex
      → List (String × StrokeSnapshot)
      → Fallible (List (String × StrokeSnapshot))
  unfolding valid_operation_set project Map.lookup
  check_sets state [] projected = ok projected
  check_sets state ((id, set) ∷ index) projected =
      let found = Map.lookup id state.strokes in
      let rest = check_sets state index (project id set (active_of found) projected) in
      if valid_operation_set set (active_of found) (is_some found)
      then rest
      else err (invalid_event manifest_not_current)

  -- The last loop: what the PDF projection lost is restored on the upserts.
  unfoldable pub restore_operation :
      CanonicalDocumentState → List (String × StrokeSnapshot) → Operation → Operation
  unfolding normalize_supernote_pen_color Map.lookup
  restore_operation state projected (delete_stroke id page before) = delete_stroke id page before
  restore_operation state projected (upsert_stroke id page before after) =
      upsert_stroke id page before (elim (Map.lookup id projected) [
        | none ↦ after
        | some observed ↦ elim (active_of (Map.lookup id state.strokes)) [
          | none ↦ after
          | some c ↦
              ext.restore_native_metadata (normalize_supernote_pen_color c.snapshot) observed after
        ]
      ])

  abbrev pub target_name : CanonicalDocumentState → String
  target_name state = elim state.supernote_device.source_file_name [
    | none ↦ state.original_file_name
    | some name ↦ name
  ]

  -- From the normalisation to the end.
  unfoldable pub resolve_operations : CanonicalDocumentState → Manifest → Fallible Manifest
  unfolding normalize_operation index_operations check_sets restore_operation
  resolve_operations state manifest = do
    let operations = map normalize_operation manifest.operations
    index ← index_operations operations []
    projected ← check_sets state index []
    ok (record manifest { operations = map (restore_operation state projected) operations })

  -- From the page count to the loop over the snapshots.
  unfoldable pub check_manifest : CanonicalDocumentState → Manifest → Fallible Manifest
  unfolding bad_operation resolve_operations
  check_manifest state manifest = do
    refuse_if
        (not (eqb state.original_page_count 0)
          && not (eqb manifest.document.page_count state.original_page_count))
        (invalid_event manifest_page_count)
    let named = record manifest {
      document = record manifest.document { target_file_names = target_name state ∷ [] };
    }
    refuse_if (any (bad_operation named.document.page_count) named.operations)
        (invalid_event manifest_stroke)
    resolve_operations state named

  unfoldable pub validate_boox_manifest : CanonicalDocumentState → Bytes → Fallible Manifest
  unfolding refresh_manifest_id check_manifest
  validate_boox_manifest state bytes = do
    parsed ← map_err (λ e. invalid_event manifest_json) (ext.manifest_from_slice bytes)
    refuse_if
        (not (eqb parsed.schema_version 1)
          || (is_blank parsed.manifest_id || not (parsed.source == "boox-neoreader-embedded-pdf")))
        (invalid_event manifest_schema)
    let shifted = record parsed { pdf_to_supernote_normalized_y_offset = ext.normalized_y_offset }
    check_manifest state (refresh_manifest_id shifted)
