-- ===== src/Broker/Validate/Accepted.antt =====
-- What `validate_boox_manifest` lets through.
use inkbridge.Prelude.{
  ◌≡◌, refl, ◌∙◌, ap, true, false, ◌||◌, any, map, none, some, String, List, [], ◌∷◌, arith,
  Option-cases, inl, inr, is_some, ==_iff, string_key, eqb,
}
use inkbridge.Prelude.Fallible.{ok, map_err, >>=-eq-ok, map_err-eq-ok}
use inkbridge.Prelude.Map
use inkbridge.Prelude.Text.{is_blank}
use inkbridge.Broker.Model.{
  Bytes, StrokeSnapshot, Operation, upsert_stroke, delete_stroke, Manifest, StorageEvent,
  CanonicalStroke, CanonicalDocumentState,
}
use inkbridge.Broker.Errors.{invalid_event, manifest_json}
use inkbridge.Broker.External.{External}
use inkbridge.Broker.Apply.{apply_manifest}
use inkbridge.Broker.Apply.Operations.{last_upsert, first_delete, lookup-apply_manifest}
use inkbridge.Broker.Validate.{
  CompactOperationSet, index_operations, active_of, valid_operation_set, check_sets,
  normalize_operation, restore_operation, refresh_manifest_id, bad_operation, target_name,
  check_manifest, resolve_operations, validate_boox_manifest,
}
use inkbridge.Broker.Validate.Sets.{
  gathered, touches, lookup-index_operations, touched-gathered, check_sets-valid, buried-invalid,
  touched-restored,
}

module _ (ext : External) where
  -- Of an accepted manifest `m`, with the manifest `parsed` that was read for it.
  pub record Accepted (state : CanonicalDocumentState) (parsed m : Manifest) : Type 0 where
    pub projected : List (String × StrokeSnapshot)
    pub schema : parsed.schema_version ≡ 1
    pub device : parsed.source ≡ "boox-neoreader-embedded-pdf"
    pub offset : m.pdf_to_supernote_normalized_y_offset ≡ ext.normalized_y_offset
    pub target : m.document.target_file_names ≡ target_name ext state ∷ []
    pub page_count :
        (eqb state.original_page_count 0
          || eqb parsed.document.page_count state.original_page_count)
        ≡ true
    pub strokes : any (bad_operation ext parsed.document.page_count) parsed.operations ≡ false
    pub operations :
        m.operations
        ≡ map
            (restore_operation ext state projected)
            (map (normalize_operation ext) parsed.operations)
    -- The operations on each stroke are a valid set for what the state has of it.
    pub sets :
        (k : String) (set : CompactOperationSet)
        → gathered k (map (normalize_operation ext) parsed.operations) none ≡ some set
        → valid_operation_set ext set
            (active_of (Map.lookup k state.strokes))
            (is_some (Map.lookup k state.strokes))
          ≡ true

  resolved :
      (state : CanonicalDocumentState) (manifest m : Manifest)
      → resolve_operations ext state manifest ≡ ok m
      → (projected : List (String × StrokeSnapshot)) × (m ≡ record manifest {
        operations =
            map
              (restore_operation ext state projected)
              (map (normalize_operation ext) manifest.operations);
      })
        × ((k : String) (set : CompactOperationSet)
            → gathered k (map (normalize_operation ext) manifest.operations) none ≡ some set
            → valid_operation_set ext set
                (active_of (Map.lookup k state.strokes))
                (is_some (Map.lookup k state.strokes))
              ≡ true)
  unfolding resolve_operations Map.lookup
  resolved state manifest m h =
      let ops = map (normalize_operation ext) manifest.operations in
      let (index, indexed, h₁) = >>=-eq-ok (index_operations ops []) _ h in
      let (projected, checked, h₂) = >>=-eq-ok (check_sets ext state index []) _ h₁ in
      (
        projected,
        cc h₂,
        λ k set e.
            check_sets-valid ext state k index [] projected set checked
              (lookup-index_operations k ops [] index indexed ∙ e),
      )

  pub checked_manifest :
      (state : CanonicalDocumentState) (manifest m : Manifest)
      → check_manifest ext state manifest ≡ ok m
      → (resolve_operations ext state (record manifest {
        document = record manifest.document { target_file_names = target_name ext state ∷ [] };
      })
          ≡ ok m)
        × ((eqb state.original_page_count 0
              || eqb manifest.document.page_count state.original_page_count)
            ≡ true)
        × (any (bad_operation ext manifest.document.page_count) manifest.operations ≡ false)
  unfolding check_manifest
  checked_manifest state manifest m h = (ground arith, ground arith, ground arith)

  pub opened :
      (state : CanonicalDocumentState) (bytes : Bytes) (m : Manifest)
      → validate_boox_manifest ext state bytes ≡ ok m
      → (parsed : Manifest) × (ext.manifest_from_slice bytes ≡ ok parsed)
        × (parsed.schema_version ≡ 1)
        × (parsed.source ≡ "boox-neoreader-embedded-pdf")
        × (is_blank parsed.manifest_id ≡ false)
        × (check_manifest ext state (
              refresh_manifest_id ext
                (record parsed { pdf_to_supernote_normalized_y_offset = ext.normalized_y_offset }))
            ≡ ok m)
  unfolding validate_boox_manifest
  opened state bytes m h =
      let (parsed, read_ok, h₁) =
        >>=-eq-ok (map_err (λ e. invalid_event manifest_json) (ext.manifest_from_slice bytes)) _
          h in
      (
        parsed,
        map_err-eq-ok _ (ext.manifest_from_slice bytes) read_ok,
        ground arith,
        ground (arith, ==_iff parsed.source "boox-neoreader-embedded-pdf"),
        ground arith,
        ground arith,
      )

  -- A manifest that validates has the known schema and source, the page count of the original
  -- where it is known, and no bad snapshot; it is given the broker's own offset and target name; its
  -- operations are the parsed ones, normalised and restored; and for every stroke its deletes and
  -- upserts together are a valid set for the canonical stroke.
  pub validate_boox_manifest-Accepted :
      (state : CanonicalDocumentState) (bytes : Bytes) (m : Manifest)
      → validate_boox_manifest ext state bytes ≡ ok m
      → (parsed : Manifest) × (ext.manifest_from_slice bytes ≡ ok parsed) × Accepted state parsed m
  unfolding refresh_manifest_id
  validate_boox_manifest-Accepted state bytes m h =
      let (parsed, read, schema, device, _, h₁) = opened state bytes m h in
      let (h₂, pages, strokes) =
        checked_manifest state
          (refresh_manifest_id ext
            (record parsed { pdf_to_supernote_normalized_y_offset = ext.normalized_y_offset }))
          m h₁ in
      let (projected, same, sets) = resolved state _ m h₂ in
      (
        parsed,
        read,
        record {
          projected = projected;
          schema = schema;
          device = device;
          offset = ap (λ (x : Manifest). x.pdf_to_supernote_normalized_y_offset) same;
          target = ap (λ (x : Manifest). x.document.target_file_names) same;
          page_count = pages;
          strokes = strokes;
          operations = ap (λ (x : Manifest). x.operations) same;
          sets = sets;
        },
      )

  -- An accepted manifest touches no stroke that carries a tombstone.
  buried_untouched :
      (state : CanonicalDocumentState) (parsed m : Manifest) (k : String) (c : CanonicalStroke)
      → Accepted state parsed m
      → Map.lookup k state.strokes ≡ some c
      → is_some c.tombstone ≡ true
      → any (touches k) m.operations ≡ false
  buried_untouched state parsed m k c v found buried =
      let ops = map (normalize_operation ext) parsed.operations in
      elim (Option-cases (gathered k ops none)) [
        | inl none_there ↦
            rw (v.operations, touched-restored ext state k v.projected ops)
              (ground (arith, touched-gathered k ops none))
        | inr (set, e) ↦ absurd (ground (arith, v.sets k set e, buried-invalid ext state set))
      ]

untouched_upsert :
    (k : String) (ops : List Operation) → any (touches k) ops ≡ false → last_upsert k ops ≡ none
untouched_upsert k [] h = refl
untouched_upsert k (upsert_stroke id page before after ∷ ops) h =
    ground (arith, untouched_upsert k ops)
untouched_upsert k (delete_stroke id page before ∷ ops) h = ground (arith, untouched_upsert k ops)

untouched_delete :
    (k : String) (ops : List Operation) → any (touches k) ops ≡ false → first_delete k ops ≡ none
untouched_delete k [] h = refl
untouched_delete k (upsert_stroke id page before after ∷ ops) h =
    ground (arith, untouched_delete k ops)
untouched_delete k (delete_stroke id page before ∷ ops) h = ground (arith, untouched_delete k ops)

-- A deleted stroke stays deleted: applying a manifest that validated against the state leaves every
-- stroke that carries a tombstone as it is.
pub validated_keeps_buried :
    (ext : External) (state : CanonicalDocumentState) (bytes : Bytes) (m : Manifest)
    (event : StorageEvent) (k : String) (c : CanonicalStroke)
    → validate_boox_manifest ext state bytes ≡ ok m
    → Map.lookup k state.strokes ≡ some c
    → is_some c.tombstone ≡ true
    → Map.lookup k (apply_manifest state m event).strokes ≡ some c
validated_keeps_buried ext state bytes m event k c h found buried =
    let (parsed, _, v) = validate_boox_manifest-Accepted ext state bytes m h in
    let untouched = buried_untouched ext state parsed m k c v found buried in
    rw
      (
        lookup-apply_manifest state m event k,
        untouched_upsert k m.operations untouched,
        untouched_delete k m.operations untouched,
      )
      found
