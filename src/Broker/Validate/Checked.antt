-- ===== src/Broker/Validate/Checked.antt =====
-- What a manifest that `validate_boox_manifest` lets through is, in terms of the manifest that was
-- read and the canonical strokes.
use inkbridge.Prelude.{
  ℕ, ◌+◌, ◌≤◌, ◌≡◌, ◌≢◌, refl, ap, subst, ◌∙◌, ◌⊎◌, inl, inr, Bool, true, false, not, ◌&&◌, ◌||◌,
  map, Option, none, some, String, List, [], ◌∷◌, arith, All, is_some, eqb, eqb_iff, ==_iff, ◌==◌,
  if◌then◌else◌, Option-cases, string_key,
}
use inkbridge.Prelude.Fallible.{ok, >>=-eq-ok}
use inkbridge.Prelude.Map
use inkbridge.Prelude.Text.{is_blank}
use inkbridge.Prelude.Map.{lookup-insert}
use inkbridge.Broker.Model.{
  Tombstone, Bytes, StrokeSnapshot, Operation, upsert_stroke, delete_stroke, Manifest,
  CanonicalStroke, CanonicalDocumentState,
}
use inkbridge.Broker.External.{External}
use inkbridge.Broker.Validate.{
  CompactOperationSet, OperationIndex, entry_of, index_operations, active_of, matches_canonical,
  valid_operation_set, check_sets, normalize_supernote_pen_color, normalize_operation,
  restore_operation, refresh_manifest_id, target_name, resolve_operations, validate_boox_manifest,
}
use inkbridge.Broker.Validate.Float.{snapshot_eq}
use inkbridge.Broker.Validate.Sets.{
  gathered, lookup-index_operations, check_sets-valid, buried-invalid,
}
use inkbridge.Broker.Validate.Snapshots.{
  GoodOperation, every_operation, persisted_operation, normalized-persisted,
}
use inkbridge.Broker.Validate.Baselines.{restored, map-restored}
use inkbridge.Broker.Validate.Accepted.{opened, checked_manifest}

abbrev pub deletes_of : String → List Operation → ℕ
deletes_of k [] = 0
deletes_of k (delete_stroke id page before ∷ ops) = (if id == k then 1 else 0) + deletes_of k ops
deletes_of k (upsert_stroke id page before after ∷ ops) = deletes_of k ops

abbrev pub upserts_of : String → List Operation → ℕ
upserts_of k [] = 0
upserts_of k (delete_stroke id page before ∷ ops) = upserts_of k ops
upserts_of k (upsert_stroke id page before after ∷ ops) =
    (if id == k then 1 else 0) + upserts_of k ops

abbrev given : Bool → ℕ
given b = if b then 1 else 0

once :
    (k : String) (ops : List Operation) (index result : OperationIndex)
    → index_operations ops index ≡ ok result
    → (deletes_of k ops + given (is_some (entry_of (Map.lookup k index)).delete) ≤ 1)
      × (upserts_of k ops + given (is_some (entry_of (Map.lookup k index)).upsert) ≤ 1)
unfolding index_operations
once k [] index result h = ground arith
once k (delete_stroke id page before ∷ ops) index result h =
    let entry = entry_of (Map.lookup id index) in
    let set : CompactOperationSet = record entry { delete = some before } in
    ground (
      arith,
      once k ops (Map.insert id set index) result,
      lookup-insert id k set index,
      ==_iff id k,
    )
once k (upsert_stroke id page before after ∷ ops) index result h =
    let entry = entry_of (Map.lookup id index) in
    let set : CompactOperationSet = record entry { upsert = some (before, after) } in
    ground (
      arith,
      once k ops (Map.insert id set index) result,
      lookup-insert id k set index,
      ==_iff id k,
    )

and_true : (a b : Bool) → (a && b) ≡ true → (a ≡ true) × (b ≡ true)
and_true a b h = ground arith

at_most : (a b extra : ℕ) → a ≡ b → a + extra ≤ 1 → b ≤ 1
at_most a b extra same h = omega arith

other_page : (a b : ℕ) → not (eqb a b) ≡ true → a ≢ b
other_page a b h e = ground arith

either : (a b : Bool) → (a || b) ≡ true → (a ≡ true) ⊎ (b ≡ true)
either true b h = inl refl
either false b h = inr h

module _ (ext : External) where
  -- The snapshot is the canonical one, or what its PDF view shows.
  abbrev pub IsCurrent : CanonicalStroke → StrokeSnapshot → Type 0
  IsCurrent c observed =
      let canonical = normalize_supernote_pen_color ext c.snapshot in
      (c.tombstone ≡ none)
      × ((snapshot_eq canonical observed ≡ true)
          ⊎ (ext.boox_pdf_view_matches canonical observed ≡ true))

  -- The delete and the upsert of a stroke: a new stroke, a change or a removal of the current one, or its
  -- move to another page.
  abbrev pub Allowed :
      Option CanonicalStroke
      → (delete : Option StrokeSnapshot)
      → (upsert : Option (Option StrokeSnapshot × StrokeSnapshot)) → Type 0
  Allowed none none (some (none, after)) = Unit
  Allowed (some c) none (some (some before, after)) =
      IsCurrent c before × (after.page_index ≡ c.snapshot.page_index)
  Allowed (some c) (some deleted) none = IsCurrent c deleted
  Allowed (some c) (some deleted) (some (none, after)) =
      IsCurrent c deleted × (after.page_index ≢ c.snapshot.page_index)
  Allowed _ _ _ = ⊥

  abbrev pub AllowedSet : Option CanonicalStroke → Option CompactOperationSet → Type 0
  AllowedSet found none = Unit
  AllowedSet found (some set) = Allowed found set.delete set.upsert

  matches-IsCurrent :
      (c : CanonicalStroke) (s : StrokeSnapshot)
      → c.tombstone ≡ none
      → matches_canonical ext c s ≡ true
      → IsCurrent c s
  unfolding matches_canonical
  matches-IsCurrent c s live h =
      (live, either (snapshot_eq (normalize_supernote_pen_color ext c.snapshot) s) _ h)

  current-Allowed :
      (c : CanonicalStroke) (delete : Option StrokeSnapshot)
      (upsert : Option (Option StrokeSnapshot × StrokeSnapshot))
      → c.tombstone ≡ none
      → valid_operation_set ext (record { delete = delete; upsert = upsert }) (some c) true ≡ true
      → Allowed (some c) delete upsert
  unfolding valid_operation_set
  current-Allowed c none none live h = cc
  current-Allowed c none (some (none, after)) live h = cc
  current-Allowed c none (some (some before, after)) live h =
      let (current, page) =
        and_true (matches_canonical ext c before) (eqb after.page_index c.snapshot.page_index) h in
      (
        matches-IsCurrent c before live current,
        (eqb_iff after.page_index c.snapshot.page_index).0 page,
      )
  current-Allowed c (some deleted) none live h = matches-IsCurrent c deleted live h
  current-Allowed c (some deleted) (some (none, after)) live h =
      let (current, page) =
        and_true (matches_canonical ext c deleted)
          (not (eqb after.page_index c.snapshot.page_index)) h in
      (
        matches-IsCurrent c deleted live current,
        other_page after.page_index c.snapshot.page_index page,
      )
  current-Allowed c (some deleted) (some (some before, after)) live h = cc

  active_live : (c : CanonicalStroke) → c.tombstone ≡ none → active_of (some c) ≡ some c
  active_live c live = let b : is_some c.tombstone ≡ false = ap is_some live in rw b refl

  there :
      (set : CompactOperationSet) (c : CanonicalStroke)
      → c.tombstone ≡ none
      → valid_operation_set ext set (active_of (some c)) true ≡ true
      → valid_operation_set ext set (some c) true ≡ true
  there set c live h = subst (λ a. valid_operation_set ext set a true ≡ true) (active_live c live) h

  gone :
      (set : CompactOperationSet) (c : CanonicalStroke) (t : Tombstone)
      → c.tombstone ≡ some t
      → valid_operation_set ext set (active_of (some c)) true ≡ true
      → valid_operation_set ext set none true ≡ true
  gone set c t buried h = rw buried at h

  valid-Allowed :
      (state : CanonicalDocumentState) (found : Option CanonicalStroke)
      (delete : Option StrokeSnapshot) (upsert : Option (Option StrokeSnapshot × StrokeSnapshot))
      → valid_operation_set ext
          (record { delete = delete; upsert = upsert })
          (active_of found)
          (is_some found)
        ≡ true
      → Allowed found delete upsert
  unfolding valid_operation_set
  valid-Allowed state none none none h = cc
  valid-Allowed state none none (some (none, after)) h = tt
  valid-Allowed state none none (some (some before, after)) h = cc
  valid-Allowed state none (some deleted) none h = cc
  valid-Allowed state none (some deleted) (some (none, after)) h = cc
  valid-Allowed state none (some deleted) (some (some before, after)) h = cc
  valid-Allowed state (some c) delete upsert h =
      let set : CompactOperationSet = record { delete = delete; upsert = upsert } in
      elim (Option-cases c.tombstone) [
        | inr (t, buried) ↦ absurd (cc (buried-invalid ext state set, gone set c t buried h))
        | inl live ↦ current-Allowed c delete upsert live (there set c live h)
      ]

  gathered-Allowed :
      (state : CanonicalDocumentState) (found : Option CanonicalStroke)
      (set : Option CompactOperationSet)
      → ((s : CompactOperationSet)
          → set ≡ some s
          → valid_operation_set ext s (active_of found) (is_some found) ≡ true)
      → AllowedSet found set
  gathered-Allowed state found none valid = tt
  gathered-Allowed state found (some set) valid =
      valid-Allowed state found set.delete set.upsert (valid set refl)

  -- A manifest `m` that was let through, with the manifest `parsed` that was read for it, at a stroke.
  pub record Checked (state : CanonicalDocumentState) (parsed m : Manifest) (k : String)
      : Type 0 where
    pub schema : parsed.schema_version ≡ 1
    pub device : parsed.source ≡ "boox-neoreader-embedded-pdf"
    pub named : is_blank parsed.manifest_id ≡ false
    pub offset : m.pdf_to_supernote_normalized_y_offset ≡ ext.normalized_y_offset
    pub target : m.document.target_file_names ≡ target_name ext state ∷ []
    pub page_count :
        (state.original_page_count ≡ 0) ⊎ (parsed.document.page_count ≡ state.original_page_count)
    pub good : All (GoodOperation ext parsed.document.page_count) parsed.operations
    pub one_delete : deletes_of k parsed.operations ≤ 1
    pub one_upsert : upserts_of k parsed.operations ≤ 1
    pub allowed :
        AllowedSet
          (Map.lookup k state.strokes)
          (gathered k (map (persisted_operation ext) parsed.operations) none)
    pub operations :
        m.operations
        ≡ map
            (restored ext state (map (persisted_operation ext) parsed.operations))
            (map (persisted_operation ext) parsed.operations)

  deletes_of-persisted :
      (k : String) (ops : List Operation)
      → deletes_of k (map (persisted_operation ext) ops) ≡ deletes_of k ops
  deletes_of-persisted k [] = refl
  deletes_of-persisted k (delete_stroke id page before ∷ ops) =
      ap (λ n. (if id == k then 1 else 0) + n) (deletes_of-persisted k ops)
  deletes_of-persisted k (upsert_stroke id page before after ∷ ops) = deletes_of-persisted k ops

  upserts_of-persisted :
      (k : String) (ops : List Operation)
      → upserts_of k (map (persisted_operation ext) ops) ≡ upserts_of k ops
  upserts_of-persisted k [] = refl
  upserts_of-persisted k (delete_stroke id page before ∷ ops) = upserts_of-persisted k ops
  upserts_of-persisted k (upsert_stroke id page before after ∷ ops) =
      ap (λ n. (if id == k then 1 else 0) + n) (upserts_of-persisted k ops)

  -- What the last loops made of the operations.
  record Resolved (state : CanonicalDocumentState) (manifest m : Manifest) (ops : List Operation)
      : Type 0 where
    index : OperationIndex
    projected : List (String × StrokeSnapshot)
    indexed : index_operations ops [] ≡ ok index
    sets : check_sets ext state index [] ≡ ok projected
    made : m ≡ record manifest { operations = map (restore_operation ext state projected) ops }

  resolve_operations-Resolved :
      (state : CanonicalDocumentState) (manifest m : Manifest) (ops : List Operation)
      → map (normalize_operation ext) manifest.operations ≡ ops
      → resolve_operations ext state manifest ≡ ok m
      → Resolved state manifest m ops
  unfolding resolve_operations
  resolve_operations-Resolved state manifest m ops normal h =
      let normalized = map (normalize_operation ext) manifest.operations in
      let (index, indexed, h₁) = >>=-eq-ok (index_operations normalized []) _ h in
      let (projected, checked, h₂) = >>=-eq-ok (check_sets ext state index []) _ h₁ in
      subst (Resolved state manifest m) normal (record {
        index = index;
        projected = projected;
        indexed = indexed;
        sets = checked;
        made = cc h₂;
      })

  page_counts :
      (known count : ℕ) → (eqb known 0 || eqb count known) ≡ true → (known ≡ 0) ⊎ (count ≡ known)
  page_counts known count h = elim (either (eqb known 0) (eqb count known) h) [
    | inl e ↦ inl ((eqb_iff known 0).0 e)
    | inr e ↦ inr ((eqb_iff count known).0 e)
  ]

-- Of a manifest that validates: the manifest that was read has the known schema and source, an id that
-- is not blank and, where the original's page count is known, that page count; every snapshot of its
-- operations is of the operation's stroke and page, has a native style and at least two samples in
-- range, and the fingerprint of its geometry. It has at most one delete and one upsert of a stroke, and
-- together they add a stroke that is not there, or change, remove or move to another page one that is
-- there without a tombstone and whose canonical snapshot, or its PDF view, is what the manifest saw. The
-- result has the broker's own offset and target name, and those operations, with the pen colours that a
-- Supernote persists; an upsert of a stroke of which the manifest saw the PDF view gets back the native
-- metadata.
pub validate_boox_manifest-Checked :
    (ext : External) (state : CanonicalDocumentState) (bytes : Bytes) (m : Manifest) (k : String)
    → validate_boox_manifest ext state bytes ≡ ok m
    → (parsed : Manifest) × (ext.manifest_from_slice bytes ≡ ok parsed)
      × Checked ext state parsed m k
unfolding refresh_manifest_id Map.lookup
validate_boox_manifest-Checked ext state bytes m k h =
    let (parsed, read, schema, device, named, h₁) = opened ext state bytes m h in
    let shifted =
      refresh_manifest_id ext
        (record parsed { pdf_to_supernote_normalized_y_offset = ext.normalized_y_offset }) in
    let (h₂, pages, strokes) = checked_manifest ext state shifted m h₁ in
    let good = every_operation ext parsed.document.page_count parsed.operations strokes in
    let ops = map (persisted_operation ext) parsed.operations in
    let r =
      resolve_operations-Resolved ext state _ m ops
        (normalized-persisted ext parsed.document.page_count parsed.operations good) h₂ in
    let (one_delete, one_upsert) = once k ops [] r.index r.indexed in
    (
      parsed,
      read,
      record {
        schema = schema;
        device = device;
        named = named;
        offset = ap (λ (x : Manifest). x.pdf_to_supernote_normalized_y_offset) r.made;
        target = ap (λ (x : Manifest). x.document.target_file_names) r.made;
        page_count = page_counts ext state.original_page_count parsed.document.page_count pages;
        good = good;
        one_delete =
            at_most (deletes_of k ops) (deletes_of k parsed.operations) _
              (deletes_of-persisted ext k parsed.operations) one_delete;
        one_upsert =
            at_most (upserts_of k ops) (upserts_of k parsed.operations) _
              (upserts_of-persisted ext k parsed.operations) one_upsert;
        allowed =
            gathered-Allowed ext state (Map.lookup k state.strokes) (gathered k ops none) (λ set e.
              check_sets-valid ext state k r.index [] r.projected set r.sets
                (lookup-index_operations k ops [] r.index r.indexed ∙ e));
        operations =
            ap (λ (x : Manifest). x.operations) r.made
            ∙ map-restored ext state ops r.index r.projected r.indexed r.sets ops;
      },
    )
