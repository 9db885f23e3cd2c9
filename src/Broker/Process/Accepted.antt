-- ===== src/Broker/Process/Accepted.antt =====
-- The branch of `process` of inkbridge-broker/src/broker.rs that accepts an event.
use inkbridge.Prelude.{
  ℕ, ◌≡◌, refl, sym, ◌∙◌, ap, subst, Bool, true, false, ◌||◌, Option, none, some, String, [], ◌∷◌,
  arith, Bool-cases, inl, inr, eqb, if◌then◌else◌, ◌==◌, string_key,
}
use inkbridge.Prelude.Fallible.{ok, map_err, refuse_if, >>=-eq-ok, map_err-eq-ok}
use inkbridge.Prelude.Set.{contains-insert_self}
use inkbridge.Broker.Model.{
  Bytes, DeviceSide, StorageEvent, CanonicalDocumentState, DeviceRevision, ProcessOutcome,
  RevisionPair, set_device, boox, supernote, applied, revisions, set_revision, Manifest,
  boox_operation_manifest, kind_key, side_key,
}
use inkbridge.Broker.Storage.{matches, BrokerStorage}
use inkbridge.Broker.Errors.{
  Fallible, conditional_write, conversion, storage, corrupt_state, original_unreadable,
  original_empty,
}
use inkbridge.Broker.External.{External}
use inkbridge.Broker.Output.{state_write, destination_precondition}
use inkbridge.Broker.Paths.{state_path}
use inkbridge.Broker.Apply
use inkbridge.Broker.Apply.{
  apply_manifest, apply_supernote_export, apply_export, validate_supernote_export,
}
use inkbridge.Broker.Process.Mark.{next_u64}
use inkbridge.Broker.Process.Accept.{
  Converted, advanced_state, with_view, read_original, output_write, first_generation, count_pages,
  convert_from, active_snapshots, tombstone_ids, ensure_original_page_count, read_manifest, convert,
  publish, accept,
}
use inkbridge.Broker.Process.Commits.{Recorded, Effect, Processed}

-- What preparing and applying an input leaves alone.
record SameBooks (state next : CanonicalDocumentState) : Type 0 where
  document : next.document_id ≡ state.document_id
  schema : next.schema_version ≡ state.schema_version
  counted : next.state_revision ≡ state.state_revision
  conflicts : next.conflicts ≡ state.conflicts
  revisions_kept : revisions next ≡ revisions state

SameBooks-refl : (state : CanonicalDocumentState) → SameBooks state state
SameBooks-refl state = record {
  document = refl;
  schema = refl;
  counted = refl;
  conflicts = refl;
  revisions_kept = refl;
}

SameBooks-trans : {a b c : CanonicalDocumentState} → SameBooks a b → SameBooks b c → SameBooks a c
SameBooks-trans p q = record {
  document = q.document ∙ p.document;
  schema = q.schema ∙ p.schema;
  counted = q.counted ∙ p.counted;
  conflicts = q.conflicts ∙ p.conflicts;
  revisions_kept = q.revisions_kept ∙ p.revisions_kept;
}

named_SameBooks :
    (state : CanonicalDocumentState) (name : Option String) (strokes : Apply.Strokes)
    → SameBooks state (record (Apply.name_supernote state name) { strokes = strokes })
unfolding revisions
named_SameBooks state none strokes = record {
  document = refl;
  schema = refl;
  counted = refl;
  conflicts = refl;
  revisions_kept = refl;
}
named_SameBooks state (some n) strokes = record {
  document = refl;
  schema = refl;
  counted = refl;
  conflicts = refl;
  revisions_kept = refl;
}

export-SameBooks :
    (ext : External) (state next : CanonicalDocumentState) (event : StorageEvent) (bytes : Bytes)
    → apply_supernote_export ext state event bytes ≡ ok next
    → SameBooks state next
unfolding apply_supernote_export apply_export
export-SameBooks ext state next event bytes h =
    let (export, _, h₁) =
      >>=-eq-ok (map_err conversion (ext.parse_baseline_bytes bytes event.object_path)) _ h in
    let (_, _, h₂) = >>=-eq-ok (validate_supernote_export state event export) _ h₁ in
    let same : apply_export state event export ≡ next = cc in
    subst (SameBooks state) same (named_SameBooks state export.source_file_name _)

revisions-set_device :
    (state : CanonicalDocumentState) (side : DeviceSide) (d : DeviceRevision)
    → revisions (set_device state side d) ≡ set_revision (revisions state) side d.revision
unfolding revisions set_device set_revision
revisions-set_device state boox d = refl
revisions-set_device state supernote d = refl

set_device-fields :
    (state : CanonicalDocumentState) (side : DeviceSide) (d : DeviceRevision)
    → ((set_device state side d).document_id ≡ state.document_id)
      × ((set_device state side d).schema_version ≡ state.schema_version)
      × ((set_device state side d).state_revision ≡ state.state_revision)
      × ((set_device state side d).conflicts ≡ state.conflicts)
unfolding set_device
set_device-fields state boox d = (refl, refl, refl, refl)
set_device-fields state supernote d = (refl, refl, refl, refl)

module _ {S : Type 0} (st : BrokerStorage S) (ext : External) (s : S) where
  count_pages-SameBooks :
      (state next : CanonicalDocumentState)
      → count_pages st ext s state ≡ ok next
      → SameBooks state next
  unfolding count_pages revisions
  count_pages-SameBooks state next h =
      let (original, _, h₁) = >>=-eq-ok (read_original st ext s state) _ h in
      let (pages, _, h₂) =
        >>=-eq-ok
          (map_err (λ e. corrupt_state original_unreadable) (ext.load_page_count original.bytes)) _
          h₁ in
      let (_, _, h₃) = >>=-eq-ok (refuse_if (eqb pages 0) (corrupt_state original_empty)) _ h₂ in
      let same : record state { original_page_count = pages } ≡ next = cc in
      subst (SameBooks state) same (record {
        document = refl;
        schema = refl;
        counted = refl;
        conflicts = refl;
        revisions_kept = refl;
      })

  counted-SameBooks :
      (state next : CanonicalDocumentState)
      → ensure_original_page_count st ext s state ≡ ok next
      → SameBooks state next
  unfolding ensure_original_page_count
  counted-SameBooks state next h = elim (Bool-cases (eqb state.original_page_count 0)) [
    | inl zero_pages ↦ count_pages-SameBooks state next (rw zero_pages at h)
    | inr known ↦ subst (SameBooks state) (ground arith) (SameBooks-refl state)
  ]

  manifest-SameBooks :
      (state : CanonicalDocumentState) (manifest : Manifest) (event : StorageEvent)
      → SameBooks state (apply_manifest state manifest event)
  unfolding apply_manifest revisions
  manifest-SameBooks state manifest event = record {
    document = refl;
    schema = refl;
    counted = refl;
    conflicts = refl;
    revisions_kept = refl;
  }

  convert-SameBooks :
      (side : DeviceSide) (state : CanonicalDocumentState) (event : StorageEvent) (bytes : Bytes)
      (c : Converted)
      → convert_from st ext side s state event bytes ≡ ok c
      → SameBooks state c.state
  unfolding convert_from
  convert-SameBooks boox state event bytes c h =
      let (manifest, _, h₁) = >>=-eq-ok (read_manifest st ext state event bytes) _ h in
      let (json, _, h₂) = >>=-eq-ok (map_err conversion (ext.manifest_to_json manifest)) _ h₁ in
      let same : apply_manifest state manifest event ≡ c.state = ground arith in
      subst (SameBooks state) same (manifest-SameBooks state manifest event)
  convert-SameBooks supernote state event bytes c h =
      let (state', applied_export, h₁) =
        >>=-eq-ok (apply_supernote_export ext state event bytes) _ h in
      let (original, _, h₂) = >>=-eq-ok (read_original st ext s state') _ h₁ in
      let (pdf, _, h₃) =
        >>=-eq-ok
          (map_err conversion (
            ext.write_boox_view original.bytes (active_snapshots state'.strokes)
              (tombstone_ids state'.strokes)))
          _ h₂ in
      let same : state' ≡ c.state = ground arith in
      subst (SameBooks state) same (export-SameBooks ext state state' event bytes applied_export)

-- The state that an accepted event commits.
abbrev next_of : Converted → StorageEvent → (path hash : String) → CanonicalDocumentState
next_of c event path hash =
    with_view (advanced_state c.state event c.boox_source_file_name) path hash event

module _ (state : CanonicalDocumentState) (c : Converted) (event : StorageEvent)
    (path hash : String) (b : SameBooks state c.state) where
  advanced-Recorded : Recorded state event (next_of c event path hash)
  unfolding advanced_state
  advanced-Recorded =
      let f = set_device-fields c.state event.source _ in
      record {
        seen = contains-insert_self event.event_id _;
        document = f.0 ∙ b.document;
        schema = f.1 ∙ b.schema;
        counted = ap next_u64 (f.2 ∙ b.counted);
      }

  revisions-advanced :
      event.based_on ≡ revisions state
      → revisions (advanced_state c.state event c.boox_source_file_name)
        ≡ set_revision event.based_on event.source event.source_revision
  unfolding advanced_state revisions
  revisions-advanced based =
      revisions-set_device c.state event.source _
      ∙ ap (λ (r : RevisionPair). set_revision r event.source event.source_revision)
          (b.revisions_kept ∙ sym based)

  advanced-Effect :
      (destination : String) (generation : ℕ)
      → event.based_on ≡ revisions state
      → Effect state event
          (applied event.document_id event.event_id destination generation
            (revisions (advanced_state c.state event c.boox_source_file_name)))
          (next_of c event path hash)
  unfolding advanced_state revisions
  advanced-Effect destination generation based = (
    based,
    revisions-advanced based,
    refl,
    refl,
    (set_device-fields c.state event.source _).3 ∙ b.conflicts,
  )

module _ {S : Type 0} (st : BrokerStorage S) (ext : External) (s s' : S) (generation : ℕ)
    (event : StorageEvent) (o : ProcessOutcome) where
  publish-Processed :
      (state : CanonicalDocumentState) (c : Converted)
      → SameBooks state c.state
      → event.based_on ≡ revisions state
      → publish st ext s c generation event ≡ ok (o, s')
      → Processed st ext s s' state generation event o
  unfolding publish
  publish-Processed state c b based h =
      let advanced = advanced_state c.state event c.boox_source_file_name in
      let path = c.destination_path in
      let hash = ext.sha256_hex c.output_bytes in
      let next = next_of c event path hash in
      let (destination, _, h₁) = >>=-eq-ok (map_err storage (st.read s path)) _ h in
      let (precondition, _, h₂) =
        >>=-eq-ok (destination_precondition ext advanced path destination) _ h₁ in
      let (w, wrote, h₃) =
        >>=-eq-ok (state_write ext (state_path event.document_id) next (matches generation)) _ h₂ in
      let batch = output_write c advanced hash event precondition ∷ w ∷ [] in
      let (committed, done, h₄) = >>=-eq-ok (map_err conditional_write (st.commit s batch)) _ h₃ in
      let named : applied event.document_id event.event_id path (first_generation committed.0)
            (revisions advanced)
          ≡ o =
        cc in
      record {
        next = next;
        commit = record {
          others = output_write c advanced hash event precondition ∷ [];
          write = w;
          objects = committed.0;
          wrote = wrote;
          committed = cc (map_err-eq-ok conditional_write (st.commit s batch) done);
        };
        recorded = advanced-Recorded state c event path hash b;
        effect =
            subst (λ x. Effect state event x next) named
              (advanced-Effect state c event path hash b path (first_generation committed.0) based);
      }

  pub accept-Processed :
      (state : CanonicalDocumentState) (bytes : Bytes)
      → event.based_on ≡ revisions state
      → accept st ext s state generation event bytes ≡ ok (o, s')
      → Processed st ext s s' state generation event o
  unfolding accept convert
  accept-Processed state bytes based h =
      let needed = event.payload_kind == boox_operation_manifest || event.source == supernote in
      let first : Fallible CanonicalDocumentState =
        if needed then ensure_original_page_count st ext s state else ok state in
      let (state', counted, h₁) = >>=-eq-ok first _ h in
      let (c, converted, h₂) =
        >>=-eq-ok (convert_from st ext event.source s state' event bytes) _ h₁ in
      let b : SameBooks state state' = if_counted state state' needed counted in
      publish-Processed state c
        (SameBooks-trans b (convert-SameBooks st ext s event.source state' event bytes c converted))
        based h₂
    where
      if_counted :
          (state state' : CanonicalDocumentState) (needed : Bool)
          → (if needed then ensure_original_page_count st ext s state else ok state) ≡ ok state'
          → SameBooks state state'
      if_counted state state' true e = counted-SameBooks st ext s state state' e
      if_counted state state' false e =
          subst (SameBooks state) (ground arith) (SameBooks-refl state)
