-- ===== src/Tests/Fixtures.antt =====
-- A document with one BOOX stroke, a storage that holds it, and an outer world small enough to
-- compute with: a hash that is the length of its input, and a JSON that names the states it knows.
use inkbridge.Prelude.{
  ℕ, ◌≡◌, refl, sym, ap, true, if◌then◌else◌, Bool-cases, inl, inr, some, none, [], ◌∷◌, String,
  length, ◌==◌, ==_iff, string_key,
}
use inkbridge.Prelude.Int.{pos}
use inkbridge.Prelude.Fallible.{Result, ok, err}
use inkbridge.Prelude.Text.{decimal}
use inkbridge.Broker.Model.{
  NativeStyle, Sample, StrokeSnapshot, Manifest, upsert_stroke, delete_stroke, CanonicalStroke,
  DeviceRevision, BaselineExport, CanonicalDocumentState, StorageEvent, boox, supernote,
  device_view, Bytes,
}
use inkbridge.Broker.Json.{Json, number}
use inkbridge.Broker.Storage.Memory.{MemoryStorage, new, put_unchecked}
use inkbridge.Broker.Errors.{conversion}
use inkbridge.Broker.External.{External}
use inkbridge.Broker.Codec.{JsonLaws}
use inkbridge.Broker.Process.Accept.{advanced_state, with_view}
use inkbridge.Broker.Apply.{apply_export}
use native.Mathlib.Decide.{ℕ_discrete}

abbrev pub thin : NativeStyle
thin = record { layer_num = pos 0; thickness = pos 2; pen_color = pos 0; pen_type = pos 10 }

abbrev pub origin : Sample
origin = record { x = 0; y = 0; pressure = 0 }

abbrev pub stroke_on : String → ℕ → StrokeSnapshot
stroke_on id page = record {
  source_uuid = id;
  origin = "supernote";
  page_index = page;
  native_style = thin;
  samples = origin ∷ origin ∷ [];
  geometry_fingerprint = "";
}

abbrev pub old_stroke : CanonicalStroke
old_stroke = record {
  stroke_id = "s1";
  snapshot = stroke_on "s1" 0;
  last_modified_by = boox;
  source_revisions = record { boox_revision = 1; supernote_revision = 0 };
  tombstone = none;
}

abbrev pub buried_stroke : CanonicalStroke
buried_stroke = record {
  stroke_id = "s0";
  snapshot = stroke_on "s0" 1;
  last_modified_by = boox;
  source_revisions = record { boox_revision = 1; supernote_revision = 0 };
  tombstone = some (record { deleted_by = boox; deleted_at_revision = 1; event_id = "e1" });
}

abbrev pub no_device : DeviceRevision
no_device = record {
  revision = 0;
  content_sha256 = "";
  source_generation = 0;
  source_object_path = "";
  accepted_object_path = "";
  source_file_name = none;
}

abbrev pub initial : CanonicalDocumentState
initial = record {
  schema_version = 1;
  document_id = "doc";
  original_object_path = "Originals/doc/original.pdf";
  original_pdf_sha256 = "3";
  original_file_name = "notes.pdf";
  original_page_count = 2;
  state_revision = 1;
  boox_device = record no_device { revision = 1; content_sha256 = "9" };
  supernote_device = no_device;
  last_common_revisions = record { boox_revision = 1; supernote_revision = 0 };
  processed_event_ids = "e1" ∷ [];
  strokes = ("s0", buried_stroke) ∷ ("s1", old_stroke) ∷ [];
  source_generations = [];
  generated_views = [];
  conflicts = [];
  resolved_conflicts = [];
}

-- A Supernote export of the first page: the stroke s1 is gone, s2 is new.
abbrev pub export : BaselineExport
export = record {
  source_file_name = some "notes.pdf.mark";
  document_id = some "doc";
  based_on = some (record { boox_revision = 1; supernote_revision = 0 });
  pages = record { page_index = 0; strokes = stroke_on "s2" 0 ∷ [] } ∷ [];
}

-- Deletes s1 and adds s2 on the second page.
abbrev pub edit : Manifest
edit = record {
  schema_version = 1;
  manifest_id = "m";
  source = "boox-neoreader-embedded-pdf";
  document = record {
    source_file_name = "notes.pdf";
    target_file_names = [];
    page_count = 2;
    pdf_sha256 = "3";
  };
  pdf_to_supernote_normalized_y_offset = 5;
  operations =
      upsert_stroke "s2" 1 none (stroke_on "s2" 1) ∷ delete_stroke "s1" 0 (stroke_on "s1" 0) ∷ [];
  summary = record { upserted = 1; deleted = 1; unchanged = 0; skipped = 0 };
}

abbrev pub upload : StorageEvent
upload = record {
  schema_version = 1;
  event_id = "e2";
  document_id = "doc";
  source = supernote;
  object_path = "Supernote/doc.json";
  source_generation = 3;
  source_revision = 1;
  based_on = record { boox_revision = 1; supernote_revision = 0 };
  content_sha256 = "2";
  payload_kind = device_view;
  broker_output = none;
}

-- The state that `upload` leads to.
unfoldable pub uploaded : CanonicalDocumentState
unfolding advanced_state apply_export
uploaded =
    with_view (advanced_state (apply_export initial upload export) upload none)
      "BOOX_Folder/doc/notes.pdf" "4" upload

unfoldable string_discrete : Discrete String
string_discrete a b = elim (Bool-cases (a == b)) [
  | inl e ↦ yes ((==_iff a b).0 e)
  | inr e ↦ no (λ p. cc (e, (==_iff a b).1 p))
]

unfoldable pub state_discrete : Discrete CanonicalDocumentState
unfolding string_discrete ℕ_discrete uploaded
state_discrete = hlevel (ℕ_discrete, string_discrete)

abbrev pub encode : {s t : CanonicalDocumentState} → Dec (s ≡ t) → Result String Bytes
encode (yes p) = ok (1 ∷ [])
encode (no p) = err "unknown state"

abbrev first_byte : Bytes → Result String Json
first_byte [] = err "empty"
first_byte (b ∷ bytes) = ok (number (decimal b))

abbrev known_state : Json → Result String CanonicalDocumentState
known_state (number n) = if n == "0" then ok initial else ok uploaded
known_state v = err "not a state"

abbrev pub outside : External
outside = record {
  sha256_hex = λ bytes. decimal (length bytes);
  load_page_count = λ bytes. ok 2;
  state_to_json = λ state. encode (state_discrete state uploaded);
  json_from_slice = first_byte;
  state_from_json = known_state;
  manifest_to_json = λ manifest. ok [];
  record_to_json = λ resolution. ok (6 ∷ []);
  manifest_from_slice = λ bytes. ok edit;
  format_offset = λ offset. "0.00000000";
  normalized_y_offset = 0;
  geometry_fingerprint = λ style samples. "";
  parse_baseline_bytes = λ bytes name. ok export;
  boox_to_supernote = λ state event bytes. err (conversion "no pdf");
  build_manifest = λ state pages pdf. ok (record edit { operations = [] });
  write_boox_view = λ original active tombstones. ok (7 ∷ 7 ∷ 7 ∷ 7 ∷ []);
  boox_pdf_view_matches = λ a b. true;
  restore_native_metadata = λ canonical observed after. after;
}

-- The original, the state and the export, at the generations 1, 2 and 3.
unfoldable pub stored : MemoryStorage
unfolding put_unchecked
stored =
    let m = (put_unchecked new "Originals/doc/original.pdf" (1 ∷ 2 ∷ 3 ∷ []) []).0 in
    let m = (put_unchecked m "Canonical/doc/state.json" (0 ∷ 10 ∷ []) []).0 in
    (put_unchecked m "Supernote/doc.json" (5 ∷ 5 ∷ []) []).0

pub encode_one :
    {s t : CanonicalDocumentState} (d : Dec (s ≡ t)) (json : Bytes)
    → encode d ≡ ok json
    → (json ≡ 1 ∷ []) × (s ≡ t)
encode_one (yes p) json h = (cc h, p)
encode_one (no p) json h = absurd (cc h)

pub outside-JsonLaws : JsonLaws outside
unfolding decimal
outside-JsonLaws = record {
  value = λ state. number "1";
  parses = λ state json h. rw ((encode_one (state_discrete state uploaded) json h).0) refl;
  reads_back = λ state json h. ap ok (sym ((encode_one (state_discrete state uploaded) json h).1));
  writes_kinds = λ state. tt;
}
