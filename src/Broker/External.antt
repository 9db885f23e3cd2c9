-- ===== src/Broker/External.antt =====
-- What inkbridge-broker/src/broker.rs calls of other code: sha2, serde_json and lopdf, and the
-- conversion of InkBridge's own crates between PDF ink, device exports and strokes
-- (inkbridge-convert, and pdf_view.rs and boox_snapshot.rs of the broker), which stand behind this
-- interface.
use inkbridge.Prelude.{ℕ, Bool, List, Option, String}
use inkbridge.Prelude.Fallible.{Result}
use inkbridge.Broker.Model.{
  Bytes, F64, NativeStyle, Sample, StrokeSnapshot, Manifest, BaselineExport, StorageEvent,
  CanonicalDocumentState, BaselinePage, ConflictResolutionRecord,
}
use inkbridge.Broker.Json.{Json}
use inkbridge.Broker.Errors.{Fallible}

pub record External : Type 0 where
  -- sha2: the digest in hexadecimal
  pub sha256_hex : Bytes → String
  -- lopdf: `Document::load_mem` and the number of its pages
  pub load_page_count : Bytes → Result String ℕ
  -- serde_json
  pub state_to_json : CanonicalDocumentState → Result String Bytes
  pub json_from_slice : Bytes → Result String Json
  pub state_from_json : Json → Result String CanonicalDocumentState
  pub manifest_to_json : Manifest → Result String Bytes
  pub record_to_json : ConflictResolutionRecord → Result String Bytes
  pub manifest_from_slice : Bytes → Result String Manifest
  -- `format!("{:.8}")` of a float
  pub format_offset : F64 → String
  -- `Broker::normalized_y_offset`
  pub normalized_y_offset : F64
  -- inkbridge-convert: `geometry_fingerprint`, `parse_baseline_bytes`, and `build_manifest` with
  -- the temporary files that `Broker::boox_to_supernote` hands it
  pub geometry_fingerprint : NativeStyle → List Sample → String
  pub parse_baseline_bytes : Bytes → String → Result String BaselineExport
  pub boox_to_supernote : CanonicalDocumentState → StorageEvent → Bytes → Fallible Manifest
  -- inkbridge-convert: `build_manifest` of a PDF against the baselines that `write_baselines` makes of a
  -- state and, for the named file, the pages of `write_baseline_export_pages`, in a temporary directory
  pub build_manifest :
      CanonicalDocumentState → Option (String × List BaselinePage) → Bytes → Fallible Manifest
  -- pdf_view.rs: `write_boox_view_with_tombstones_owned`
  pub write_boox_view : Bytes → List StrokeSnapshot → List String → Result String Bytes
  -- boox_snapshot.rs
  pub boox_pdf_view_matches : StrokeSnapshot → StrokeSnapshot → Bool
  pub restore_native_metadata : (canonical observed_before after : StrokeSnapshot) → StrokeSnapshot
