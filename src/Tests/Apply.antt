-- ===== src/Tests/Apply.antt =====
-- `apply_manifest` and `apply_supernote_export` on the fixture's state.
use inkbridge.Prelude.{◌≡◌, some, none, [], ◌∷◌, string_key}
use inkbridge.Prelude.Map
use inkbridge.Prelude.Set
use inkbridge.Broker.Model.{Manifest, StorageEvent, upsert_stroke, delete_stroke, boox}
use inkbridge.Broker.Apply.{apply_manifest, apply_export, page_strokes, page_indices, bury}
use inkbridge.Broker.Apply.Operations.{lookup-apply_manifest}
use inkbridge.Broker.Apply.Pages.{lookup-apply_export}
use inkbridge.Tests.Fixtures.{initial, upload, export, stroke_on, old_stroke}

-- Deletes s1 and s2, and upserts s2.
abbrev both_edits : Manifest
both_edits = record {
  schema_version = 2;
  manifest_id = "m";
  source = "boox-pdf-ink";
  document = record {
    source_file_name = "notes.pdf";
    target_file_names = [];
    page_count = 2;
    pdf_sha256 = "3";
  };
  pdf_to_supernote_normalized_y_offset = 0;
  operations =
      upsert_stroke "s2" 1 none (stroke_on "s2" 1)
      ∷ delete_stroke "s1" 0 (stroke_on "s1" 0)
      ∷ delete_stroke "s2" 0 (stroke_on "s2" 0)
      ∷ [];
  summary = record { upserted = 1; deleted = 2; unchanged = 0; skipped = 0 };
}

abbrev edited : StorageEvent
edited = record upload { source = boox; source_revision = 2 }

lookup-apply_manifest_example :
    Map.lookup "s1" (apply_manifest initial both_edits edited).strokes
    ≡ some (bury edited old_stroke)
unfolding Map.lookup
lookup-apply_manifest_example = lookup-apply_manifest initial both_edits edited "s1"

lookup-apply_export_example :
    Map.lookup "s1" (apply_export initial upload export).strokes ≡ some (bury upload old_stroke)
unfolding Map.lookup Set.contains page_strokes page_indices
lookup-apply_export_example = lookup-apply_export initial upload export "s1"
