-- ===== src/Tests/Validate.antt =====
-- `validate_boox_manifest` on the fixture's manifest.
use inkbridge.Prelude.{◌≡◌, refl, some, [], string_key}
use inkbridge.Prelude.Fallible.{ok, err}
use inkbridge.Prelude.Map
use inkbridge.Prelude.Text.{is_blank}
use inkbridge.Broker.Model.{Manifest}
use inkbridge.Broker.Apply.{apply_manifest}
use inkbridge.Broker.Validate.{validate_boox_manifest}
use inkbridge.Broker.Validate.Accepted.{validated_keeps_buried}
use inkbridge.Broker.Validate.Checked.{Checked, validate_boox_manifest-Checked}
use inkbridge.Tests.Fixtures.{outside, initial, edit, upload, buried_stroke}

unfoldable accepted_edit : Manifest
unfolding validate_boox_manifest is_blank
accepted_edit = elim (validate_boox_manifest outside initial []) [ ok m ↦ m | err e ↦ edit ]

edit_validates : validate_boox_manifest outside initial [] ≡ ok accepted_edit
unfolding validate_boox_manifest is_blank accepted_edit
edit_validates = refl

validate_boox_manifest-Checked_example :
    (parsed : Manifest) × (outside.manifest_from_slice [] ≡ ok parsed)
    × Checked outside initial parsed accepted_edit "s0"
validate_boox_manifest-Checked_example =
    validate_boox_manifest-Checked outside initial [] accepted_edit "s0" edit_validates

validated_keeps_buried_example :
    Map.lookup "s0" (apply_manifest initial accepted_edit upload).strokes ≡ some buried_stroke
validated_keeps_buried_example =
    validated_keeps_buried outside initial [] accepted_edit upload "s0" buried_stroke edit_validates
      there refl
  where
    there : Map.lookup "s0" initial.strokes ≡ some buried_stroke
    there = unfold Map.lookup in refl
