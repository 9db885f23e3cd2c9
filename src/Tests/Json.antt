-- ===== src/Tests/Json.antt =====
-- The migration of a state whose conflict has no payload kind.
use inkbridge.Prelude.{◌≡◌, refl}
use inkbridge.Prelude.Text.{extension, eq_ignore_ascii_case}
use inkbridge.Broker.Json.{
  Json, Fields, number, string, array, object, nil, cons, empty, field,
  migrate_legacy_conflict_payload_kinds,
}

abbrev legacy_conflict : Json
legacy_conflict =
    object (field "source" (string "boox") (field "objectPath" (string "a/b.JSON") empty))

abbrev legacy_fields : Fields
legacy_fields =
    field "schemaVersion" (number "1") (field "conflicts" (array (cons legacy_conflict nil)) empty)

abbrev legacy_state : Json
legacy_state = object legacy_fields

abbrev migrated_state : Json
migrated_state = object (
    field "schemaVersion" (number "1") (
      field "conflicts"
        (array (
          cons
            (object (
              field "source" (string "boox") (
                field "objectPath" (string "a/b.JSON")
                  (field "payloadKind" (string "boox_operation_manifest") empty))))
            nil))
        empty))

-- A BOOX conflict whose object is a JSON is a manifest, whatever the case of its extension.
legacy_is_manifest : migrate_legacy_conflict_payload_kinds legacy_state ≡ migrated_state
unfolding migrate_legacy_conflict_payload_kinds extension eq_ignore_ascii_case
legacy_is_manifest = refl
