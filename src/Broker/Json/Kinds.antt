-- ===== src/Broker/Json/Kinds.antt =====
-- What `migrate_legacy_conflict_payload_kinds` of inkbridge-broker/src/broker.rs writes into a stored
-- state.
use inkbridge.Prelude.{
  ◌≡◌, ◌⊎◌, Bool, true, ◌&&◌, ◌||◌, Option, none, some, String, if◌then◌else◌, ◌==◌, string_key,
}
use inkbridge.Prelude.Text.{extension, eq_ignore_ascii_case}
use inkbridge.Broker.Json.{
  Json, string, object, Items, nil, cons, Fields, get_field, as_text, has_json_extension, is_boox,
}

-- A value that is the text of a path to a JSON file.
abbrev pub IsJsonPath : Option Json → Type 0
IsJsonPath found =
    (path : String) × (e : String) × (found ≡ some (string path))
    × (extension path ≡ some e)
    × (eq_ignore_ascii_case e "json" ≡ true)

-- A conflict with a BOOX manifest: it comes from the BOOX, and one of its paths is a JSON file's.
abbrev pub IsManifest : Fields → Type 0
IsManifest fs =
    (get_field "source" fs ≡ some (string "boox"))
    × (IsJsonPath (get_field "objectPath" fs) ⊎ IsJsonPath (get_field "preservedPath" fs))

-- The payload kind of a conflict with these fields.
abbrev pub IsKind : Option Json → Fields → Json → Type 0
IsKind (some kept) fs kind = kind ≡ kept
IsKind none fs kind =
    (IsManifest fs × (kind ≡ string "boox_operation_manifest"))
    ⊎ ((¬ IsManifest fs) × (kind ≡ string "device_view"))

-- A conflict after the migration, at one of its fields.
abbrev pub Migrates : (k : String) → Json → Json → Type 0
Migrates k (object fs) after =
    (gs : Fields) × (kind : Json) × (after ≡ object gs)
    × IsKind (get_field "payloadKind" fs) fs kind
    × (get_field k gs ≡ (if "payloadKind" == k then some kind else get_field k fs))
Migrates k v after = after ≡ v

abbrev pub AllMigrate : (k : String) → Items → Items → Type 0
AllMigrate k nil after = after ≡ nil
AllMigrate k (cons v vs) after =
    (w : Json) × (ws : Items) × (after ≡ cons w ws) × Migrates k v w × AllMigrate k vs ws

kind_of : Fields → Bool
unfolding as_text has_json_extension is_boox get_field
kind_of fs =
    is_boox (as_text (get_field "source" fs))
    && (has_json_extension (as_text (get_field "objectPath" fs))
        || has_json_extension (as_text (get_field "preservedPath" fs)))
