-- ===== src/Broker/Json.antt =====
-- The JSON values of serde_json, and the migration of stored states that
-- inkbridge-broker/src/broker.rs runs before it decodes one.
pub mod Migration
pub mod Kinds
use inkbridge.Prelude.{
  ℕ, Bool, true, false, ◌&&◌, ◌||◌, Option, none, some, String, List, [], ◌∷◌, map, is_some,
  if◌then◌else◌, ◌==◌, string_key, leb, eqb, ltb,
}
use inkbridge.Prelude.Text.{extension, eq_ignore_ascii_case}

-- A number is its text. The members of an object are in the order in which they are iterated.
mutual
  pub data Json : Type 0 where
    null : Json
    bool : Bool → Json
    number : String → Json
    string : String → Json
    array : Items → Json
    object : Fields → Json

  pub data Items : Type 0 where
    nil : Items
    cons : Json → Items → Items

  pub data Fields : Type 0 where
    empty : Fields
    field : String → Json → Fields → Fields

unfoldable pub get_field : String → Fields → Option Json
get_field k empty = none
get_field k (field j v fs) = if j == k then some v else get_field k fs

unfoldable pub put_field : String → Json → Fields → Fields
put_field k v empty = field k v empty
put_field k v (field j w fs) = if j == k then field k v fs else field j w (put_field k v fs)

-- `value.as_str()`
unfoldable pub as_text : Option Json → Option String
as_text (some (string s)) = some s
as_text _ = none

unfoldable pub has_json_extension : Option String → Bool
has_json_extension none = false
has_json_extension (some path) = elim (extension path) [
  | none ↦ false
  | some e ↦ eq_ignore_ascii_case e "json"
]

is_boox : Option String → Bool
is_boox none = false
is_boox (some s) = s == "boox"

unfoldable pub migrate_conflict : Json → Json
unfolding get_field put_field as_text has_json_extension is_boox
migrate_conflict (object fs) =
    if is_some (get_field "payloadKind" fs)
    then object fs
    else (let boox = is_boox (as_text (get_field "source" fs)) in
        let has_json_evidence =
          has_json_extension (as_text (get_field "objectPath" fs))
          || has_json_extension (as_text (get_field "preservedPath" fs)) in
        let kind = if boox && has_json_evidence then "boox_operation_manifest" else "device_view" in
        object (put_field "payloadKind" (string kind) fs))
migrate_conflict v = v

unfoldable pub migrate_conflicts : Items → Items
unfolding migrate_conflict
migrate_conflicts nil = nil
migrate_conflicts (cons v vs) = cons (migrate_conflict v) (migrate_conflicts vs)

migrate_field : Option Json → Fields → Fields
unfolding migrate_conflicts put_field
migrate_field (some (array vs)) fs = put_field "conflicts" (array (migrate_conflicts vs)) fs
migrate_field _ fs = fs

unfoldable pub migrate_legacy_conflict_payload_kinds : Json → Json
unfolding migrate_field get_field
migrate_legacy_conflict_payload_kinds (object fs) =
    object (migrate_field (get_field "conflicts" fs) fs)
migrate_legacy_conflict_payload_kinds v = v
