-- ===== src/Broker/Json/Migration.antt =====
-- The migration of stored states in inkbridge-broker/src/broker.rs leaves a migrated state alone.
use inkbridge.Prelude.{
  ◌≡◌, refl, ap, true, Option, none, some, String, is_some, arith, Bool-cases, inl, inr, ==_iff,
  string_key,
}
use inkbridge.Broker.Json.{
  Json, null, bool, number, string, array, object, Items, nil, cons, Fields, empty, field,
  get_field, put_field, migrate_conflict, migrate_conflicts, migrate_field,
  migrate_legacy_conflict_payload_kinds,
}

-- Every object among the conflicts says what kind of payload it has.
abbrev pub HasKind : Json → Type 0
HasKind (object fs) = is_some (get_field "payloadKind" fs) ≡ true
HasKind _ = Unit {0}

abbrev pub AllHaveKind : Items → Type 0
AllHaveKind nil = Unit {0}
AllHaveKind (cons v vs) = HasKind v × AllHaveKind vs

abbrev pub ConflictsHaveKind : Option Json → Type 0
ConflictsHaveKind (some (array vs)) = AllHaveKind vs
ConflictsHaveKind _ = Unit {0}

abbrev pub IsMigrated : Json → Type 0
IsMigrated (object fs) = ConflictsHaveKind (get_field "conflicts" fs)
IsMigrated _ = Unit {0}

get_field-put_field :
    (k : String) (v : Json) (fs : Fields) → get_field k (put_field k v fs) ≡ some v
unfolding get_field put_field
get_field-put_field k v empty = ground (arith, ==_iff k k)
get_field-put_field k v (field j w fs) = ground (arith, ==_iff k k, get_field-put_field k v fs)

put_field_same :
    (k : String) (v : Json) (fs : Fields) → get_field k fs ≡ some v → put_field k v fs ≡ fs
unfolding get_field put_field
put_field_same k v empty h = ground arith
put_field_same k v (field j w fs) h = ground (arith, ==_iff j k, put_field_same k v fs)

migrate_conflict_same : (v : Json) → HasKind v → migrate_conflict v ≡ v
unfolding migrate_conflict
migrate_conflict_same (object fs) h = rw h
migrate_conflict_same null h = refl
migrate_conflict_same (bool b) h = refl
migrate_conflict_same (number n) h = refl
migrate_conflict_same (string s) h = refl
migrate_conflict_same (array vs) h = refl

migrate_conflicts_same : (vs : Items) → AllHaveKind vs → migrate_conflicts vs ≡ vs
unfolding migrate_conflicts
migrate_conflicts_same nil h = refl
migrate_conflicts_same (cons v vs) h =
    rw (migrate_conflict_same v h.0, migrate_conflicts_same vs h.1)

migrate_field_same :
    (found : Option Json) (fs : Fields)
    → get_field "conflicts" fs ≡ found
    → ConflictsHaveKind found
    → migrate_field found fs ≡ fs
unfolding migrate_field
migrate_field_same (some (array vs)) fs e h =
    rw (migrate_conflicts_same vs h) (put_field_same "conflicts" (array vs) fs e)
migrate_field_same (some null) fs e h = refl
migrate_field_same (some (bool b)) fs e h = refl
migrate_field_same (some (number n)) fs e h = refl
migrate_field_same (some (string s)) fs e h = refl
migrate_field_same (some (object gs)) fs e h = refl
migrate_field_same none fs e h = refl

-- A state whose conflicts all name their payload kind is not changed by the migration.
pub migrate_same : (v : Json) → IsMigrated v → migrate_legacy_conflict_payload_kinds v ≡ v
unfolding migrate_legacy_conflict_payload_kinds
migrate_same (object fs) h = ap object (migrate_field_same (get_field "conflicts" fs) fs refl h)
migrate_same null h = refl
migrate_same (bool b) h = refl
migrate_same (number n) h = refl
migrate_same (string s) h = refl
migrate_same (array vs) h = refl

migrate_conflict-HasKind : (v : Json) → HasKind (migrate_conflict v)
unfolding migrate_conflict
migrate_conflict-HasKind (object fs) = elim (Bool-cases (is_some (get_field "payloadKind" fs))) [
  | inl there ↦ rw there there
  | inr missing ↦ rw missing (rw get_field-put_field)
]
migrate_conflict-HasKind null = tt
migrate_conflict-HasKind (bool b) = tt
migrate_conflict-HasKind (number n) = tt
migrate_conflict-HasKind (string s) = tt
migrate_conflict-HasKind (array vs) = tt

migrate_conflicts-AllHaveKind : (vs : Items) → AllHaveKind (migrate_conflicts vs)
unfolding migrate_conflicts
migrate_conflicts-AllHaveKind nil = tt
migrate_conflicts-AllHaveKind (cons v vs) =
    (migrate_conflict-HasKind v, migrate_conflicts-AllHaveKind vs)

migrate_field-kinds :
    (found : Option Json) (fs : Fields)
    → get_field "conflicts" fs ≡ found
    → ConflictsHaveKind (get_field "conflicts" (migrate_field found fs))
unfolding migrate_field
migrate_field-kinds (some (array vs)) fs e =
    rw get_field-put_field (migrate_conflicts-AllHaveKind vs)
migrate_field-kinds (some null) fs e = rw e tt
migrate_field-kinds (some (bool b)) fs e = rw e tt
migrate_field-kinds (some (number n)) fs e = rw e tt
migrate_field-kinds (some (string s)) fs e = rw e tt
migrate_field-kinds (some (object gs)) fs e = rw e tt
migrate_field-kinds none fs e = rw e tt

-- After the migration every conflict of the state that is an object names its payload kind.
pub migrate-IsMigrated : (v : Json) → IsMigrated (migrate_legacy_conflict_payload_kinds v)
unfolding migrate_legacy_conflict_payload_kinds
migrate-IsMigrated (object fs) = migrate_field-kinds (get_field "conflicts" fs) fs refl
migrate-IsMigrated null = tt
migrate-IsMigrated (bool b) = tt
migrate-IsMigrated (number n) = tt
migrate-IsMigrated (string s) = tt
migrate-IsMigrated (array vs) = tt

-- A second migration changes nothing.
pub migrate-migrate :
    (v : Json)
    → migrate_legacy_conflict_payload_kinds (migrate_legacy_conflict_payload_kinds v)
      ≡ migrate_legacy_conflict_payload_kinds v
migrate-migrate v = migrate_same (migrate_legacy_conflict_payload_kinds v) (migrate-IsMigrated v)
