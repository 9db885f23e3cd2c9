-- ===== src/Broker/Storage/Memory.antt =====
-- `MemoryStorage` of inkbridge-broker/src/storage.rs.
use inkbridge.Prelude.{
  ℕ, ◌+◌, ◌%◌, ◌^◌, Bool, Option, none, some, String, List, [], ◌∷◌, is_some, not, eqb,
  if◌then◌else◌, string_key, nat_key, pair_key,
}
use inkbridge.Prelude.Fallible.{Result, ok, err, ◌>>◌}
use inkbridge.Prelude.Map.{lookup, insert}
use inkbridge.Broker.Model.{Bytes}
use inkbridge.Broker.Storage.{
  StoredObject, GenerationPrecondition, does_not_exist, matches, ConditionalWrite, CommitError,
  precondition_failed, BrokerStorage,
}

pub record MemoryStorage : Type 0 where
  pub objects : List (String × StoredObject)
  pub versions : List ((String × ℕ) × StoredObject)
  pub next_generation : ℕ

abbrev pub new : MemoryStorage
new = record { objects = []; versions = []; next_generation = 0 }

-- Both `put_unchecked` and the second loop of `commit` store one object so; a u64 wraps.
unfoldable pub store :
    MemoryStorage → String → Bytes → List (String × String) → MemoryStorage × StoredObject
unfolding insert
store m path bytes metadata =
    let generation = (m.next_generation + 1) % 2 ^ 64 in
    let object : StoredObject = record {
      bytes = bytes;
      generation = generation;
      metadata = metadata;
    } in
    (
      record {
        objects = insert path object m.objects;
        versions = insert (path, generation) object m.versions;
        next_generation = generation;
      },
      object,
    )

unfoldable pub put_unchecked :
    MemoryStorage → String → Bytes → List (String × String) → MemoryStorage × StoredObject
unfolding store
put_unchecked m path bytes metadata = store m path bytes metadata

unfoldable pub read : MemoryStorage → String → Result String (Option StoredObject)
unfolding lookup
read m path = ok (lookup path m.objects)

unfoldable pub read_generation : MemoryStorage → String → ℕ → Result String (Option StoredObject)
unfolding lookup
read_generation m path generation = ok (lookup (path, generation) m.versions)

abbrev pub generation_of : Option StoredObject → Option ℕ
generation_of none = none
generation_of (some o) = some o.generation

abbrev pub holds : GenerationPrecondition → Option ℕ → Bool
holds does_not_exist actual = not (is_some actual)
holds (matches expected) actual = elim actual [ none ↦ Bool.false | some g ↦ eqb g expected ]

-- The first loop of `commit`: every precondition, against the objects before any write.
unfoldable pub check_preconditions :
    MemoryStorage → List ConditionalWrite → Result CommitError (Unit {0})
unfolding lookup
check_preconditions m [] = ok tt
check_preconditions m (w ∷ ws) =
    let actual = generation_of (lookup w.path m.objects) in
    if holds w.precondition actual
    then check_preconditions m ws
    else err (precondition_failed w.path w.precondition actual)

-- The second loop.
unfoldable pub apply_writes :
    MemoryStorage → List ConditionalWrite → List StoredObject × MemoryStorage
unfolding store
apply_writes m [] = ([], m)
apply_writes m (w ∷ ws) =
    let (m', object) = store m w.path w.bytes w.metadata in
    let (committed, m'') = apply_writes m' ws in (object ∷ committed, m'')

unfoldable pub commit :
    MemoryStorage → List ConditionalWrite → Result CommitError (List StoredObject × MemoryStorage)
unfolding check_preconditions apply_writes
commit m writes = do check_preconditions m writes; ok (apply_writes m writes)

abbrev pub memory_storage : BrokerStorage MemoryStorage
memory_storage = record { read = read; read_generation = read_generation; commit = commit }
