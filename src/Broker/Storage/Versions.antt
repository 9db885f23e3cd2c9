-- ===== src/Broker/Storage/Versions.antt =====
-- The history that `MemoryStorage` of inkbridge-broker/src/storage.rs keeps beside the current objects.
use inkbridge.Prelude.{
  ℕ, ◌+◌, ◌%◌, ◌^◌, ◌≤◌, ◌<◌, ◌≡◌, refl, ap, subst, ◌∙◌, some, String, List, [], ◌∷◌, length, arith,
  ==_iff, string_key, pair_key, nat_key,
}
use inkbridge.Prelude.Fallible.{ok}
use inkbridge.Prelude.Map.{lookup, lookup-insert}
use inkbridge.Broker.Storage.{StoredObject, ConditionalWrite}
use inkbridge.Broker.Storage.Memory.{MemoryStorage, store, read_generation, apply_writes, commit}
use inkbridge.Broker.Storage.Atomic.{commit-ok}

module _ (m : MemoryStorage) (w : ConditionalWrite) (room : m.next_generation + 1 < 2 ^ 64) where
  store_keeps_versions :
      (path : String) (g : ℕ)
      → g ≤ m.next_generation
      → lookup (path, g) (store m w.path w.bytes w.metadata).0.versions
        ≡ lookup (path, g) m.versions
  unfolding store
  store_keeps_versions path g h =
      let new_generation = (m.next_generation + 1) % 2 ^ 64 in
      let object : StoredObject = record {
        bytes = w.bytes;
        generation = new_generation;
        metadata = w.metadata;
      } in
      ground (arith, lookup-insert (w.path, new_generation) (path, g) object m.versions)

next_generation-store :
    (m : MemoryStorage) (w : ConditionalWrite)
    → m.next_generation + 1 < 2 ^ 64
    → (store m w.path w.bytes w.metadata).0.next_generation ≡ m.next_generation + 1
unfolding store
next_generation-store m w h = omega arith

apply_writes_keep :
    (m : MemoryStorage) (ws : List ConditionalWrite) (path : String) (g : ℕ)
    → m.next_generation + length ws < 2 ^ 64
    → g ≤ m.next_generation
    → lookup (path, g) (apply_writes m ws).1.versions ≡ lookup (path, g) m.versions
unfolding apply_writes
apply_writes_keep m [] path g b h = refl
apply_writes_keep m (w ∷ ws) path g b h =
    let m' = (store m w.path w.bytes w.metadata).0 in
    let n : m'.next_generation ≡ m.next_generation + 1 = next_generation-store m w (omega arith) in
    apply_writes_keep m' ws path g (omega arith) (omega arith)
    ∙ store_keeps_versions m w (omega arith) path g h

-- A commit during which the generation counter does not wrap leaves every version that existed
-- before it as it was: an object read at a generation already given out is the same afterwards.
pub commit_keeps_versions :
    (m m' : MemoryStorage) (ws : List ConditionalWrite) (objs : List StoredObject) (path : String)
    (g : ℕ)
    → commit m ws ≡ ok (objs, m')
    → m.next_generation + length ws < 2 ^ 64
    → g ≤ m.next_generation
    → read_generation m' path g ≡ read_generation m path g
unfolding read_generation
commit_keeps_versions m m' ws objs path g h b le =
    cc (apply_writes_keep m ws path g b le, (commit-ok m m' ws objs h).1)

-- Every current object can be read at its own generation, and no generation is past the counter.
pub record IsConsistent (m : MemoryStorage) : Type 0 where
  pub at :
      (path : String) (o : StoredObject)
      → lookup path m.objects ≡ some o
      → (o.generation ≤ m.next_generation) × (lookup (path, o.generation) m.versions ≡ some o)

store-IsConsistent :
    (m : MemoryStorage) (w : ConditionalWrite)
    → m.next_generation + 1 < 2 ^ 64
    → IsConsistent m
    → IsConsistent (store m w.path w.bytes w.metadata).0
unfolding store
store-IsConsistent m w b v = record {
  at = λ path o h.
      let new_generation = (m.next_generation + 1) % 2 ^ 64 in
      let object : StoredObject = record {
        bytes = w.bytes;
        generation = new_generation;
        metadata = w.metadata;
      } in
      ground (
        arith,
        lookup-insert w.path path object m.objects,
        lookup-insert (w.path, new_generation) (path, o.generation) object m.versions,
        v.at path o,
        ==_iff w.path path,
      );
}

apply_writes-IsConsistent :
    (m : MemoryStorage) (ws : List ConditionalWrite)
    → m.next_generation + length ws < 2 ^ 64
    → IsConsistent m
    → IsConsistent (apply_writes m ws).1
unfolding apply_writes
apply_writes-IsConsistent m [] b v = v
apply_writes-IsConsistent m (w ∷ ws) b v =
    let m' = (store m w.path w.bytes w.metadata).0 in
    let n : m'.next_generation ≡ m.next_generation + 1 = next_generation-store m w (omega arith) in
    apply_writes-IsConsistent m' ws (omega arith) (store-IsConsistent m w (omega arith) v)

-- A commit during which the generation counter does not wrap keeps the current objects and the
-- versions consistent: each object is the version of its generation, and none is past the counter.
pub commit-IsConsistent :
    (m m' : MemoryStorage) (ws : List ConditionalWrite) (objs : List StoredObject)
    → commit m ws ≡ ok (objs, m')
    → m.next_generation + length ws < 2 ^ 64
    → IsConsistent m
    → IsConsistent m'
commit-IsConsistent m m' ws objs h b v =
    subst IsConsistent
      (ap (λ (r : List StoredObject × MemoryStorage). r.1) (commit-ok m m' ws objs h).1)
      (apply_writes-IsConsistent m ws b v)
