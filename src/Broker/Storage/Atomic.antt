-- ===== src/Broker/Storage/Atomic.antt =====
-- `MemoryStorage` meets the contract of `BrokerStorage`: commits are atomic, guarded by generations,
-- and keep every old version.
use inkbridge.Prelude.{
  ℕ, ◌≡◌, refl, ap, true, some, String, List, [], ◌∷◌, ◌++◌, arith, if◌then◌else◌, ◌==◌, ==_iff,
  Option-cases, string_key, pair_key, nat_key, All, Bool-cases, inl, inr,
}
use inkbridge.Prelude.Fallible.{ok}
use inkbridge.Prelude.Map.{lookup, lookup-insert}
use inkbridge.Broker.Storage.{StoredObject, matches, ConditionalWrite, CommitLaws}
use inkbridge.Broker.Storage.Memory.{
  MemoryStorage, store, read, generation_of, holds, check_preconditions, apply_writes, commit,
  memory_storage,
}

-- The precondition of a write, against the objects of a storage.
abbrev pub Admits : MemoryStorage → ConditionalWrite → Type 0
Admits m w = holds w.precondition (generation_of (lookup w.path m.objects)) ≡ true

check_sound :
    (m : MemoryStorage) (ws : List ConditionalWrite)
    → check_preconditions m ws ≡ ok tt
    → All (Admits m) ws
unfolding check_preconditions
check_sound m [] h = tt
check_sound m (w ∷ ws) h =
    elim (Bool-cases (holds w.precondition (generation_of (lookup w.path m.objects)))) [
      | inl e ↦ (e, check_sound m ws (ground arith))
      | inr e ↦ absurd (ground arith)
    ]

check_complete :
    (m : MemoryStorage) (ws : List ConditionalWrite)
    → All (Admits m) ws
    → check_preconditions m ws ≡ ok tt
unfolding check_preconditions
check_complete m [] h = refl
check_complete m (w ∷ ws) h = rw (h.0) (check_complete m ws h.1)

-- A commit whose preconditions all hold before it is carried out whole, every write in order.
pub commit_of_Admits :
    (m : MemoryStorage) (ws : List ConditionalWrite)
    → All (Admits m) ws
    → commit m ws ≡ ok (apply_writes m ws)
unfolding commit
commit_of_Admits m ws h = rw (check_complete m ws h)

-- A commit succeeds only if every precondition held before its first write, and then its result is
-- that of all its writes.
pub commit-ok :
    (m m' : MemoryStorage) (ws : List ConditionalWrite) (objs : List StoredObject)
    → commit m ws ≡ ok (objs, m')
    → All (Admits m) ws × (apply_writes m ws ≡ (objs, m'))
unfolding commit
commit-ok m m' ws objs h = (check_sound m ws (ground arith), ground arith)

All-last :
    (m : MemoryStorage) (ws : List ConditionalWrite) (w : ConditionalWrite)
    → All (Admits m) (ws ++ w ∷ [])
    → Admits m w
All-last m [] w h = h.0
All-last m (v ∷ ws) w h = All-last m ws w h.1

apply_writes-last :
    (m : MemoryStorage) (ws : List ConditionalWrite) (w : ConditionalWrite)
    → (apply_writes m (ws ++ w ∷ [])).1 ≡ (store (apply_writes m ws).1 w.path w.bytes w.metadata).0
unfolding apply_writes
apply_writes-last m [] w = refl
apply_writes-last m (v ∷ ws) w = apply_writes-last (store m v.path v.bytes v.metadata).0 ws w

pub lookup-store :
    (m : MemoryStorage) (w : ConditionalWrite) (path : String)
    → lookup path (store m w.path w.bytes w.metadata).0.objects ≡ (
        if w.path == path
        then some (store m w.path w.bytes w.metadata).1
        else lookup path m.objects)
unfolding store
lookup-store m w path = lookup-insert w.path path _ m.objects

Admits-matches :
    (m : MemoryStorage) (w : ConditionalWrite) (g : ℕ)
    → Admits m w
    → w.precondition ≡ matches g
    → (o : StoredObject) × (read m w.path ≡ ok (some o)) × (o.generation ≡ g)
unfolding read
Admits-matches m w g h e = elim (Option-cases (lookup w.path m.objects)) [
  | inl absent ↦ absurd (ground arith)
  | inr (o, found) ↦ (o, ap ok found, ground arith)
]

lookup-last :
    (m : MemoryStorage) (ws : List ConditionalWrite) (w : ConditionalWrite)
    → lookup w.path (apply_writes m (ws ++ w ∷ [])).1.objects
      ≡ some (store (apply_writes m ws).1 w.path w.bytes w.metadata).1
lookup-last m ws w =
    rw apply_writes-last
      (ground (arith, lookup-store (apply_writes m ws).1 w w.path, ==_iff w.path w.path))

last_write_read :
    (s s' : MemoryStorage) (ws : List ConditionalWrite) (w : ConditionalWrite)
    (objs : List StoredObject)
    → commit s (ws ++ w ∷ []) ≡ ok (objs, s')
    → (o : StoredObject) × (read s' w.path ≡ ok (some o)) × (o.bytes ≡ w.bytes)
unfolding read store
last_write_read s s' ws w objs h = (
  (store (apply_writes s ws).1 w.path w.bytes w.metadata).1,
  cc (lookup-last s ws w, (commit-ok s s' (ws ++ w ∷ []) objs h).1),
  refl,
)

-- The storage in memory meets the contract that the broker relies on.
pub memory_storage-CommitLaws : CommitLaws memory_storage
memory_storage-CommitLaws = record {
  last_checked = λ s s' ws w objs g h e.
      Admits-matches s w g (All-last s ws w (commit-ok s s' (ws ++ w ∷ []) objs h).0) e;
  last_applied = λ s s' ws w objs h. last_write_read s s' ws w objs h;
}
