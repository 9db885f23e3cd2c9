-- ===== src/Broker/Storage/Batch.antt =====
-- What a commit of `MemoryStorage` of inkbridge-broker/src/storage.rs promises, read off the objects
-- before and after it.
use inkbridge.Prelude.{
  ◌≡◌, refl, ap, true, ◌∙◌, ◌⊎◌, inl, inr, Option, none, some, String, List, [], ◌∷◌, map, eqb_iff,
  if◌then◌else◌, ◌==◌, Option-cases, Bool-cases, string_key, All,
}
use inkbridge.Prelude.Fallible.{Result, ok, err}
use inkbridge.Prelude.Map.{lookup}
use inkbridge.Broker.Model.{Bytes}
use inkbridge.Broker.Storage.{
  StoredObject, GenerationPrecondition, does_not_exist, matches, ConditionalWrite, CommitError,
}
use inkbridge.Broker.Storage.Memory.{
  MemoryStorage, store, read, generation_of, holds, check_preconditions, apply_writes, commit,
}
use inkbridge.Broker.Storage.Atomic.{Admits, commit_of_Admits, commit-ok, lookup-store}

-- The precondition of a write to a path, on the object that is read there.
abbrev pub MeetsAt : MemoryStorage → GenerationPrecondition → String → Type 0
MeetsAt m does_not_exist path = read m path ≡ ok none
MeetsAt m (matches g) path = (o : StoredObject) × (read m path ≡ ok (some o)) × (o.generation ≡ g)

abbrev pub Meets : MemoryStorage → ConditionalWrite → Type 0
Meets m w = MeetsAt m w.precondition w.path

abbrev pub content_of : StoredObject → Bytes × List (String × String)
content_of o = (o.bytes, o.metadata)

abbrev pub content_written : ConditionalWrite → Bytes × List (String × String)
content_written w = (w.bytes, w.metadata)

-- The last write to a path.
abbrev pub last_write : String → List ConditionalWrite → Option ConditionalWrite
last_write path [] = none
last_write path (w ∷ ws) = elim (last_write path ws) [
  | some later ↦ some later
  | none ↦ if w.path == path then some w else none
]

-- What a batch leaves at a path, by the last write to it.
abbrev pub Leaves : (m m' : MemoryStorage) → String → Option ConditionalWrite → Type 0
Leaves m m' path none = read m' path ≡ read m path
Leaves m m' path (some w) =
    (o : StoredObject) × (read m' path ≡ ok (some o))
    × (o.bytes ≡ w.bytes)
    × (o.metadata ≡ w.metadata)

Admits-MeetsAt :
    (m : MemoryStorage) (p : GenerationPrecondition) (path : String)
    → holds p (generation_of (lookup path m.objects)) ≡ true
    → MeetsAt m p path
unfolding read
Admits-MeetsAt m does_not_exist path h = elim (Option-cases (lookup path m.objects)) [
  | inl absent ↦ ap ok absent
  | inr (o, found) ↦ cc (rw found at h)
]
Admits-MeetsAt m (matches g) path h = elim (Option-cases (lookup path m.objects)) [
  | inl absent ↦ cc (rw absent at h)
  | inr (o, found) ↦ (o, ap ok found, (eqb_iff o.generation g).0 (rw found at h))
]

MeetsAt-Admits :
    (m : MemoryStorage) (p : GenerationPrecondition) (path : String)
    → MeetsAt m p path
    → holds p (generation_of (lookup path m.objects)) ≡ true
unfolding read
MeetsAt-Admits m does_not_exist path h =
    let absent : lookup path m.objects ≡ none = cc h in rw absent refl
MeetsAt-Admits m (matches g) path (o, found, same) =
    let there : lookup path m.objects ≡ some o = cc found in
    rw there ((eqb_iff o.generation g).1 same)

All-Meets : (m : MemoryStorage) (ws : List ConditionalWrite) → All (Admits m) ws → All (Meets m) ws
All-Meets m [] h = tt
All-Meets m (w ∷ ws) h = (Admits-MeetsAt m w.precondition w.path h.0, All-Meets m ws h.1)

All-Admits : (m : MemoryStorage) (ws : List ConditionalWrite) → All (Meets m) ws → All (Admits m) ws
All-Admits m [] h = tt
All-Admits m (w ∷ ws) h = (MeetsAt-Admits m w.precondition w.path h.0, All-Admits m ws h.1)

store-Leaves :
    (m : MemoryStorage) (w : ConditionalWrite) (path : String)
    → Leaves m (store m w.path w.bytes w.metadata).0 path (if w.path == path then some w else none)
unfolding read store
store-Leaves m w path = elim (Bool-cases (w.path == path)) [
  | inl here ↦ rw here (
    (store m w.path w.bytes w.metadata).1,
    ap ok (lookup-store m w path ∙ rw here refl),
    refl,
    refl,
  )
  | inr elsewhere ↦ rw elsewhere (ap ok (lookup-store m w path ∙ rw elsewhere refl))
]

Leaves-later :
    (m n m' : MemoryStorage) (path : String) (later first : Option ConditionalWrite)
    → Leaves m n path first
    → Leaves n m' path later
    → Leaves m m' path (elim later [ some w ↦ some w | none ↦ first ])
Leaves-later m n m' path none none before after = after ∙ before
Leaves-later m n m' path none (some w) (o, there, bytes, metadata) after =
    (o, after ∙ there, bytes, metadata)
Leaves-later m n m' path (some w) first before after = after

apply_writes-Leaves :
    (m : MemoryStorage) (ws : List ConditionalWrite) (path : String)
    → Leaves m (apply_writes m ws).1 path (last_write path ws)
unfolding apply_writes
apply_writes-Leaves m [] path = refl
apply_writes-Leaves m (w ∷ ws) path =
    let n = (store m w.path w.bytes w.metadata).0 in
    Leaves-later m n (apply_writes n ws).1 path (last_write path ws)
      (if w.path == path then some w else none) (store-Leaves m w path)
      (apply_writes-Leaves n ws path)

apply_writes-objects :
    (m : MemoryStorage) (ws : List ConditionalWrite)
    → map content_of (apply_writes m ws).0 ≡ map content_written ws
unfolding apply_writes store
apply_writes-objects m [] = refl
apply_writes-objects m (w ∷ ws) =
    ap (λ r. content_written w ∷ r) (apply_writes-objects (store m w.path w.bytes w.metadata).0 ws)

-- A batch that was carried out, at a path.
pub record Done (m : MemoryStorage) (ws : List ConditionalWrite) (path : String) : Type 0 where
  pub after : MemoryStorage
  pub objects : List StoredObject
  pub committed : commit m ws ≡ ok (objects, after)
  pub met : All (Meets m) ws
  pub left : Leaves m after path (last_write path ws)
  pub contents : map content_of objects ≡ map content_written ws

-- A batch that was refused: some precondition is not met.
pub record Refused (m : MemoryStorage) (ws : List ConditionalWrite) : Type 0 where
  pub error : CommitError
  pub refused : commit m ws ≡ err error
  pub unmet : ¬ All (Meets m) ws

commit-Done :
    (m : MemoryStorage) (ws : List ConditionalWrite) (path : String)
    → check_preconditions m ws ≡ ok tt
    → Done m ws path
unfolding commit
commit-Done m ws path h =
    let whole : commit m ws ≡ ok (apply_writes m ws) = rw (commit, h) refl in
    record {
      after = (apply_writes m ws).1;
      objects = (apply_writes m ws).0;
      committed = whole;
      met = All-Meets m ws (commit-ok m (apply_writes m ws).1 ws (apply_writes m ws).0 whole).0;
      left = apply_writes-Leaves m ws path;
      contents = apply_writes-objects m ws;
    }

commit-Refused :
    (m : MemoryStorage) (ws : List ConditionalWrite) (e : CommitError)
    → check_preconditions m ws ≡ err e
    → Refused m ws
unfolding commit
commit-Refused m ws e h =
    let refused : commit m ws ≡ err e = rw (commit, h) refl in
    record {
      error = e;
      refused = refused;
      unmet = λ met. cc (refused, commit_of_Admits m ws (All-Admits m ws met));
    }

Result-cases : (r : Result CommitError (Unit {0})) → (r ≡ ok tt) ⊎ ((e : CommitError) × (r ≡ err e))
Result-cases (ok u) = inl refl
Result-cases (err e) = inr (e, refl)

-- A commit is carried out whole or refused. It is carried out if every write meets its precondition in
-- the storage before the batch: nothing is read at its path, or an object of the generation that it
-- names. Then a path holds the bytes and the metadata of the last write to it, and what it held before if
-- no write is to it, and the returned objects have the contents of the writes, in order. Otherwise the
-- commit is an error.
pub commit_all_or_nothing :
    (m : MemoryStorage) (ws : List ConditionalWrite) (path : String) → Done m ws path ⊎ Refused m ws
commit_all_or_nothing m ws path = elim (Result-cases (check_preconditions m ws)) [
  | inl passed ↦ inl (commit-Done m ws path passed)
  | inr (e, failed) ↦ inr (commit-Refused m ws e failed)
]
