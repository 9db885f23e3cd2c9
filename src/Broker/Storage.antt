-- ===== src/Broker/Storage.antt =====
-- inkbridge-broker/src/storage.rs: stored objects with generations, conditional commits, the trait
-- `BrokerStorage` and its implementation in memory.
pub mod Memory
pub mod Atomic
pub mod Versions
pub mod Batch
use inkbridge.Prelude.{ℕ, ◌≡◌, Option, some, String, List, [], ◌∷◌, ◌++◌}
use inkbridge.Prelude.Fallible.{Result, ok}
use inkbridge.Broker.Model.{Bytes}

pub record StoredObject : Type 0 where
  pub bytes : Bytes
  pub generation : ℕ
  pub metadata : List (String × String)

pub data GenerationPrecondition : Type 0 where
  does_not_exist : GenerationPrecondition
  matches : ℕ → GenerationPrecondition

pub record ConditionalWrite : Type 0 where
  pub path : String
  pub bytes : Bytes
  pub metadata : List (String × String)
  pub precondition : GenerationPrecondition

pub data CommitError : Type 0 where
  precondition_failed :
      (path : String) (expected : GenerationPrecondition) (actual : Option ℕ) → CommitError
  other : String → CommitError

-- The trait. A method with `&mut self` returns the new storage; a refused commit changes nothing,
-- which is the documented atomicity.
pub record BrokerStorage (S : Type 0) : Type 0 where
  pub read : S → String → Result String (Option StoredObject)
  pub read_generation : S → String → ℕ → Result String (Option StoredObject)
  pub commit : S → List ConditionalWrite → Result CommitError (List StoredObject × S)

-- The documented contract of `commit`, at the last write of a batch: its generation precondition
-- was checked, and its bytes are what is read at its path afterwards.
pub record CommitLaws {S : Type 0} (st : BrokerStorage S) : Type 0 where
  pub last_checked :
      (s s' : S) (ws : List ConditionalWrite) (w : ConditionalWrite) (objs : List StoredObject)
      (g : ℕ)
      → st.commit s (ws ++ w ∷ []) ≡ ok (objs, s')
      → w.precondition ≡ matches g
      → (o : StoredObject) × (st.read s w.path ≡ ok (some o)) × (o.generation ≡ g)
  pub last_applied :
      (s s' : S) (ws : List ConditionalWrite) (w : ConditionalWrite) (objs : List StoredObject)
      → st.commit s (ws ++ w ∷ []) ≡ ok (objs, s')
      → (o : StoredObject) × (st.read s' w.path ≡ ok (some o)) × (o.bytes ≡ w.bytes)
