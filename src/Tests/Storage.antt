-- ===== src/Tests/Storage.antt =====
-- Two conditional commits to a storage in memory.
use inkbridge.Prelude.{◌⊎◌, ◌≡◌, refl, [], ◌∷◌, List, arith, ==_iff, string_key}
use inkbridge.Prelude.Fallible.{ok}
use inkbridge.Prelude.Map
use inkbridge.Broker.Storage.{ConditionalWrite, StoredObject, matches, does_not_exist}
use inkbridge.Broker.Storage.Memory.{MemoryStorage, commit, read_generation}
use inkbridge.Broker.Storage.Batch.{Done, Refused, commit_all_or_nothing}
use inkbridge.Broker.Storage.Versions.{commit_keeps_versions, commit-IsConsistent, IsConsistent}

abbrev one_object : MemoryStorage
one_object = record {
  objects = ("a", record { bytes = 1 ∷ []; generation = 1; metadata = [] }) ∷ [];
  versions = (("a", 1), record { bytes = 1 ∷ []; generation = 1; metadata = [] }) ∷ [];
  next_generation = 1;
}

abbrev batch : List ConditionalWrite
batch =
    record { path = "b"; bytes = 2 ∷ []; metadata = []; precondition = does_not_exist }
    ∷ record { path = "a"; bytes = 3 ∷ []; metadata = []; precondition = matches 1 }
    ∷ []

abbrev written_b : StoredObject
written_b = record { bytes = 2 ∷ []; generation = 2; metadata = [] }

abbrev written_a : StoredObject
written_a = record { bytes = 3 ∷ []; generation = 3; metadata = [] }

abbrev two_objects : MemoryStorage
two_objects = record {
  objects = ("a", written_a) ∷ ("b", written_b) ∷ [];
  versions =
      (("a", 1), record { bytes = 1 ∷ []; generation = 1; metadata = [] })
      ∷ (("a", 3), written_a)
      ∷ (("b", 2), written_b)
      ∷ [];
  next_generation = 3;
}

committed : commit one_object batch ≡ ok (written_b ∷ written_a ∷ [], two_objects)
unfolding commit
committed = refl

commit_all_or_nothing_example : Done one_object batch "a" ⊎ Refused one_object batch
commit_all_or_nothing_example = commit_all_or_nothing one_object batch "a"

commit_keeps_versions_example : read_generation two_objects "a" 1 ≡ read_generation one_object "a" 1
commit_keeps_versions_example =
    commit_keeps_versions one_object two_objects batch (written_b ∷ written_a ∷ []) "a" 1 committed
      (omega arith) (omega arith)

one_object-IsConsistent : IsConsistent one_object
unfolding Map.lookup
one_object-IsConsistent = record { at = λ path o h. ground (arith, ==_iff "a" path) }

commit-IsConsistent_example : IsConsistent two_objects
commit-IsConsistent_example =
    commit-IsConsistent one_object two_objects batch (written_b ∷ written_a ∷ []) committed
      (omega arith) one_object-IsConsistent
