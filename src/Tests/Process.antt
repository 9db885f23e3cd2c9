-- ===== src/Tests/Process.antt =====
-- `Broker::process` on the fixture's upload.
use inkbridge.Prelude.{◌≡◌, ◌≢◌, refl, arith, some, [], ◌∷◌}
use inkbridge.Prelude.Fallible.{ok, err}
use inkbridge.Broker.Model.{StorageEvent, ProcessOutcome, applied, duplicate, boox, RevisionPair}
use inkbridge.Broker.Storage.{StoredObject}
use inkbridge.Prelude.Text.{is_blank, concat, decimal, strip_suffix}
use inkbridge.Broker.Storage.Memory.{
  MemoryStorage, memory_storage, new, read, read_generation, commit,
}
use inkbridge.Broker.Storage.Atomic.{memory_storage-CommitLaws}
use inkbridge.Broker.Paths.{state_path, boox_view_path}
use inkbridge.Broker.Process.{process, process_unseen, process_source, new_revision}
use inkbridge.Broker.Process.Accept.{accept}
use inkbridge.Broker.Process.Outcome.{Success, process-Success}
use inkbridge.Broker.Process.Once.{process_twice}
use inkbridge.Broker.Process.Stale.{behind, process-behind}
use inkbridge.Tests.Fixtures.{outside, outside-JsonLaws, stored, upload, uploaded, state_discrete}

unfoldable result : ProcessOutcome × MemoryStorage
unfolding concat decimal strip_suffix is_blank process process_unseen process_source new_revision
    accept boox_view_path state_path read read_generation commit state_discrete stored uploaded
result = elim (process memory_storage outside stored upload) [
  | ok r ↦ r
  | err e ↦ (duplicate "" "", new)
]

abbrev both_at_one : RevisionPair
both_at_one = record { boox_revision = 1; supernote_revision = 1 }

upload_applied :
    process memory_storage outside stored upload
    ≡ ok (applied "doc" "e2" "BOOX_Folder/doc/notes.pdf" 4 both_at_one, result.1)
unfolding result concat decimal strip_suffix is_blank process process_unseen process_source
    new_revision accept boox_view_path state_path read read_generation commit state_discrete stored
    uploaded
upload_applied = refl

process_twice_example :
    process memory_storage outside result.1 upload ≡ ok (duplicate "doc" "e2", result.1)
process_twice_example =
    process_twice memory_storage outside memory_storage-CommitLaws outside-JsonLaws stored result.1
      upload (applied "doc" "e2" "BOOX_Folder/doc/notes.pdf" 4 both_at_one) upload_applied

process-Success_example :
    Success memory_storage outside stored result.1 upload
      (applied "doc" "e2" "BOOX_Folder/doc/notes.pdf" 4 both_at_one)
process-Success_example =
    process-Success memory_storage outside stored result.1 upload
      (applied "doc" "e2" "BOOX_Folder/doc/notes.pdf" 4 both_at_one) upload_applied

-- An event that the stored state has seen.
abbrev seen_event : StorageEvent
seen_event = record upload { event_id = "e1"; source = boox }

abbrev old_state : StoredObject
old_state = record { bytes = 0 ∷ 10 ∷ []; generation = 2; metadata = [] }

unfoldable new_state : StoredObject
unfolding result read
new_state = elim (memory_storage.read result.1 "Canonical/doc/state.json") [
  | ok (some o) ↦ o
  | _ ↦ old_state
]

read_old : memory_storage.read stored (state_path "doc") ≡ ok (some old_state)
unfolding result new_state concat decimal strip_suffix is_blank process process_unseen
    process_source new_revision accept boox_view_path state_path read read_generation commit
    state_discrete stored uploaded
read_old = refl

read_new : memory_storage.read result.1 (state_path "doc") ≡ ok (some new_state)
unfolding result new_state concat decimal strip_suffix is_blank process process_unseen
    process_source new_revision accept boox_view_path state_path read read_generation commit
    state_discrete stored uploaded
read_new = refl

seen_again :
    process (behind memory_storage) outside (stored, result.1) seen_event
    ≡ ok (duplicate "doc" "e1", (stored, result.1))
unfolding result new_state concat decimal strip_suffix is_blank process process_unseen
    process_source new_revision accept boox_view_path state_path read read_generation commit
    state_discrete stored uploaded
seen_again = refl

generations_differ : old_state.generation ≢ new_state.generation
unfolding result new_state concat decimal strip_suffix is_blank process process_unseen
    process_source new_revision accept boox_view_path state_path read read_generation commit
    state_discrete stored uploaded
generations_differ = omega arith

process-behind_example :
    (duplicate "doc" "e1" ≡ duplicate "doc" "e1")
    × (◌≡◌ {A = MemoryStorage × MemoryStorage} (stored, result.1) (stored, result.1))
process-behind_example =
    process-behind memory_storage outside memory_storage-CommitLaws stored result.1
      (stored, result.1) seen_event (duplicate "doc" "e1") old_state new_state read_old read_new
      generations_differ seen_again
