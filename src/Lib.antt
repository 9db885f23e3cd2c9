-- ===== src/Lib.antt =====
-- InkBridge: ink that is written on a BOOX or a Supernote is kept as one canonical document, and a
-- reader for e-ink panels decides how its screen is refreshed. This library models the Rust code
-- of five parts of the repository.
--
-- inkbridge-broker keeps the canonical state of a document and processes one storage event at a
-- time: it validates the event, loads the state, sets aside duplicates, its own output, stale
-- revisions and conflicts, and otherwise applies the device's input to the strokes and commits the
-- new state with the view for the other device. A commit is a batch of writes, each with a
-- precondition on a generation, that is carried out whole or not at all.
--   Broker/Model       inkbridge-broker/src/model.rs, and the types it holds of
--                      inkbridge-convert/src/model.rs and inkbridge-convert/src/baseline.rs
--   Broker/Storage     inkbridge-broker/src/storage.rs: the trait BrokerStorage as a record of
--                      operations, the contract of a commit (CommitLaws), and MemoryStorage
--                      (Storage/Memory), with its atomicity (Storage/Atomic, Storage/Batch) and its versions
--                      (Storage/Versions)
--   Broker/Paths, Broker/Output, Broker/Json, Broker/Codec, Broker/Errors
--                      the paths, metadata, state codec, migration and errors of
--                      inkbridge-broker/src/broker.rs
--   Broker/Apply       apply_manifest, apply_supernote_export, validate_supernote_export
--   Broker/Validate    validate_boox_manifest: its checks on one operation (Validate/Snapshots), what it
--                      restores (Validate/Baselines), and the manifest it lets through
--                      (Validate/Checked)
--   Broker/Process     Broker::process, with mark_event_only (Process/Mark), preserve_conflict
--                      (Process/Preserve) and the acceptance (Process/Accept)
--   Broker/Register    register_document and validate_original_pdf
--   Broker/Conflict    inkbridge-broker/src/conflict.rs: the classification of a preserved input's
--                      operations (Conflict/Classify), the manifest it proposes (Conflict/Proposed),
--                      the listing and the inspection (Conflict/Context), the state that a
--                      resolution leads to (Conflict/Settle), and resolve_conflict (Conflict/Resolve)
--   Broker/External    what broker.rs calls of other code, as a record that every definition which
--                      uses it takes: sha2, serde_json, lopdf, the converter, the PDF view writer
-- A Result is Prelude/Fallible's Result; a method with `&mut self` takes the storage and returns the
-- new one with its result. An error's text is a constructor of Reason without the values that the
-- text prints, and a path that Rust formats is computed. A BTreeMap or HashMap is a list of pairs
-- in key order (Prelude/Map, Prelude/Sorted), a BTreeSet a list (Prelude/Set), and an f64 its 64 bits. Every
-- u64 or u32 sum keeps its wrap-around. Every loop there is over a list.
--
-- inkbridge-drive-gateway plans what a folder of Google Drive and the broker's storage exchange, and
-- keeps in a checkpoint what has been exchanged.
--   DriveGateway/Model, DriveGateway/Checkpoint
--                      inkbridge-drive-gateway/src/model.rs: the types, and the validation of a
--                      checkpoint
--   DriveGateway/Input, DriveGateway/Binding, DriveGateway/Bound, DriveGateway/Output,
--   DriveGateway/Events
--                      inkbridge-drive-gateway/src/planner.rs: a change of a file, an original or an
--                      artifact that is bound, an output that is delivered, and their identifiers. An
--                      operation with `&mut checkpoint` returns the checkpoint beside its result, since
--                      the code changes it also where its last check refuses.
-- DriveGateway/Valid, Loops, Pending, Reserved and Evidence take the validation apart; Delivered and
-- Uploaded say what a success was made of; Committed, Accepted, Once and Echo hold the theorems. The digest of sha2 is a parameter.
--
-- device-eink is the contract between the reader and the panel.
--   DeviceEink/Geometry, DeviceEink/Command, DeviceEink/Capabilities
--                      device-eink/src/geometry.rs, command.rs and capabilities.rs
--   DeviceEink/Wire    device-eink/src/wire.rs: capability messages and command streams as lists of
--                      bytes, with their round trips (Wire/CapsRoundTrip, Wire/CommandRoundTrip)
--                      and what the decoders accept (Wire/Framing)
--
-- reader-core/src/policy/eink_policy.rs decides the refresh commands of an interaction.
--   EinkPolicy         the policy's state and one function for each handler; `step` and `run` are
--                      one interaction and a session. EinkPolicy/Invariant, Cadence, Emitted and
--                      Fling prove its behaviour.
--
-- reader-core/src/render/cache.rs and reader-core/src/budget/mod.rs hold the caches of rendered pages.
--   Cache              the byte-bounded LRU with its operations, and the trimming of the caches. The
--                      eviction loop of `insert` runs on fuel, the number of entries, each turn
--                      removing one; Cache/Inserted shows that it then ends with room for the new
--                      entry. Cache/Accounts and Cache/Bounded account for the bytes, Cache/Evicted
--                      and Cache/Order say what an insertion does.
--
-- Prelude holds what the parts share: tests on the native numbers, keys of maps, lists, integers,
-- text, results. Tests applies the theorems to concrete inputs.
--
-- Not modelled: boox_snapshot.rs and pdf_view.rs of inkbridge-broker, write_baselines of broker.rs, the converter's geometry and PDF
-- code, the network runtimes, the folder transport, the document engines, and the Kotlin apps.
pub mod Prelude
pub mod DeviceEink
pub mod EinkPolicy
pub mod Broker
pub mod DriveGateway
pub mod Cache
pub mod Tests
