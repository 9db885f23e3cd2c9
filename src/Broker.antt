-- ===== src/Broker.antt =====
-- The crate inkbridge-broker: canonical documents, their storage, and the processing of events.
pub mod Model
pub mod Json
pub mod Storage
pub mod Errors
pub mod External
pub mod Paths
pub mod Output
pub mod Apply
pub mod Validate
pub mod Codec
pub mod Process
pub mod Register
pub mod Conflict
