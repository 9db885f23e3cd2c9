-- ===== src/DriveGateway.antt =====
-- The crate inkbridge-drive-gateway: what a folder of Google Drive and the broker's storage exchange is
-- planned against a checkpoint.
pub mod Model
pub mod Equality
pub mod Checkpoint
pub mod Events
pub mod Input
pub mod Binding
pub mod Bound
pub mod Output
pub mod Delivered
pub mod Once
pub mod Uploaded
pub mod Loops
pub mod Pending
pub mod Valid
pub mod Echo
pub mod Accepted
pub mod Evidence
pub mod Reserved
pub mod Committed
