-- ===== src/Tests.antt =====
-- The theorems at concrete inputs.
pub mod Fixtures
pub mod Process
mod Conflict
mod Gateway
pub mod Apply
pub mod Register
pub mod Validate
pub mod Storage
pub mod Json
pub mod Geometry
pub mod Wire
pub mod Eink
pub mod Cache
