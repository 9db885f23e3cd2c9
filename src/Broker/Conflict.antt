-- ===== src/Broker/Conflict.antt =====
-- The resolution of preserved conflicts: inkbridge-broker/src/conflict.rs.
pub mod Types
pub mod Classify
pub mod Proposed
pub mod Context
pub mod Settle
pub mod Resolve
pub mod Loading
pub mod Inversion
pub mod Settling
pub mod Result
pub mod Outcome
pub mod Next
pub mod Once
pub mod Groups
pub mod Selected
pub mod Merge
pub mod Announced
