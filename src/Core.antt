-- ===== src/Core.antt =====
-- The shared vocabulary of the crate root, linux-cec/src/lib.rs.
pub mod Range
pub mod Error
pub mod Slice
pub mod PhysicalAddress
pub mod LogicalAddress
