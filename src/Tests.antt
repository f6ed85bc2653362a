-- ===== src/Tests.antt =====
-- Runs of the code at concrete inputs.
pub mod Daemon
pub mod Devices
pub mod Messages
pub mod Operands
