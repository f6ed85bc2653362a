-- ===== src/Operand/Enums.antt =====
-- The enums of one byte among the operands (linux-cec/src/operand.rs).
pub mod Audio
pub mod Broadcast
pub mod Date
pub mod Deck
pub mod Recording
pub mod Device
pub mod Menu
