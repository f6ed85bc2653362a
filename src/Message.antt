-- ===== src/Message.antt =====
-- CEC messages (linux-cec/src/message.rs).
pub mod Opcode
pub mod Addressing
pub mod Data
pub mod Variants
pub mod Parts
pub mod Validity
pub mod Lawful
pub mod Lengths
pub mod Expects
pub mod Laws
