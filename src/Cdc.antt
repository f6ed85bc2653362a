-- ===== src/Cdc.antt =====
-- Capability Discovery and Control, the messages within a CEC message (linux-cec/src/cdc.rs).
pub mod HecField
pub mod State
pub mod Hpd
pub mod Message
