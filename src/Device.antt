-- ===== src/Device.antt =====
-- The device layer (linux-cec/src/device.rs).
pub mod Envelope
pub mod Adapter
