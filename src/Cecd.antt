-- ===== src/Cecd.antt =====
-- The daemon (cecd/src).
pub mod Edid
pub mod Task
