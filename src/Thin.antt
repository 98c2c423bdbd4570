-- ===== src/Thin.antt =====
-- The thin pool's own metadata: src/thin.
pub mod Delta
pub mod Superblock
pub mod BlockTime
pub mod DeviceDetail
