-- ===== src/Era.antt =====
-- The era metadata: src/era.
pub mod Superblock
