-- ===== src/Cache.antt =====
-- The cache metadata: src/cache.
pub mod Superblock
pub mod Mapping
