-- ===== src/IoEngine.antt =====
-- src/io_engine: how block numbers are grouped into vectored io operations.
pub mod Gaps
