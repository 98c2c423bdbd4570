-- ===== src/Pdata.antt =====
-- The persistent data structures: src/pdata.
pub mod SpaceMap
pub mod KeyRange
pub mod BTreeBuilder
