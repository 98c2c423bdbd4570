-- ===== src/Pdata/SpaceMap.antt =====
-- The space maps of src/pdata/space_map.
pub mod Core
pub mod BitSet
pub mod Restricted
pub mod RestrictedTwo
pub mod Common
