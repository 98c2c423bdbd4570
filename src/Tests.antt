-- ===== src/Tests.antt =====
-- Concrete instances of the theorems.
mod Packing
mod SpaceMaps
mod Metadata
mod Values
mod Shrinking
mod Comparing
mod Building
mod Batching
