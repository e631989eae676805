-- ===== src/Examples.antt =====
-- Concrete inputs at which the theorems are applied, and an ordered list as a set of pairs.
pub mod SortedSet
pub mod Engine
pub mod Helpers
pub mod Vertices
pub mod Arrays
pub mod Columns
pub mod Documents
pub mod Modified
pub mod Buckets
pub mod Scans
pub mod Edges
pub mod Quantized
