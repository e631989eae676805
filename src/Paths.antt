-- ===== src/Paths.antt =====
-- src/modality_paths.cpp: variable-length keys over any engine. A path is hashed to a key, and the
-- value at that key is a bucket of all the paths with that hash, and their values.
pub mod Bucket
pub mod Batch
pub mod Matching
