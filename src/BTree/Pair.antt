-- ===== src/BTree/Pair.antt =====
-- The work on a pair of neighbouring leaves in src/storage/index/b_tree.rs.
pub mod Defs
pub mod Delete
pub mod Merge
pub mod Redistribute
pub mod Separator
