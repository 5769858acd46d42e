-- ===== src/BTree/Leaf.antt =====
-- The leaf page of the B+ tree and its laws.
pub mod Defs
pub mod Tombs
pub mod Invariant
pub mod Live
pub mod Evict
pub mod Moves
pub mod Search
