-- ===== src/BTree.antt =====
-- src/storage/index/b_tree.rs and its pages, src/storage/page/b_tree_leaf_page.rs and
-- b_tree_internal_page.rs.
pub mod Keys
pub mod Leaf
pub mod Internal
pub mod Children
pub mod Pair
mod Tests
