-- ===== src/Lib.antt =====
-- A verification library for oxtub, a relational database in Rust.
--
-- Paths are from the repository's root. The query side evaluates planned expressions over rows; the
-- storage side keeps pages in a file (the disk manager), frames of pages in memory (chosen for
-- eviction by the LRU-K replacer), and indexes as B+ trees whose leaves delete by tombstones.
--
-- Base: what the models share. `Exec` is a Rust call that returns, fails with an error or panics;
-- Assoc is a hash map as an association list in any order; Int is the machine integers with their
-- checked operations.
--
-- Disk: src/storage/disk/disk_manager.rs. Manager holds `DiskManager` with new, read_page, write_page,
-- allocate_new_page and delete_page, which return the state they leave on errors too. The file is a
-- parameter: `FileOps` has the operations of std::fs::File that the program uses, and `FileLaws` says
-- what they do when they succeed (in Files). Slots and Places are about offsets, Pages about what the pages
-- hold.
--
-- Value: src/types/value.rs and src/catalog/types.rs. The type of f64 with its operations is a parameter
-- (`Floats`); a varchar is its bytes.
--
-- Tuple: src/storage/table/tuple.rs with src/catalog/schema.rs, src/catalog/column.rs and the serialisation of
-- src/types/value.rs. A tuple is its bytes, little-endian; a slice out of bounds and an assertion that
-- fails are `none`. `Encoding` has the bits of an f64 and the test for UTF-8 as parameters. Sizes are not
-- bounded by usize: the theorem is about tuples below the 2^32 bytes that their offsets can name.
--
-- Table: src/storage/page/table_page.rs. A page is its header, the list of its tuple infos and the bytes of the
-- whole page, in which the tuples grow down from the end; that they never meet the infos, which the source
-- keeps in the same bytes, is in the invariant of Slots. u16 fields keep their cut (`% 2 ^ 16`).
--
-- Buffer.Replacer: src/buffer/replacer/lru_k_replacer.rs, all of it. A call that panics is `none`, the
-- overflow checks of usize arithmetic included. Defs has the operations; Runs is about any sequence of
-- calls on a new replacer, Histories about the accesses of each frame.
--
-- Buffer.Pool: src/buffer/bpm.rs with frame.rs, page.rs and page_guard.rs beside it. Defs has the state under
-- the mutex and each call on it as one step: write_page and read_page up to the frame of the guard, the
-- guards' `Drop`, delete_page and new_page. A guard is the number of its frame in a list of held guards; the
-- latches of the frames are not modelled, and the bytes written through a guard arrive when it is dropped.
-- delete_page releases the mutex before it sends its request to the disk: unload_page is the half under the
-- mutex, send_delete the request, and delete_page both with no other call in between. Start is about new pools. Sessions has the two
-- halves as steps of their own, with other calls in between, but for a request whose page was loaded again
-- after the first half: the source has such runs, and Race is about them.
-- Page ids are u32 and overflow as such.
-- The disk is a parameter, `DiskScheduler`, with the laws of Store. Under them a read or a write may fail and
-- leaves the other pages; a deletion, for which nobody waits, does not. The disk manager keeps them while the
-- operations of its file succeed; after one that fails, two of its pages can share a slot.
-- Invariant says what every call keeps, Views what a client sees: the bytes of each page, wherever they
-- are. Disk.Scheduler is src/storage/disk/disk_scheduler.rs, the requests in its channel and the worker's
-- loop on them, and Disk.Durable fills the laws of Store with it and the disk manager.
--
-- BTree.Leaf: src/storage/page/b_tree_leaf_page.rs. A page is the list of its entries below
-- `current_size` and the list of its tombstones, oldest first; the byte layout is not modelled. Defs has
-- the operations under their names, with `none` for a panic. The binary search runs on a fuel of the
-- number of slots: each step leaves fewer of them.
--
-- BTree.Internal and BTree.Children: src/storage/page/b_tree_internal_page.rs, without its byte layout and
-- without `split_insert_after`. A page is the list of its slots, a separator and a child each, and the
-- separators written at `current_size` or behind it, which `set_size`, not modelled, can make slots. The
-- loop of the child search runs on a fuel of the number of slots: each step leaves fewer of them.
--
-- BTree.Pair: the part of src/storage/index/b_tree.rs that deletes from a leaf, borrows between two
-- neighbouring leaves, merges them or shares their entries out. The loop of `merge_leaf_pair` recurses on its own counter. The
-- functions that borrow a single entry, `can_merge_right_into_leaf` and `is_leaf_delete_safe` are
-- definitions without theorems so far.
--
-- Query.Expression and Query.Eval: src/query/planner/expression.rs and src/query/executor/expression.rs.
-- A row is the list of its values. `evaluate_expression_on_tuple` and `generate_sort_key` are not
-- modelled: they read tuples.
--
-- Query.Executor: the trait of src/query/executor/executor.rs with limit.rs, filter.rs, projection.rs and
-- values.rs beside it. An executor is a state and two functions; after an error it is not used again.
-- Streams says what a child promises, as an interface. The loop of the filter runs on fuel, one unit for
-- each batch of the child, none of which is empty but the last. Projection and values are
-- definitions without theorems so far.
--
-- Query.Aggregation: src/query/executor/aggregation.rs, the table of groups as an association list and the
-- functions that combine rows. What a group holds after an error is not modelled: the query fails.
-- make_initial_value, insert_combine and the equality of keys are definitions without theorems so far.
--
-- Not modelled: the thread of the disk scheduler, the latches of the frames, the descent and the splits of the
-- B+ tree, the table heap, the other executors, the catalog, the optimizer, and the parser,
-- binder and planner of SQL: the models here do not depend on them.
--
-- Modules named Tests hold a witness for each theorem below, at a concrete input.
pub mod Base
pub mod Disk
pub mod Value
pub mod Buffer
pub mod BTree
pub mod Query
pub mod Tuple
pub mod Table
