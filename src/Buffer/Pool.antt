-- ===== src/Buffer/Pool.antt =====
-- The buffer pool: src/buffer/bpm.rs, page_guard.rs, frame.rs and page.rs.
pub mod Defs
pub mod Store
pub mod Frames
pub mod Invariant
pub mod Views
pub mod Pins
pub mod Drops
pub mod Taken
pub mod Evict
pub mod Acquire
pub mod Fetch
pub mod Pages
pub mod Delete
pub mod Start
pub mod Race
pub mod Sessions
mod Tests
