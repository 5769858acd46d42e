-- ===== src/Disk.antt =====
-- src/storage/disk: the file of pages.
pub mod Manager
pub mod Slots
pub mod Files
pub mod Places
pub mod Pages
pub mod Scheduler
pub mod Durable
mod Tests
