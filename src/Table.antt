-- ===== src/Table.antt =====
-- src/storage/page/table_page.rs: pages of tuples.
pub mod Defs
pub mod Slots
pub mod Insert
pub mod Mark
mod Tests
