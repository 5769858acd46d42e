-- ===== src/Tuple.antt =====
-- src/storage/table/tuple.rs with src/catalog/schema.rs: rows as bytes.
pub mod Bytes
pub mod Words
pub mod Bitmap
pub mod Defs
pub mod Values
pub mod Written
pub mod Fixed
pub mod Strings
pub mod Column
pub mod Columns
pub mod Placing
pub mod RoundTrip
mod Tests
