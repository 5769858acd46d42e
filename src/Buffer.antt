-- ===== src/Buffer.antt =====
-- src/buffer
pub mod Replacer
pub mod Pool
