-- ===== src/Buffer/Replacer.antt =====
-- src/buffer/replacer: the replacement policy and its laws.
pub mod Defs
pub mod Count
pub mod History
pub mod Invariant
pub mod Access
pub mod Victim
pub mod Runs
pub mod Effects
pub mod Histories
mod Tests
