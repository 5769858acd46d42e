-- ===== src/Query/Aggregation.antt =====
-- src/query/executor/aggregation.rs: aggregates by group.
pub mod Defs
pub mod Count
pub mod Extremes
mod Tests
