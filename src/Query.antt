-- ===== src/Query.antt =====
-- src/query: planned expressions, their evaluation, and the executors.
pub mod Expression
pub mod Eval
pub mod Executor
pub mod Aggregation
