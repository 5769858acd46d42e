-- ===== src/Query/Executor.antt =====
-- src/query/executor: the executors that pull rows from a child.
pub mod Defs
pub mod Streams
pub mod Drain
pub mod Filtering
mod Tests
