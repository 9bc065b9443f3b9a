-- ===== src/Execution.antt =====
-- src/execution: set operations on query results.
pub mod SetOps
