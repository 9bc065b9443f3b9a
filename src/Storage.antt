-- ===== src/Storage.antt =====
-- src/storage: the row stores.
pub mod VectorRowStore
pub mod BufferPool
pub mod CheckEval
pub mod Constraints
